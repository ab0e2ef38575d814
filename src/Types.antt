-- ===== src/Types.antt =====
-- snowflake_sql_api/types.py: the columns of a result, and the coercion of wire texts to values.
-- Texts are ASCII where numbers are read. What `float`, `Decimal`, `json.loads`, `str`, `repr` and
-- `lower` do is a parameter.
pub mod Spans
pub mod Seconds
pub mod Columns
pub mod Unique
pub mod Rows
pub mod Tests
use snowflake_sql_api.Common.{
  ℕ, zero, suc, ◌+◌, ◌-◌, ◌*◌, ◌/◌, ◌%◌, Text, codes, Bool, true, false, ◌||◌, ◌&&◌, Option, none,
  some, List, [], ◌∷◌, ◌++◌, map, take, Result, ok, err, ◌>>=◌, traverse, if◌then◌else◌, ltb, leb,
  ◌==◌, text_eq, length, join,
}
use snowflake_sql_api.Common.Decimal.{decimal}
use snowflake_sql_api.Common.Int.{ℤ, pos, negsuc, ◌+ℤ◌, ◌-ℤ◌, ◌*ℤ◌}
use snowflake_sql_api.Common.Parsing.{before, after, parse_int, strip, negated}
use snowflake_sql_api.Errors
use snowflake_sql_api.Errors.{
  Value, null, str, arr, obj, Items, Fields, get, get_or, has_key, truthy, is_none, to_list,
  or_else, nil, end, Exc, raised, plain, foreign, config_error, request_error,
}
use snowflake_sql_api.Bindings
use snowflake_sql_api.Bindings.{
  Delta, DateTime, naive, aware, PyValue, none_value, bool, int, bytes, datetime, date, time,
}
use snowflake_sql_api.Types.Spans.{delta_of, total_us, in_range, day_in_range}

abbrev pub builtin : Text → Exc
builtin name = raised (plain foreign name)

-- The built-in functions that the coercion calls.
pub record Reading : Type 0 where
  -- `float(text)` and `Decimal(text)`, as the text that a float or a Decimal is kept by
  pub read_float : Text → Option Text
  pub read_decimal : Text → Option Text
  -- `json.loads(text)`
  pub loads : Text → Option PyValue
  -- `str.lower`, `str` of a JSON value and `repr` of a text
  pub lower : Text → Text
  pub shown : Value → Text
  pub repr : Text → Text

pub record ColumnMeta : Type 0 where
  pub name : Value
  pub type : Text
  pub scale : Value
  pub precision : Value
  pub nullable : Bool

-- `ColumnMeta.from_row_type`; an entry that is no dict is not indexed by a text.
unfoldable pub from_row_type : Reading → Value → Result Exc ColumnMeta
from_row_type py (obj entry) =
    if has_key (codes "name") entry && has_key (codes "type") entry
    then ok (record {
      name = get (codes "name") entry;
      type = py.lower (py.shown (get (codes "type") entry));
      scale = get (codes "scale") entry;
      precision = get (codes "precision") entry;
      nullable = truthy (get_or (codes "nullable") entry (Errors.bool true));
    })
    else err (builtin (codes "KeyError"))
from_row_type py _ = err (builtin (codes "TypeError"))

abbrev int_or_error : Option ℤ → Result Exc ℤ
int_or_error none = err (builtin (codes "ValueError"))
int_or_error (some n) = ok n

-- `int(text)`
abbrev pub to_int : Text → Result Exc ℤ
to_int s = int_or_error (parse_int s)

abbrev pub starts_minus : Text → Bool
starts_minus [] = false
starts_minus (c ∷ s) = c == 45

abbrev pub nine_zeros : Text
nine_zeros = codes "000000000"

-- `int((frac_part + "000000000")[:9]) if frac_part else 0`
unfoldable pub read_fraction : Text → Result Exc ℤ
read_fraction [] = ok (pos 0)
read_fraction (c ∷ s) = to_int (take 9 ((c ∷ s) ++ nine_zeros))

-- `_split_seconds`
unfoldable pub split_seconds : Text → Result Exc (ℤ × ℤ)
unfolding read_fraction
split_seconds value = do
  whole ← to_int (before 46 value)
  nanos ← read_fraction (after 46 value)
  ok (whole, (if starts_minus value then pos 0 -ℤ nanos else nanos))

-- `_nanos_to_micros`
unfoldable pub nanos_to_micros : ℤ → ℤ
nanos_to_micros (pos n) = pos (n / 1000)
nanos_to_micros (negsuc n) = negated (suc n / 1000)

-- The microseconds of `timedelta(seconds=secs, microseconds=_nanos_to_micros(nanos))`
abbrev pub span_us : ℤ × ℤ → ℤ
span_us (secs, nanos) = secs *ℤ pos 1000000 +ℤ nanos_to_micros nanos

abbrev overflow : Exc
overflow = builtin (codes "OverflowError")

-- `datetime(1970, 1, 1) + timedelta(microseconds=us)`
unfoldable pub from_epoch : ℤ → Result Exc Delta
unfolding delta_of in_range
from_epoch us = if in_range us then ok (delta_of us) else err overflow

-- `_decode_date`
unfoldable pub decode_date : Text → Result Exc PyValue
unfolding day_in_range
decode_date value = do
  days ← to_int value
  if day_in_range days then ok (date days) else err overflow

-- `divmod` by a positive number
abbrev pub floor_div : ℤ → ℕ → ℤ
floor_div (pos n) d = pos (n / d)
floor_div (negsuc n) d = negsuc (n / d)

abbrev pub floor_mod : ℤ → ℕ → ℕ
floor_mod (pos n) d = n % d
floor_mod (negsuc n) d = d - 1 - n % d

-- `time(...)` takes no negative microsecond.
abbrev time_at : ℤ → ℤ → Result Exc PyValue
time_at secs (negsuc n) = err (builtin (codes "ValueError"))
time_at secs (pos us) = ok (
    time (floor_mod (floor_div secs 3600) 24) (floor_mod secs 3600 / 60) (floor_mod secs 3600 % 60)
      us)

-- `_decode_time`
unfoldable pub decode_time : Text → Result Exc PyValue
unfolding split_seconds nanos_to_micros
decode_time value = do t ← split_seconds value; time_at t.0 (nanos_to_micros t.1)

unfoldable pub decode_timestamp_ntz : Text → Result Exc PyValue
unfolding split_seconds nanos_to_micros from_epoch
decode_timestamp_ntz value = do
  t ← split_seconds value
  d ← from_epoch (span_us t)
  ok (datetime (naive d))

unfoldable pub decode_timestamp_ltz : Text → Result Exc PyValue
unfolding split_seconds nanos_to_micros from_epoch
decode_timestamp_ltz value = do
  t ← split_seconds value
  d ← from_epoch (span_us t)
  ok (datetime (aware d (some (pos 0))))

abbrev pub minute_us : ℕ
minute_us = 60000000

-- Strictly between minus and plus 24 hours, as `timezone` wants it.
unfoldable pub is_offset : ℤ → Bool
is_offset (pos n) = ltb n 86400000000
is_offset (negsuc n) = ltb (suc n) 86400000000

-- `instant.astimezone(timezone(timedelta(minutes=...)))`, with the microseconds of the offset
unfoldable pub in_zone : Delta → ℤ → Result Exc PyValue
unfolding is_offset in_range
in_zone d offset =
    if is_offset offset
    then (if in_range (total_us d +ℤ offset)
        then ok (datetime (aware d (some offset)))
        else err overflow)
    else err (builtin (codes "ValueError"))

abbrev pub zoned : Delta → Text → Result Exc PyValue
zoned d [] = ok (datetime (aware d (some (pos 0))))
zoned d (c ∷ s) = to_int (c ∷ s) >>= λ minutes. in_zone d ((minutes -ℤ pos 1440) *ℤ pos 60000000)

unfoldable pub decode_timestamp_tz : Text → Result Exc PyValue
unfolding split_seconds nanos_to_micros from_epoch in_zone
decode_timestamp_tz value = do
  t ← split_seconds (before 32 value)
  d ← from_epoch (span_us t)
  zoned d (after 32 value)

-- `scale in (None, 0)`; False and 0.0 are equal to 0.
abbrev pub no_scale : Value → Bool
no_scale null = true
no_scale (Errors.int (pos zero)) = true
no_scale (Errors.bool false) = true
no_scale (Errors.float true n) = true
no_scale _ = false

abbrev pub or_invalid : (Text → PyValue) → Option Text → Result Exc PyValue
or_invalid make none = err (builtin (codes "ValueError"))
or_invalid make (some s) = ok (make s)

abbrev int_value : Result Exc ℤ → Result Exc PyValue
int_value (ok n) = ok (int n)
int_value (err e) = err e

-- `_decode_fixed`; what `Decimal` refuses raises `InvalidOperation`.
unfoldable pub decode_fixed : Reading → Text → Value → Result Exc PyValue
decode_fixed py value scale =
    if no_scale scale
    then int_value (to_int value)
    else or_invalid Bindings.decimal_value (py.read_decimal value)

-- What the tests of `coerce_value` tell apart in `column.type`.
pub data ColumnKind : Type 0 where
  fixed real text boolean binary date_kind time_kind ntz ltz tz semi_structured other_kind :
      ColumnKind

abbrev is_one_of : List Text → Text → Bool
is_one_of [] s = false
is_one_of (n ∷ ns) s = text_eq s n || is_one_of ns s

unfoldable pub kind_of : Text → ColumnKind
kind_of s =
    if text_eq s (codes "fixed")
    then fixed
    else if is_one_of (codes "real" ∷ codes "float" ∷ codes "double" ∷ []) s
    then real
    else if is_one_of (codes "text" ∷ codes "char" ∷ codes "string" ∷ codes "varchar" ∷ []) s
    then text
    else if text_eq s (codes "boolean")
    then boolean
    else if text_eq s (codes "binary")
    then binary
    else if text_eq s (codes "date")
    then date_kind
    else if text_eq s (codes "time")
    then time_kind
    else if text_eq s (codes "timestamp_ntz")
    then ntz
    else if text_eq s (codes "timestamp_ltz")
    then ltz
    else if text_eq s (codes "timestamp_tz")
    then tz
    else if is_one_of (codes "variant" ∷ codes "object" ∷ codes "array" ∷ []) s
    then semi_structured
    else other_kind

abbrev hex_value : ℕ → Option ℕ
hex_value c =
    if leb 48 c && leb c 57
    then some (c - 48)
    else if leb 97 c && leb c 102
    then some (c - 87)
    else if leb 65 c && leb c 70
    then some (c - 55)
    else none

abbrev hex_pair : Option ℕ → Option ℕ → Option (List ℕ) → Option (List ℕ)
hex_pair (some a) (some b) (some bs) = some ((a * 16 + b) ∷ bs)
hex_pair _ _ _ = none

-- `bytes.fromhex(text)`; blanks may stand between two bytes.
abbrev blank : ℕ → Bool
blank c = c == 32 || (leb 9 c && leb c 13)

unfoldable pub from_hex : Text → Option (List ℕ)
from_hex [] = some []
from_hex (c ∷ []) = if blank c then some [] else none
from_hex (c ∷ d ∷ s) =
    let skipped = from_hex (d ∷ s) in
    let rest = from_hex s in if blank c then skipped else hex_pair (hex_value c) (hex_value d) rest

abbrev pub loaded : Option PyValue → Result Exc PyValue
loaded none = err (builtin (codes "JSONDecodeError"))
loaded (some v) = ok v

abbrev bytes_or_invalid : Option (List ℕ) → Result Exc PyValue
bytes_or_invalid none = err (builtin (codes "ValueError"))
bytes_or_invalid (some bs) = ok (bytes bs)

-- The cases of `coerce_value` for a text.
unfoldable pub decode : Reading → ColumnKind → Text → Value → Result Exc PyValue
unfolding decode_fixed from_hex decode_date decode_time decode_timestamp_ntz decode_timestamp_ltz
    decode_timestamp_tz strip
decode py fixed raw scale = decode_fixed py raw scale
decode py real raw scale = or_invalid Bindings.float (py.read_float raw)
decode py text raw scale = ok (Bindings.str raw)
decode py boolean raw scale =
    let flag = py.lower (strip raw) in
    ok (bool (text_eq flag (codes "true") || text_eq flag (codes "1")))
decode py binary raw scale = bytes_or_invalid (from_hex raw)
decode py date_kind raw scale = decode_date raw
decode py time_kind raw scale = decode_time raw
decode py ntz raw scale = decode_timestamp_ntz raw
decode py ltz raw scale = decode_timestamp_ltz raw
decode py tz raw scale = decode_timestamp_tz raw
decode py semi_structured raw scale = loaded (py.loads raw)
decode py other_kind raw scale = ok (Bindings.str raw)

-- `coerce_value`, of a text or `None`
unfoldable pub coerce_value : Reading → Option Text → ColumnMeta → Result Exc PyValue
unfolding decode kind_of
coerce_value py none column = ok none_value
coerce_value py (some raw) column = decode py (kind_of column.type) raw column.scale
