-- ===== src/Testing/Wire.antt =====
-- The wire encoding of testing.py. What `str`, `json.dumps`, `bytes`, `repr(float(...))` and the
-- formatting and inspection of a Decimal do is a parameter.
use snowflake_sql_api.Common.{
  ℕ, suc, ◌+◌, ◌*◌, ◌/◌, ◌%◌, Text, codes, Bool, true, false, not, ◌&&◌, Option, none, some, List,
  [], ◌∷◌, ◌++◌, Result, ok, err, ◌>>=◌, if◌then◌else◌, ◌==◌,
}
use snowflake_sql_api.Common.Decimal.{decimal, decimal_int, padded}
use snowflake_sql_api.Common.Int.{ℤ, pos, negsuc, ◌+ℤ◌}
use snowflake_sql_api.Errors.{Exc}
use snowflake_sql_api.Bindings.{
  Delta, DateTime, naive, aware, PyValue, none_value, bool, int, decimal_value, float, bytes,
  datetime, date, time, str, container, unsupported, hex,
}
use snowflake_sql_api.Types.{
  ColumnKind, fixed, real, text, boolean, binary, date_kind, time_kind, ntz, ltz, tz,
  semi_structured, other_kind, kind_of, builtin, floor_div, minute_us,
}
use snowflake_sql_api.Types.Spans.{delta_of, total_us}

pub record Writing : Type 0 where
  -- `str(value)`, `json.dumps(value)`, `bytes(value)` and `repr(float(value))`
  pub str_of : PyValue → Text
  pub dumps : PyValue → Result Exc Text
  pub bytes_of : PyValue → Result Exc (List ℕ)
  pub float_repr : PyValue → Result Exc Text
  -- of a Decimal: `format(value, "f")`, and its exponent where that is a number
  pub plain_decimal : Text → Text
  pub exponent : Text → Option ℤ
  -- `bool(value)` of a number that is kept by its text, or of an object
  pub truth_of : PyValue → Bool

-- `_fraction`
unfoldable pub fraction : ℕ → Text
fraction micros = if micros == 0 then [] else b'.' ∷ padded 6 micros

abbrev pub is_negative : ℤ → Bool
is_negative (pos n) = false
is_negative (negsuc n) = true

-- `abs`
abbrev pub magnitude : ℤ → ℕ
magnitude (pos n) = n
magnitude (negsuc n) = suc n

abbrev pub with_sign : Bool → Text → Text
with_sign true s = b'-' ∷ s
with_sign false s = s

-- `_epoch_string`, of the microseconds of the timedelta
unfoldable pub epoch_text : ℤ → Text
epoch_text total =
    let secs = magnitude total / 1000000 in
    let frac = magnitude total % 1000000 in
    if frac == 0
    then with_sign (is_negative total && not (secs == 0)) (decimal secs)
    else with_sign (is_negative total) (decimal secs ++ b'.' ∷ padded 6 frac)

unfoldable pub epoch_string : Delta → Text
unfolding epoch_text total_us
epoch_string d = epoch_text (total_us d)

-- `json.dumps` begins the text of a dict with a brace.
abbrev pub is_object : Text → Bool
is_object [] = false
is_object (c ∷ s) = c == 123

abbrev pub scale_of : Option ℤ → ℕ
scale_of (some (negsuc n)) = suc n
scale_of _ = 0

-- `_infer_type`
unfoldable pub infer_type : Writing → PyValue → Text × Option ℕ
infer_type py (bool b) = (codes "boolean", none)
infer_type py (int n) = (codes "fixed", some 0)
infer_type py (decimal_value s) = (codes "fixed", some (scale_of (py.exponent s)))
infer_type py (float s) = (codes "real", none)
infer_type py (bytes bs) = (codes "binary", none)
infer_type py (datetime (aware d o)) = (codes "timestamp_tz", none)
infer_type py (datetime (naive d)) = (codes "timestamp_ntz", none)
infer_type py (date n) = (codes "date", none)
infer_type py (time h m s u) = (codes "time", none)
infer_type py (container s) = (if is_object s then codes "object" else codes "array", none)
infer_type py (none_value) = (codes "text", none)
infer_type py (str s) = (codes "text", none)
infer_type py (unsupported name shown) = (codes "text", none)

abbrev attribute_error : Exc
attribute_error = builtin (codes "AttributeError")

abbrev truthy_value : Writing → PyValue → Bool
truthy_value py (bool b) = b
truthy_value py (int n) = not (magnitude n == 0)
truthy_value py (bytes []) = false
truthy_value py (str []) = false
truthy_value py (bytes (b ∷ bs)) = true
truthy_value py (str (c ∷ s)) = true
truthy_value py (datetime d) = true
truthy_value py (date n) = true
truthy_value py (time h m s u) = true
truthy_value py v = py.truth_of v

-- The local time of a datetime; a missing offset counts as none.
abbrev wall : DateTime → Delta
wall (naive d) = d
wall (aware d none) = d
wall (aware d (some o)) = delta_of (total_us d +ℤ o)

-- The instant of a datetime, a naive one taken as UTC.
abbrev instant : DateTime → Delta
instant (naive d) = d
instant (aware d o) = d

-- `int(offset.total_seconds() // 60) if offset is not None else 0`
abbrev pub offset_minutes : DateTime → ℤ
offset_minutes (naive d) = pos 0
offset_minutes (aware d none) = pos 0
offset_minutes (aware d (some o)) = floor_div o minute_us

abbrev date_text : PyValue → Result Exc Text
date_text (date n) = ok (decimal_int n)
date_text (datetime d) = err (builtin (codes "TypeError"))
date_text v = err (builtin (codes "TypeError"))

abbrev pub clock_text : ℕ → ℕ → Text
clock_text secs micros = decimal secs ++ fraction micros

abbrev time_text : PyValue → Result Exc Text
time_text (time h m s u) = ok (clock_text (h * 3600 + m * 60 + s) u)
time_text (datetime d) = ok (clock_text (Delta.seconds (wall d)) (Delta.microseconds (wall d)))
time_text v = err attribute_error

abbrev stamp : (DateTime → Text) → PyValue → Result Exc Text
stamp f (datetime d) = ok (f d)
stamp f v = err attribute_error

abbrev pub tz_text : DateTime → Text
tz_text d = epoch_string (instant d) ++ b' ' ∷ decimal_int (offset_minutes d +ℤ pos 1440)

abbrev fixed_text : Writing → PyValue → Text
fixed_text py (decimal_value s) = py.plain_decimal s
fixed_text py v = py.str_of v

-- The cases of `_encode_cell` for a value that is not None.
unfoldable pub encode : Writing → ColumnKind → PyValue → Result Exc Text
unfolding fraction epoch_string hex
encode py boolean v = ok (if truthy_value py v then codes "true" else codes "false")
encode py semi_structured v = py.dumps v
encode py binary v = py.bytes_of v >>= λ bs. ok (hex bs)
encode py date_kind v = date_text v
encode py time_kind v = time_text v
encode py ntz v = stamp (λ d. epoch_string (wall d)) v
encode py ltz v = stamp (λ d. epoch_string (instant d)) v
encode py tz v = stamp tz_text v
encode py fixed v = ok (fixed_text py v)
encode py real v = py.float_repr v
encode py text v = ok (py.str_of v)
encode py other_kind v = ok (py.str_of v)

abbrev pub some_text : Result Exc Text → Result Exc (Option Text)
some_text (ok s) = ok (some s)
some_text (err e) = err e

-- `_encode_cell`
unfoldable pub encode_cell : Writing → PyValue → Text → Result Exc (Option Text)
unfolding encode kind_of
encode_cell py none_value col_type = ok none
encode_cell py v col_type = some_text (encode py (kind_of col_type) v)
