-- ===== src/Bindings.antt =====
-- snowflake_sql_api/bindings.py: Python values as the `bindings` map of a statement.
pub mod Keys
pub mod Tests
use snowflake_sql_api.Common.{
  ℕ, zero, suc, ◌+◌, ◌*◌, ◌/◌, ◌%◌, Text, codes, Bool, true, false, Option, none, some, List, [],
  ◌∷◌, ◌++◌, Result, ok, err, ◌>>=◌, if◌then◌else◌, ltb, ◌==◌,
}
use snowflake_sql_api.Common.Decimal.{decimal, decimal_int}
use snowflake_sql_api.Common.Int.{ℤ, pos, negsuc, ◌+ℤ◌, ◌-ℤ◌, ◌*ℤ◌}
use snowflake_sql_api.Errors.{Exc, config_error, raised, plain, foreign}

-- A `timedelta` in Python's normal form: `seconds` and `microseconds` are never negative.
pub record Delta : Type 0 where
  pub days : ℤ
  pub seconds : ℕ
  pub microseconds : ℕ

-- A `datetime`: its distance from the epoch (for an aware one that of the instant), and for an
-- aware one the microseconds of its UTC offset, which may be missing.
pub data DateTime : Type 0 where
  naive : Delta → DateTime
  aware : Delta → Option ℤ → DateTime

-- The Python values by the class that `_bind_one` finds. Of a Decimal, a float and a container the
-- text is kept that `str`, `repr` and `json.dumps` give; of an unsupported value its type and repr.
pub data PyValue : Type 0 where
  none_value : PyValue
  bool : Bool → PyValue
  int : ℤ → PyValue
  decimal_value : Text → PyValue
  float : Text → PyValue
  bytes : List ℕ → PyValue
  datetime : DateTime → PyValue
  date : ℤ → PyValue
  time : ℕ → ℕ → ℕ → ℕ → PyValue
  str : Text → PyValue
  container : Text → PyValue
  unsupported : Text → Text → PyValue

-- `{"type": kind, "value": value}`
pub record BindingValue : Type 0 where
  pub kind : Text
  pub value : Option Text

unfoldable pub epoch_nanos : Delta → ℤ
epoch_nanos d =
    (d.days *ℤ pos 86400 +ℤ pos d.seconds) *ℤ pos 1000000000 +ℤ pos (d.microseconds * 1000)

-- `round(n / d)` of non-negative numbers: a half goes to the even neighbour.
unfoldable pub round_half_even : ℕ → ℕ → ℕ
round_half_even n d =
    let q = n / d in
    let r = n % d in
    if ltb (2 * r) d then q else if ltb d (2 * r) then q + 1 else if q % 2 == 0 then q else q + 1

-- `round(offset.total_seconds() / 60)`, of the microseconds of the offset
unfoldable pub offset_minutes : ℤ → ℤ
unfolding round_half_even
offset_minutes (pos n) = pos (round_half_even n 60000000)
offset_minutes (negsuc n) = pos 0 -ℤ pos (round_half_even (suc n) 60000000)

abbrev bound : Text → Text → Result Exc BindingValue
bound kind value = ok (record { kind = kind; value = some value })

-- A `datetime` whose `tzinfo` has no offset is naive for the subtraction, which refuses it.
unfoldable pub bind_datetime : DateTime → Result Exc BindingValue
unfolding epoch_nanos offset_minutes
bind_datetime (aware d none) = err (
    raised
      (plain foreign (codes "TypeError: can't subtract offset-naive and offset-aware datetimes")))
bind_datetime (aware d (some offset)) =
    bound (codes "TIMESTAMP_TZ") (
      decimal_int (epoch_nanos d) ++ (codes " " ++ decimal_int (offset_minutes offset +ℤ pos 1440)))
bind_datetime (naive d) = bound (codes "TIMESTAMP_NTZ") (decimal_int (epoch_nanos d))

abbrev pub hex_digit : ℕ → ℕ
hex_digit n = if ltb n 10 then 48 + n else 87 + n

-- `bytes.hex()`
unfoldable pub hex : List ℕ → Text
hex [] = []
hex (b ∷ bs) = hex_digit (b / 16) ∷ hex_digit (b % 16) ∷ hex bs

unfoldable pub bind_one : PyValue → Result Exc BindingValue
unfolding bind_datetime hex
bind_one none_value = ok (record { kind = codes "TEXT"; value = none })
bind_one (bool b) = bound (codes "BOOLEAN") (if b then codes "true" else codes "false")
bind_one (int n) = bound (codes "FIXED") (decimal_int n)
bind_one (decimal_value s) = bound (codes "FIXED") s
bind_one (float s) = bound (codes "REAL") s
bind_one (bytes bs) = bound (codes "BINARY") (hex bs)
bind_one (datetime d) = bind_datetime d
bind_one (date days) = bound (codes "DATE") (decimal_int (days *ℤ pos 86400000))
bind_one (time hour minute second microsecond) =
    bound (codes "TIME")
      (decimal ((hour * 3600 + minute * 60 + second) * 1000000000 + microsecond * 1000))
bind_one (str s) = bound (codes "TEXT") s
bind_one (container s) = bound (codes "TEXT") s
bind_one (unsupported name shown) =
    err (config_error (codes "cannot bind value of type " ++ (name ++ (codes ": " ++ shown))))

-- `enumerate(params, start)`, each position as a text beside its binding
unfoldable pub bind_from : ℕ → List PyValue → Result Exc (List (Text × BindingValue))
bind_from i [] = ok []
bind_from i (v ∷ vs) = do b ← bind_one v; rest ← bind_from (i + 1) vs; ok ((decimal i, b) ∷ rest)

unfoldable pub to_bindings : List PyValue → Result Exc (List (Text × BindingValue))
unfolding bind_from
to_bindings params = bind_from 1 params
