-- ===== src/Testing/RoundTrip/Values.antt =====
-- The round trip for every kind of value, under the type that `_infer_type` gives it.
use snowflake_sql_api.Common.{
  ℕ, zero, suc, ◌/◌, ◌%◌, ◌<◌, Text, codes, true, false, Option, some, none, List, [], ◌∷◌, Result,
  ok, ◌>>=◌, ◌≡◌, refl, inl, inr, arith, Bool-cases, All, text_eq,
}
use snowflake_sql_api.Common.Decimal.{decimal_int}
use snowflake_sql_api.Common.Int.{ℤ, pos, ◌+ℤ◌, ◌*ℤ◌}
use snowflake_sql_api.Common.Parsing.{strip, before-append, after-append, parse_int-decimal_int}
use snowflake_sql_api.Errors
use snowflake_sql_api.Errors.{Exc, Value, null}
use snowflake_sql_api.Bindings.{
  Delta, naive, aware, PyValue, none_value, bool, int, decimal_value, float, bytes, datetime, date,
  time, str, container, unsupported, hex, hex_digit,
}
use snowflake_sql_api.Types.{
  Reading, ColumnMeta, coerce_value, from_hex, decode_fixed, decode_date, decode_timestamp_ntz,
  or_invalid, decode_timestamp_tz, in_zone, is_offset,
}
use snowflake_sql_api.Types.Spans.{total_us, in_range, day_in_range}
use snowflake_sql_api.Testing.Wire.{
  Writing, infer_type, is_object, scale_of, encode_cell, epoch_string, tz_text, epoch_text,
}
use snowflake_sql_api.Testing.RoundTrip.Epoch.{
  epoch_text-Reads, IsInstant, from_epoch-total_us, epoch_text-Lacks,
}
use snowflake_sql_api.Testing.RoundTrip.Zones.{
  floor_div-minutes, zoned-decimal_int, decode_time-clock_text,
}

-- A byte is read back from its two digits.
hex_pair_back :
    (b : ℕ) (s : Text) (bs : List ℕ)
    → b < 256
    → from_hex s ≡ some bs
    → from_hex (hex_digit (b / 16) ∷ hex_digit (b % 16) ∷ s) ≡ some (b ∷ bs)
unfolding from_hex
hex_pair_back b s bs h e = ground arith

pub from_hex-hex : (bs : List ℕ) → All (λ b. b < 256) bs → from_hex (hex bs) ≡ some bs
unfolding hex
from_hex-hex [] h = unfold from_hex in refl
from_hex-hex (b ∷ bs) (p, h) = hex_pair_back b (hex bs) bs p (from_hex-hex bs h)

-- The documented behaviour of the built-in functions that the round trip rests on.
pub record Agrees (reading : Reading) (writing : Writing) : Type 0 where
  pub lower_true : reading.lower (codes "true") ≡ codes "true"
  pub lower_false : reading.lower (codes "false") ≡ codes "false"
  pub str_of_int : (n : ℤ) → writing.str_of (int n) ≡ decimal_int n
  pub str_of_text : (s : Text) → writing.str_of (str s) ≡ s
  pub bytes_of_bytes : (bs : List ℕ) → writing.bytes_of (bytes bs) ≡ ok bs

-- `json.loads(json.dumps(v)) == v`, and the same of the other texts that stand for values.
abbrev Restores : Result Exc Text → (Text → Option PyValue) → PyValue → Type 0
Restores written read v = (t : Text) × (written ≡ ok t) × (read t ≡ some v)

abbrev as_float : Option Text → Option PyValue
as_float none = none
as_float (some s) = some (float s)

module _ (reading : Reading) (writing : Writing) where
  -- The values that a result can hold: fields in their ranges, instants in the range of `datetime`,
  -- whole minutes of an offset, a Decimal with a fraction, and no value without a binding.
  abbrev pub IsRegular : PyValue → Type 0
  IsRegular none_value = Unit
  IsRegular (bool b) = Unit
  IsRegular (int n) = Unit
  IsRegular (decimal_value s) =
      (0 < scale_of (writing.exponent s))
      × (reading.read_decimal (writing.plain_decimal s) ≡ some s)
  IsRegular (float s) =
      Restores (writing.float_repr (float s)) (λ t. as_float (reading.read_float t)) (float s)
  IsRegular (bytes bs) = All (λ b. b < 256) bs
  IsRegular (datetime (naive d)) = IsInstant d
  IsRegular (datetime (aware d none)) = ⊥
  IsRegular (datetime (aware d (some o))) =
      IsInstant d
      × (is_offset o ≡ true)
      × (in_range (total_us d +ℤ o) ≡ true)
      × ((k : ℤ) × (o ≡ k *ℤ pos 60000000))
  IsRegular (date n) = day_in_range n ≡ true
  IsRegular (time h m s u) = (h < 24) × (m < 60) × (s < 60) × (u < 1000000)
  IsRegular (str s) = Unit
  IsRegular (container s) = Restores (writing.dumps (container s)) (reading.loads) (container s)
  IsRegular (unsupported name shown) = ⊥

  abbrev pub scale_value : Option ℕ → Value
  scale_value none = null
  scale_value (some n) = Errors.int (pos n)

  -- The column that the result of a value announces.
  abbrev pub column_of : Value → PyValue → ColumnMeta
  column_of name v = record {
    name = name;
    type = (infer_type writing v).0;
    scale = scale_value (infer_type writing v).1;
    precision = null;
    nullable = true;
  }

  -- Reading the cell that is written.
  abbrev pub through : Value → PyValue → Result Exc PyValue
  through name v = encode_cell writing v (infer_type writing v).0 >>= λ cell.
      coerce_value reading cell (column_of name v)

  decimal_back :
      (t s : Text) (n : ℕ)
      → 0 < n
      → reading.read_decimal t ≡ some s
      → decode_fixed reading t (Errors.int (pos n)) ≡ ok (decimal_value s)
  unfolding decode_fixed
  decimal_back t s zero h read = absurd (omega arith)
  decimal_back t s (suc n) h read = rw read refl

  float_back :
      (o : Option Text) (s : Text) → as_float o ≡ some (float s) → or_invalid float o ≡ ok (float s)
  float_back none s h = cc
  float_back (some t) s h = cc

  module _ (agrees : Agrees reading writing) where
    timestamp_back :
        (d : Delta) → IsInstant d → decode_timestamp_ntz (epoch_string d) ≡ ok (datetime (naive d))
    unfolding decode_timestamp_ntz epoch_string
    timestamp_back d h =
        let (t, read, total) = epoch_text-Reads (total_us d) in
        rw read (rw total (rw (from_epoch-total_us d h) refl))

    zone_back :
        (d : Delta) (k : ℤ)
        → IsInstant d
        → is_offset (k *ℤ pos 60000000) ≡ true
        → in_range (total_us d +ℤ k *ℤ pos 60000000) ≡ true
        → decode_timestamp_tz (tz_text (aware d (some (k *ℤ pos 60000000))))
          ≡ ok (datetime (aware d (some (k *ℤ pos 60000000))))
    unfolding decode_timestamp_tz epoch_string in_zone
    zone_back d k h off local =
        let (t, read, total) = epoch_text-Reads (total_us d) in
        let lacks = epoch_text-Lacks (total_us d) in
        rw (floor_div-minutes k) (
          rw (before-append 32 (epoch_text (total_us d)) (decimal_int (k +ℤ pos 1440)) lacks) (
            rw (after-append 32 (epoch_text (total_us d)) (decimal_int (k +ℤ pos 1440)) lacks) (
              rw read (
                rw total (
                  rw (from_epoch-total_us d h)
                    (rw (zoned-decimal_int d k) (rw off (rw local refl))))))))

    -- A value that a result can hold is written as a cell and read back as itself, under the type
    -- and scale that are inferred for it.
    pub coerce_value-encode_cell :
        (name : Value) (v : PyValue) → IsRegular v → through name v ≡ ok v
    unfolding encode_cell coerce_value infer_type text_eq decode_fixed decode_date strip
    coerce_value-encode_cell name none_value h = refl
    coerce_value-encode_cell name (bool true) h = rw agrees.lower_true refl
    coerce_value-encode_cell name (bool false) h = rw agrees.lower_false refl
    coerce_value-encode_cell name (int n) h =
        rw (agrees.str_of_int n) (rw (parse_int-decimal_int n) refl)
    coerce_value-encode_cell name (decimal_value s) (h, read) =
        decimal_back (writing.plain_decimal s) s (scale_of (writing.exponent s)) h read
    coerce_value-encode_cell name (float s) (t, written, read) =
        rw written (float_back (reading.read_float t) s read)
    coerce_value-encode_cell name (bytes bs) h =
        rw (agrees.bytes_of_bytes bs) (rw (from_hex-hex bs h) refl)
    coerce_value-encode_cell name (datetime (naive d)) h = timestamp_back d h
    coerce_value-encode_cell name (datetime (aware d none)) h = absurd h
    coerce_value-encode_cell name (datetime (aware d (some o))) (h, off, local, (k, e)) =
        rw e (zone_back d k h (rw e at off) (rw e at local))
    coerce_value-encode_cell name (date n) h = rw (parse_int-decimal_int n) (rw h refl)
    coerce_value-encode_cell name (time hour minute second micros) (h, m, s, u) =
        decode_time-clock_text hour minute second micros h m s u
    coerce_value-encode_cell name (str s) h = rw (agrees.str_of_text s) refl
    coerce_value-encode_cell name (container s) (t, written, read) =
        elim (Bool-cases (is_object s)) [
          | inl object ↦ rw object (rw written (rw read refl))
          | inr array ↦ rw array (rw written (rw read refl))
        ]
    coerce_value-encode_cell name (unsupported n shown) h = absurd h
