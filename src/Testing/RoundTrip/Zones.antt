-- ===== src/Testing/RoundTrip/Zones.antt =====
-- Offsets of time zones, and times of day.
use snowflake_sql_api.Common.{
  ℕ, ◌+◌, ◌*◌, ◌<◌, Text, false, [], ◌∷◌, ok, ◌>>=◌, ◌≡◌, ◌≢◌, refl, ap, ◌∙◌, inl, inr, arith,
  Bool-cases, ==_iff, ◌==◌, append-nil,
}
use snowflake_sql_api.Common.Decimal.{decimal, decimal_int, decimal-ne-nil}
use snowflake_sql_api.Common.Int.{ℤ, pos, negsuc, ◌+ℤ◌, ◌-ℤ◌, ◌*ℤ◌}
use snowflake_sql_api.Common.Parsing.{parse_int-decimal_int}
use snowflake_sql_api.Bindings.{Delta, time}
use snowflake_sql_api.Types.{
  to_int, floor_div, zoned, in_zone, decode_time, nanos_to_micros, split_seconds,
}
use snowflake_sql_api.Types.Seconds.{split_seconds_whole, split_seconds_fraction}
use snowflake_sql_api.Testing.Wire.{clock_text, fraction}

-- Whole minutes.
pub floor_div-minutes : (k : ℤ) → floor_div (k *ℤ pos 60000000) 60000000 ≡ k
unfolding ◌*ℤ◌
floor_div-minutes (pos n) = ground arith
floor_div-minutes (negsuc n) = ground arith

pub plus_minus_day : (k : ℤ) → k +ℤ pos 1440 -ℤ pos 1440 ≡ k
unfolding ◌+ℤ◌ ◌-ℤ◌
plus_minus_day k = ground arith

decimal_int-ne-nil : (z : ℤ) → decimal_int z ≢ []
unfolding decimal_int
decimal_int-ne-nil (pos n) = decimal-ne-nil n
decimal_int-ne-nil (negsuc n) = cc

zoned-cons :
    (d : Delta) (s : Text)
    → s ≢ []
    → zoned d s ≡ (to_int s >>= λ minutes. in_zone d ((minutes -ℤ pos 1440) *ℤ pos 60000000))
zoned-cons d [] h = absurd (h refl)
zoned-cons d (c ∷ s) h = refl

-- The offset that the text of its minutes stands for.
pub zoned-decimal_int :
    (d : Delta) (k : ℤ) → zoned d (decimal_int (k +ℤ pos 1440)) ≡ in_zone d (k *ℤ pos 60000000)
zoned-decimal_int d k =
    zoned-cons d (decimal_int (k +ℤ pos 1440)) (decimal_int-ne-nil (k +ℤ pos 1440))
    ∙ (rw (parse_int-decimal_int (k +ℤ pos 1440)) (rw (plus_minus_day k) refl))

split_seconds-clock_text :
    (secs micros : ℕ)
    → micros < 1000000
    → split_seconds (clock_text secs micros) ≡ ok (pos secs, pos (micros * 1000))
unfolding fraction
split_seconds-clock_text secs micros h = elim (Bool-cases (micros == 0)) [
  | inl whole ↦
      let e = (==_iff micros 0).0 whole in
      rw whole (
        rw (append-nil (decimal secs))
          (split_seconds_whole false secs ∙ ap (λ n. ok (pos secs, pos n)) (omega (arith, e))))
  | inr parts ↦ rw parts (split_seconds_fraction false secs micros h)
]

-- A time of day is read back.
pub decode_time-clock_text :
    (hour minute second micros : ℕ)
    → hour < 24
    → minute < 60
    → second < 60
    → micros < 1000000
    → decode_time (clock_text (hour * 3600 + minute * 60 + second) micros)
      ≡ ok (time hour minute second micros)
unfolding decode_time nanos_to_micros
decode_time-clock_text hour minute second micros h k l m =
    rw (split_seconds-clock_text (hour * 3600 + minute * 60 + second) micros m) (ground arith)
