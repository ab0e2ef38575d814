-- ===== src/Types/Seconds.antt =====
-- What `_split_seconds` makes of the texts of numbers, with and without a fraction.
use snowflake_sql_api.Common.{
  ℕ, zero, suc, ◌+◌, ◌-◌, ◌*◌, ◌<◌, Text, codes, Bool, true, false, [], ◌∷◌, ◌++◌, ok,
  if◌then◌else◌, ◌≡◌, ◌≢◌, refl, sym, ap, ◌∙◌, arith, All, All-append, Lacks, append-nil,
}
use snowflake_sql_api.Common.Decimal.{
  IsDigit, decimal, padded, padded-IsDigit, value-append, value-padded, decimal-IsDigit,
  decimal-ne-nil,
}
use snowflake_sql_api.Common.Int.{ℤ, pos, negsuc, ◌+ℤ◌, ◌-ℤ◌, ◌*ℤ◌}
use snowflake_sql_api.Common.Parsing.{
  negated, parse_int-decimal, parse_int-minus_decimal, parse_int-digits, before-append,
  after-append, before-whole, after-whole, digits-Lacks,
}
use snowflake_sql_api.Types.{
  to_int, starts_minus, read_fraction, split_seconds, nanos_to_micros, span_us,
}
use snowflake_sql_api.Types.Spans.{pos_plus, pos_million}
use snowflake_sql_api.Testing.Wire.{with_sign}

-- The text of a number of seconds, as it begins.
abbrev pub head_text : Bool → ℕ → Text
head_text negative secs = with_sign negative (decimal secs)

abbrev pub head_value : Bool → ℕ → ℤ
head_value true secs = negated secs
head_value false secs = pos secs

head-Lacks : (negative : Bool) (secs : ℕ) → Lacks 46 (head_text negative secs)
head-Lacks true secs =
    (λ e. omega arith, digits-Lacks 46 (decimal secs) (omega arith) (decimal-IsDigit secs))
head-Lacks false secs = digits-Lacks 46 (decimal secs) (omega arith) (decimal-IsDigit secs)

to_int-head :
    (negative : Bool) (secs : ℕ) → to_int (head_text negative secs) ≡ ok (head_value negative secs)
to_int-head true secs = rw (parse_int-minus_decimal secs) refl
to_int-head false secs = rw (parse_int-decimal secs) refl

minus-digits : (s t : Text) → s ≢ [] → All IsDigit s → starts_minus (s ++ t) ≡ false
minus-digits [] t ne h = absurd (ne refl)
minus-digits (c ∷ s) t ne h = ground (arith, h)

minus-head :
    (negative : Bool) (secs : ℕ) (t : Text) → starts_minus (head_text negative secs ++ t) ≡ negative
minus-head true secs t = refl
minus-head false secs t = minus-digits (decimal secs) t (decimal-ne-nil secs) (decimal-IsDigit secs)

-- Whole seconds.
pub split_seconds_whole :
    (negative : Bool) (secs : ℕ)
    → split_seconds (head_text negative secs)
      ≡ ok (head_value negative secs, (if negative then pos 0 -ℤ pos 0 else pos 0))
unfolding split_seconds read_fraction
split_seconds_whole negative secs =
    let none_behind = head-Lacks negative secs in
    let sign =
      sym (ap starts_minus (append-nil (head_text negative secs))) ∙ minus-head negative secs [] in
    rw (before-whole 46 (head_text negative secs) none_behind) (
      rw (after-whole 46 (head_text negative secs) none_behind)
        (rw (to_int-head negative secs) (rw sign refl)))

fraction_value :
    (micros : ℕ) → micros < 1000000 → read_fraction (padded 6 micros) ≡ ok (pos (micros * 1000))
unfolding read_fraction padded
fraction_value micros h =
    rw
      (parse_int-digits (padded 6 micros ++ codes "000") (cc) (
        All-append IsDigit (padded 6 micros) (codes "000") (padded-IsDigit 6 micros) (omega arith)))
      (rw (value-append 0 (padded 6 micros) (codes "000"))
        (rw (value-padded micros h) (ap (λ n. ok (pos n)) (omega arith))))

-- Seconds with a fraction of six digits.
pub split_seconds_fraction :
    (negative : Bool) (secs micros : ℕ)
    → micros < 1000000
    → split_seconds (head_text negative secs ++ b'.' ∷ padded 6 micros)
      ≡ ok (
        head_value negative secs,
        (if negative then pos 0 -ℤ pos (micros * 1000) else pos (micros * 1000)),
      )
unfolding split_seconds
split_seconds_fraction negative secs micros h =
    let no_dot = head-Lacks negative secs in
    rw (before-append 46 (head_text negative secs) (padded 6 micros) no_dot) (
      rw (after-append 46 (head_text negative secs) (padded 6 micros) no_dot) (
        rw (to_int-head negative secs) (
          rw (fraction_value micros h)
            (rw (minus-head negative secs (b'.' ∷ padded 6 micros)) refl))))

pub span_after :
    (secs micros : ℕ) → span_us (pos secs, pos (micros * 1000)) ≡ pos (secs * 1000000 + micros)
unfolding nanos_to_micros
span_after secs micros = rw (pos_million, pos_plus) (ap pos (omega arith))

pub span_before :
    (secs micros : ℕ)
    → 0 < secs * 1000000 + micros
    → span_us (negated secs, pos 0 -ℤ pos (micros * 1000)) ≡ negsuc (secs * 1000000 + micros - 1)
unfolding nanos_to_micros ◌+ℤ◌ ◌-ℤ◌ ◌*ℤ◌
span_before zero micros h = ground arith
span_before (suc secs) micros h = ground arith
