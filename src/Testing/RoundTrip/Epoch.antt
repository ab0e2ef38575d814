-- ===== src/Testing/RoundTrip/Epoch.antt =====
-- Instants: the epoch strings are read back to the microsecond, before the epoch too.
use snowflake_sql_api.Common.{
  suc, ◌/◌, ◌%◌, Text, Bool, true, false, not, ◌&&◌, ◌∷◌, ◌++◌, ok, ◌==◌, Bool-cases, ==_iff, ◌≡◌,
  ◌≢◌, refl, ap, ◌∙◌, inl, inr, arith, Lacks, All, All-append,
}
use snowflake_sql_api.Common.Decimal.{IsDigit, decimal, padded, decimal-IsDigit, padded-IsDigit}
use snowflake_sql_api.Common.Int.{ℤ, pos, negsuc}
use snowflake_sql_api.Common.Parsing.{digits-Lacks}
use snowflake_sql_api.Bindings.{Delta}
use snowflake_sql_api.Types.{split_seconds, span_us, from_epoch}
use snowflake_sql_api.Types.Spans.{total_us, in_range, IsNormal, delta_of-total_us}
use snowflake_sql_api.Types.Seconds.{
  head_text, split_seconds_whole, split_seconds_fraction, span_after, span_before,
}
use snowflake_sql_api.Testing.Wire.{magnitude, is_negative, with_sign, epoch_text}

-- What is read of a text stands for `z` microseconds.
abbrev pub Reads : Text → ℤ → Type 0
Reads s z = (t : ℤ × ℤ) × (split_seconds s ≡ ok t) × (span_us t ≡ z)

whole-Reads :
    (z : ℤ)
    → magnitude z % 1000000 ≡ 0
    → Reads (head_text (is_negative z) (magnitude z / 1000000)) z
whole-Reads (pos n) h =
    (_, split_seconds_whole false (n / 1000000), span_after (n / 1000000) 0 ∙ ap pos (omega arith))
whole-Reads (negsuc n) h = (
  _,
  split_seconds_whole true (suc n / 1000000),
  span_before (suc n / 1000000) 0 (omega arith) ∙ ap negsuc (omega arith),
)

fraction-Reads :
    (z : ℤ)
    → Reads
        (head_text (is_negative z) (magnitude z / 1000000)
          ++ b'.' ∷ padded 6 (magnitude z % 1000000))
        z
fraction-Reads (pos n) = (
  _,
  split_seconds_fraction false (n / 1000000) (n % 1000000) (omega arith),
  span_after (n / 1000000) (n % 1000000) ∙ ap pos (omega arith),
)
fraction-Reads (negsuc n) = (
  _,
  split_seconds_fraction true (suc n / 1000000) (suc n % 1000000) (omega arith),
  span_before (suc n / 1000000) (suc n % 1000000) (omega arith) ∙ ap negsuc (omega arith),
)

-- A negative number of whole seconds keeps its sign, since it is not zero.
sign_kept :
    (z : ℤ)
    → magnitude z % 1000000 ≡ 0
    → (is_negative z && not (magnitude z / 1000000 == 0)) ≡ is_negative z
sign_kept (pos n) h = refl
sign_kept (negsuc n) h = ground arith

with_sign-append : (b : Bool) (s t : Text) → with_sign b (s ++ t) ≡ with_sign b s ++ t
with_sign-append true s t = refl
with_sign-append false s t = refl

-- An epoch string is read back as the microseconds that it was made of.
pub epoch_text-Reads : (z : ℤ) → Reads (epoch_text z) z
unfolding epoch_text
epoch_text-Reads z = elim (Bool-cases (magnitude z % 1000000 == 0)) [
  | inl whole ↦
      let e = (==_iff (magnitude z % 1000000) 0).0 whole in
      rw whole (rw (sign_kept z e) (whole-Reads z e))
  | inr parts ↦ rw parts (
      rw
        (with_sign-append (is_negative z) (decimal (magnitude z / 1000000))
          (b'.' ∷ padded 6 (magnitude z % 1000000)))
        (fraction-Reads z))
]

-- A timedelta in normal form and in the range of `datetime`.
pub record IsInstant (d : Delta) : Type 0 where
  pub normal : IsNormal d
  pub within : in_range (total_us d) ≡ true

pub from_epoch-total_us : (d : Delta) → IsInstant d → from_epoch (total_us d) ≡ ok d
unfolding from_epoch
from_epoch-total_us d h = rw h.within (ap (λ x. ok x) (delta_of-total_us d h.normal))

digits_Lacks_blank : (s : Text) → All IsDigit s → Lacks 32 s
digits_Lacks_blank s h = digits-Lacks 32 s (omega arith) h

with_sign-Lacks : (b : Bool) (s : Text) → Lacks 32 s → Lacks 32 (with_sign b s)
with_sign-Lacks true s h = (λ e. omega arith, h)
with_sign-Lacks false s h = h

-- No blank in an epoch string.
pub epoch_text-Lacks : (z : ℤ) → Lacks 32 (epoch_text z)
unfolding epoch_text
epoch_text-Lacks z = elim (Bool-cases (magnitude z % 1000000 == 0)) [
  | inl whole ↦ rw whole (
      with_sign-Lacks (is_negative z && not (magnitude z / 1000000 == 0)) _
        (digits_Lacks_blank _ (decimal-IsDigit (magnitude z / 1000000))))
  | inr parts ↦ rw parts (
      with_sign-Lacks (is_negative z) _ (
        All-append (λ d. d ≢ 32) (decimal (magnitude z / 1000000))
          (b'.' ∷ padded 6 (magnitude z % 1000000))
          (digits_Lacks_blank _ (decimal-IsDigit (magnitude z / 1000000)))
          (λ e. omega arith, digits_Lacks_blank _ (padded-IsDigit 6 (magnitude z % 1000000)))))
]
