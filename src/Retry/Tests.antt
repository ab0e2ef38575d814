-- ===== src/Retry/Tests.antt =====
-- The policy over whole numbers, with a random number that is zero.
use snowflake_sql_api.Common.{
  ℕ, zero, suc, ◌*◌, ◌≤◌, codes, true, none, some, [], ◌∷◌, leb, if◌then◌else◌, ◌≡◌, ◌⊎◌, refl,
  arith, Text, Option,
}
use snowflake_sql_api.Retry.{Floats, RetryPolicy, Surroundings, delay_for, strip, strip_end}
use snowflake_sql_api.Retry.Limits.{IsOrder, IsPolicy, IsBetween, Asks, Obeys, delay_for-Obeys}

abbrev pow : ℕ → ℕ → ℕ
pow b zero = 1
pow b (suc n) = b * pow b n

abbrev whole : Floats
whole = record {
  F = ℕ;
  nought = 0;
  times = λ a b. a * b;
  power = pow;
  lesser = λ a b. if leb a b then a else b;
  greater = λ a b. if leb b a then a else b;
  of_digits = λ s. 5;
}

abbrev policy : RetryPolicy whole
policy = record {
  max_attempts = 3;
  base_backoff = 1;
  max_backoff = 8;
  multiplier = 2;
  jitter = true;
  retry_statuses = 429 ∷ 503 ∷ [];
  rate_limit_backoff_multiplier = 10;
  max_retry_after = 60;
}

abbrev still : Surroundings whole
still = record { uniform = λ a. 0; seconds_until = λ s. none }

blanks_go : strip whole (codes " 5 ") ≡ codes "5"
unfolding strip strip_end
blanks_go = refl

lesser_first : (a b : ℕ) → (if leb a b then a else b) ≤ a
lesser_first a b = ground arith

lesser_second : (a b : ℕ) → (if leb a b then a else b) ≤ b
lesser_second a b = ground arith

lesser_either : (a b : ℕ) → ((if leb a b then a else b) ≡ a) ⊎ ((if leb a b then a else b) ≡ b)
lesser_either a b = ground arith

abbrev AtMost : ℕ → ℕ → Type 0
AtMost a b = a ≤ b

ordered : IsOrder whole AtMost 1000 still
ordered = record {
  lesser_first = λ {a} {b} h k. lesser_first a b;
  lesser_second = λ {a} {b} h k. lesser_second a b;
  lesser_either = lesser_either;
  greater_nonneg = λ a. omega arith;
  digits_nonneg = λ t. omega arith;
  uniform_nonneg = λ h k. omega arith;
  uniform_below = λ h k. omega (arith, h);
  below_trans = λ h k. omega (arith, h, k);
}

sound : IsPolicy whole AtMost 1000 policy
sound = record {
  max_backoff_nonneg = omega arith;
  max_backoff_finite = omega arith;
  max_retry_after_nonneg = omega arith;
  schedule_nonneg = λ n. omega arith;
  limited_nonneg = λ n. omega arith;
}

delay_for-Obeys_example :
    IsBetween whole AtMost 1000 (delay_for whole policy still 1 (some 429) none) 8
    × ((t : Text)
        → (asked : Option ℕ) × Asks whole AtMost 1000 still t asked
          × Obeys whole AtMost 1000 policy still ordered sound asked
              (delay_for whole policy still 1 (some 429) (some t)))
delay_for-Obeys_example = delay_for-Obeys whole AtMost 1000 policy still ordered sound 1 (some 429)
