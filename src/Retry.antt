-- ===== src/Retry.antt =====
-- snowflake_sql_api/retry.py: the delay before a retry. The numbers are Python's floats, by the
-- operations that the policy uses; the random number, the clock and the parsing of a date are of
-- the standard library, and so parameters.
pub mod Limits
pub mod Tests
use snowflake_sql_api.Common.{
  ℕ, Text, codes, Bool, true, false, ◌||◌, ◌&&◌, Option, none, some, List, [], ◌∷◌, if◌then◌else◌,
  leb, ◌==◌, ◌≡◌, ◌⊎◌, inl, inr, Bool-cases,
}

pub record Floats : Type 1 where
  pub F : Type 0
  pub nought : F
  pub times : F → F → F
  pub power : F → ℕ → F
  -- `min(a, b)` and `max(a, b)`
  pub lesser : F → F → F
  pub greater : F → F → F
  -- `float(text)` of a text of digits
  pub of_digits : Text → F

module _ (floats : Floats) where
  open floats use {F, nought, times, power, lesser, greater, of_digits}

  pub record RetryPolicy : Type 0 where
    pub max_attempts : ℕ
    pub base_backoff : F
    pub max_backoff : F
    pub multiplier : F
    pub jitter : Bool
    pub retry_statuses : List ℕ
    pub rate_limit_backoff_multiplier : F
    pub max_retry_after : F

  -- `random.uniform(0.0, x)`, and the seconds from now to an HTTP date, missing where the text is
  -- no date or the parsing or the difference raises.
  pub record Surroundings : Type 0 where
    pub uniform : F → F
    pub seconds_until : Text → Option F

  -- `attempt < 0` is ruled out by the type.
  unfoldable pub ceiling_for : RetryPolicy → ℕ → F
  ceiling_for p attempt = lesser (times p.base_backoff (power p.multiplier attempt)) p.max_backoff

  abbrev pub jittered : RetryPolicy → Surroundings → F → F
  jittered p s ceiling = if p.jitter then s.uniform ceiling else ceiling

  unfoldable pub backoff_for : RetryPolicy → Surroundings → ℕ → F
  unfolding ceiling_for
  backoff_for p s attempt = jittered p s (ceiling_for p attempt)

  abbrev blank : ℕ → Bool
  blank c = (c == 32) || (c == 9)

  -- `value.strip(" \t")`: what is left behind the last character that is not blank is dropped.
  unfoldable pub strip_end : Text → Text
  strip_end [] = []
  strip_end (c ∷ s) = keep c (strip_end s)
    where
      keep : ℕ → Text → Text
      keep c [] = if blank c then [] else c ∷ []
      keep c (d ∷ s) = c ∷ d ∷ s

  unfoldable pub strip : Text → Text
  unfolding strip_end
  strip [] = []
  strip (c ∷ s) = let rest = strip s in if blank c then rest else strip_end (c ∷ s)

  -- `re.fullmatch(r"[0-9]+", value)`
  abbrev are_digits : Text → Bool
  are_digits [] = true
  are_digits (c ∷ s) = (leb 48 c && leb c 57) && are_digits s

  unfoldable pub is_number : Text → Bool
  is_number [] = false
  is_number (c ∷ s) = are_digits (c ∷ s)

  abbrev pub is_429 : Option ℕ → Bool
  is_429 none = false
  is_429 (some n) = n == 429

  -- The schedule, without a usable header.
  unfoldable pub scheduled : RetryPolicy → Surroundings → ℕ → Option ℕ → F
  unfolding backoff_for
  scheduled p s attempt status =
      if is_429 status
      then jittered p s (
          lesser
            (times (times p.base_backoff p.rate_limit_backoff_multiplier)
              (power p.multiplier attempt))
            p.max_backoff)
      else backoff_for p s attempt

  abbrev pub dated : RetryPolicy → F → Option F → F
  dated p otherwise none = otherwise
  dated p otherwise (some delay) = lesser (greater nought delay) p.max_retry_after

  abbrev pub headed : RetryPolicy → Surroundings → F → Option Text → F
  headed p s otherwise none = otherwise
  headed p s otherwise (some header) =
      if is_number (strip header)
      then lesser (of_digits (strip header)) p.max_retry_after
      else dated p otherwise (s.seconds_until (strip header))

  -- `delay_for`
  unfoldable pub delay_for : RetryPolicy → Surroundings → ℕ → Option ℕ → Option Text → F
  unfolding scheduled strip is_number
  delay_for p s attempt status retry_after = headed p s (scheduled p s attempt status) retry_after

  abbrev elem : ℕ → List ℕ → Bool
  elem n [] = false
  elem n (m ∷ ms) = (n == m) || elem n ms

  -- `should_retry_status`
  unfoldable pub should_retry_status : RetryPolicy → ℕ → Bool
  should_retry_status p status = elem status p.retry_statuses
