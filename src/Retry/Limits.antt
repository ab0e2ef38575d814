-- ===== src/Retry/Limits.antt =====
-- The limits of the delay before a retry. The order of the floats is Python's `<=`, by which
-- nothing is above or below a NaN, and `largest` is the greatest finite one.
use snowflake_sql_api.Common.{
  ℕ, Text, true, false, Option, none, some, Bool-cases, ◌≡◌, ◌⊎◌, inl, inr, refl,
}
use snowflake_sql_api.Retry.{
  Floats, RetryPolicy, Surroundings, jittered, is_429, ceiling_for, backoff_for, scheduled, strip,
  is_number, dated, headed, delay_for,
}

module _ (floats : Floats) (below : floats.F → floats.F → Type 0) (largest : floats.F) where
  open floats use {F, nought, times, power, lesser, greater, of_digits}

  -- What the operations do on numbers that are not negative: `min` is one of its arguments and at
  -- most both, `max(0.0, x)` is not negative, nor is a text of digits, and a uniform number is
  -- between zero and its bound, if that is finite.
  pub record IsOrder (s : Surroundings floats) : Type 0 where
    pub lesser_first : {a b : F} → below nought a → below nought b → below (lesser a b) a
    pub lesser_second : {a b : F} → below nought a → below nought b → below (lesser a b) b
    pub lesser_either : (a b : F) → (lesser a b ≡ a) ⊎ (lesser a b ≡ b)
    pub greater_nonneg : (a : F) → below nought (greater nought a)
    pub digits_nonneg : (t : Text) → below nought (of_digits t)
    pub uniform_nonneg : {a : F} → below nought a → below a largest → below nought (s.uniform a)
    pub uniform_below : {a : F} → below nought a → below a largest → below (s.uniform a) a
    pub below_trans : {a b c : F} → below a b → below b c → below a c

  -- A policy with limits and schedules that are not negative, and a finite `max_backoff`.
  pub record IsPolicy (p : RetryPolicy floats) : Type 0 where
    pub max_backoff_nonneg : below nought p.max_backoff
    pub max_backoff_finite : below p.max_backoff largest
    pub max_retry_after_nonneg : below nought p.max_retry_after
    pub schedule_nonneg : (n : ℕ) → below nought (times p.base_backoff (power p.multiplier n))
    pub limited_nonneg :
        (n : ℕ)
        → below nought
            (times (times p.base_backoff p.rate_limit_backoff_multiplier) (power p.multiplier n))

  abbrev pub IsBetween : F → F → Type 0
  IsBetween d limit = below nought d × below d limit

  -- What a header asks for: the seconds of its digits, the time to its date, or nothing.
  pub data Asks (s : Surroundings floats) : Text → Option F → Type 0 where
    seconds :
        {t : Text}
        → is_number floats (strip floats t) ≡ true
        → Asks s t (some (of_digits (strip floats t)))
    date :
        {t : Text} {d : F}
        → is_number floats (strip floats t) ≡ false
        → s.seconds_until (strip floats t) ≡ some d
        → Asks s t (some (greater nought d))
    unreadable :
        {t : Text}
        → is_number floats (strip floats t) ≡ false
        → s.seconds_until (strip floats t) ≡ none
        → Asks s t none

  module _ (p : RetryPolicy floats) (s : Surroundings floats) (order : IsOrder s)
      (sound : IsPolicy p) where
    -- The delay is that of the header, up to `max_retry_after`, or lies within the schedule.
    abbrev pub Obeys : Option F → F → Type 0
    Obeys none d = IsBetween d p.max_backoff
    Obeys (some asked) d =
        IsBetween d p.max_retry_after × below d asked × ((d ≡ asked) ⊎ (d ≡ p.max_retry_after))

    lesser_nonneg : {a b : F} → below nought a → below nought b → below nought (lesser a b)
    lesser_nonneg {a} {b} ha hb = elim (order.lesser_either a b) [
      | inl first ↦ rw first ha
      | inr second ↦ rw second hb
    ]

    jittered-IsBetween :
        (a : F)
        → below nought a
        → IsBetween (jittered floats p s (lesser a p.max_backoff)) p.max_backoff
    jittered-IsBetween a h =
        let least = lesser_nonneg h sound.max_backoff_nonneg in
        let most = order.lesser_second h sound.max_backoff_nonneg in
        let finite = order.below_trans most sound.max_backoff_finite in
        elim (Bool-cases p.jitter) [
          | inl on ↦ rw on (
            order.uniform_nonneg least finite,
            order.below_trans (order.uniform_below least finite) most,
          )
          | inr off ↦ rw off (least, most)
        ]

    scheduled-IsBetween :
        (attempt : ℕ) (status : Option ℕ)
        → IsBetween (scheduled floats p s attempt status) p.max_backoff
    unfolding scheduled backoff_for ceiling_for
    scheduled-IsBetween attempt status = elim (Bool-cases (is_429 floats status)) [
      | inl limited ↦ rw limited (jittered-IsBetween _ (sound.limited_nonneg attempt))
      | inr other ↦ rw other (jittered-IsBetween _ (sound.schedule_nonneg attempt))
    ]

    lesser-Obeys : (a : F) → below nought a → Obeys (some a) (lesser a p.max_retry_after)
    lesser-Obeys a h = (
      (
        lesser_nonneg h sound.max_retry_after_nonneg,
        order.lesser_second h sound.max_retry_after_nonneg,
      ),
      order.lesser_first h sound.max_retry_after_nonneg,
      order.lesser_either a p.max_retry_after,
    )

    dated-Obeys :
        (otherwise : F) (t : Text) (until : Option F)
        → IsBetween otherwise p.max_backoff
        → is_number floats (strip floats t) ≡ false
        → s.seconds_until (strip floats t) ≡ until
        → (asked : Option F) × Asks s t asked × Obeys asked (dated floats p otherwise until)
    dated-Obeys otherwise t none h other found = (none, unreadable other found, h)
    dated-Obeys otherwise t (some d) h other found = (
      some (greater nought d),
      date other found,
      lesser-Obeys (greater nought d) (order.greater_nonneg d),
    )

    headed-Obeys :
        (otherwise : F) (t : Text)
        → IsBetween otherwise p.max_backoff
        → (asked : Option F) × Asks s t asked × Obeys asked (headed floats p s otherwise (some t))
    headed-Obeys otherwise t h = elim (Bool-cases (is_number floats (strip floats t))) [
      | inl number ↦ rw number (
        some (of_digits (strip floats t)),
        seconds number,
        lesser-Obeys (of_digits (strip floats t)) (order.digits_nonneg (strip floats t)),
      )
      | inr other ↦
          rw other (dated-Obeys otherwise t (s.seconds_until (strip floats t)) h other refl)
    ]

    -- For operations that do what is said above and such a policy: the delay before a retry is
    -- between zero and `max_backoff` without a `Retry-After` header and behind one that is neither
    -- digits nor a date. Behind digits it is their seconds, and behind a date the time left to it,
    -- or zero, both up to `max_retry_after`, whatever the schedule is.
    pub delay_for-Obeys :
        (attempt : ℕ) (status : Option ℕ)
        → IsBetween (delay_for floats p s attempt status none) p.max_backoff
          × ((t : Text)
              → (asked : Option F) × Asks s t asked
                × Obeys asked (delay_for floats p s attempt status (some t)))
    unfolding delay_for
    delay_for-Obeys attempt status = (
      scheduled-IsBetween attempt status,
      λ t.
          headed-Obeys (scheduled floats p s attempt status) t (scheduled-IsBetween attempt status),
    )
