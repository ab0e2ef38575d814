-- ===== src/Auth/Expiry.antt =====
-- That the tokens of an authenticator are signed with its key and have not expired.
use snowflake_sql_api.Common.{
  ℕ, ◌+◌, ◌<◌, Text, Option, none, some, ltb, Bool-cases, ◌≡◌, refl, inl, inr, arith,
}
use snowflake_sql_api.Auth.{Authenticator, Claims, microseconds, claims_at, token, generate}

module _ {K : Type 0} (sign : K → Claims → Text) where
  -- The cached token was signed when its recorded expiry says.
  abbrev CacheHolds : Authenticator K → Option Text → Type 0
  CacheHolds a none = Unit
  CacheHolds a (some t) =
      (now : ℕ) × (t ≡ sign a.key (claims_at sign a now))
      × (a.cached_exp ≡ now + microseconds a.lifetime)

  abbrev pub IsHealthy : Authenticator K → Type 0
  IsHealthy a = (0 < a.lifetime) × CacheHolds a a.cached_token

  -- Signed for this user with this key, and not expired.
  abbrev pub Serves : Authenticator K → ℕ → Text → Type 0
  Serves a now t =
      (then : ℕ) × (t ≡ sign a.key (claims_at sign a then))
      × (now < microseconds (claims_at sign a then).exp)

  Serves-fresh :
      (a : Authenticator K) (now : ℕ) → 0 < a.lifetime → Serves a now (generate sign a now)
  unfolding generate
  Serves-fresh a now h = (now, refl, omega arith)

  cached-Serves :
      (a : Authenticator K) (now : ℕ) (o : Option Text)
      → a.cached_token ≡ o
      → IsHealthy a
      → 0 < a.margin
      → (Serves a now (token sign a now).0) × IsHealthy (token sign a now).1
  unfolding token generate
  cached-Serves a now none e (l, c) m = rw e (Serves-fresh a now l, (l, (now, refl, refl)))
  cached-Serves a now (some t) e (l, c) m =
      elim (Bool-cases (ltb (now + microseconds a.margin) a.cached_exp)) [
        | inl live ↦
            let (then, signed, expiry) : CacheHolds a (some t) = (rw e at c) in
            rw (e, live) ((then, signed, ground (arith, live, expiry)), (l, (then, signed, expiry)))
        | inr stale ↦ rw (e, stale) (Serves-fresh a now l, (l, (now, refl, refl)))
      ]

  -- With a positive renewal margin, the token that a healthy authenticator gives is signed with its
  -- key for its user and expires after now, and the authenticator stays healthy.
  pub token-Serves :
      (a : Authenticator K) (now : ℕ)
      → IsHealthy a
      → 0 < a.margin
      → (Serves a now (token sign a now).0) × IsHealthy (token sign a now).1
  token-Serves a now h m = cached-Serves a now a.cached_token refl h m
