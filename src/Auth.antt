-- ===== src/Auth.antt =====
-- snowflake_sql_api/auth.py: the account names, and the cache of signed tokens. Time is counted in
-- microseconds; the loading of the key, its fingerprint and the signing are parameters.
pub mod Expiry
pub mod Tests
use snowflake_sql_api.Common.{
  ℕ, zero, suc, ◌+◌, ◌*◌, ◌/◌, Text, codes, Bool, true, false, ◌||◌, Option, none, some, List, [],
  ◌∷◌, ◌++◌, map, Result, ok, err, ◌>>=◌, if◌then◌else◌, ltb, leb, ◌==◌,
}
use snowflake_sql_api.Common.Int.{ℤ, pos, negsuc}
use snowflake_sql_api.Errors.{Exc, config_error}

-- `account.split(".", 1)[0]`
unfoldable pub before_dot : Text → Text
before_dot [] = []
before_dot (c ∷ s) = if c == 46 then [] else c ∷ before_dot s

-- `s.replace("_", "-")`
unfoldable pub dashes : Text → Text
dashes s = map (λ c. if c == 95 then 45 else c) s

-- `upper` and `lower` are those of `str`.
module _ (upper : Text → Text) where
  unfoldable pub normalize_account_locator : Text → Result Exc Text
  unfolding before_dot
  normalize_account_locator [] = err (config_error (codes "account is required"))
  normalize_account_locator (c ∷ s) = ok (upper (before_dot (c ∷ s)))

module _ (lower : Text → Text) where
  unfoldable pub account_hostname : Text → Result Exc Text
  unfolding dashes
  account_hostname [] = err (config_error (codes "account is required"))
  account_hostname (c ∷ s) = ok (dashes (lower (c ∷ s)) ++ codes ".snowflakecomputing.com")

-- The claims that are signed; `iat` and `exp` are whole seconds.
pub record Claims : Type 0 where
  pub iss : Text
  pub sub : Text
  pub iat : ℕ
  pub exp : ℕ

abbrev pub microseconds : ℕ → ℕ
microseconds n = n * 1000000

-- `K` is what a private key is.
pub record Authenticator (K : Type 0) : Type 0 where
  pub account_claim : Text
  pub user : Text
  pub key : K
  pub fingerprint : Text
  pub lifetime : ℕ
  pub margin : ℕ
  pub cached_token : Option Text
  pub cached_exp : ℕ

module _ {K : Type 0} where
  module _ (upper : Text → Text) (load : Result Exc K) (fingerprint : K → Text) where
    abbrev fresh : Text → Text → K → ℕ → ℕ → Authenticator K
    fresh claim user key lifetime margin = record {
      account_claim = claim;
      user = upper user;
      key = key;
      fingerprint = fingerprint key;
      lifetime = lifetime;
      margin = margin;
      cached_token = none;
      cached_exp = 0;
    }

    abbrev is_empty : Text → Bool
    is_empty [] = true
    is_empty (c ∷ s) = false

    -- `lifetime_seconds <= 0 or lifetime_seconds > 3600`, and the test of the margin
    unfoldable pub lifetime_of : ℤ → Result Exc ℕ
    lifetime_of (pos (suc n)) =
        if ltb 3600 (suc n)
        then err (config_error (codes "lifetime_seconds must be in (0, 3600]"))
        else ok (suc n)
    lifetime_of _ = err (config_error (codes "lifetime_seconds must be in (0, 3600]"))

    unfoldable pub margin_of : ℤ → Result Exc ℕ
    margin_of (pos n) = ok n
    margin_of (negsuc n) = err (config_error (codes "renewal_margin_seconds must be >= 0"))

    -- `__init__`
    unfoldable pub make_authenticator : Text → Text → ℤ → ℤ → Result Exc (Authenticator K)
    unfolding lifetime_of margin_of normalize_account_locator
    make_authenticator account user lifetime_seconds renewal_margin_seconds =
        if is_empty user then err (config_error (codes "user is required")) else do
          lifetime ← lifetime_of lifetime_seconds
          margin ← margin_of renewal_margin_seconds
          claim ← normalize_account_locator upper account
          key ← load
          ok (fresh claim user key lifetime margin)

  abbrev pub qualified_username : Authenticator K → Text
  qualified_username a = a.account_claim ++ (codes "." ++ a.user)

  abbrev pub issuer : Authenticator K → Text
  issuer a = qualified_username a ++ (codes "." ++ a.fingerprint)

  -- `sign` is `jwt.encode` with the RS256 algorithm.
  module _ (sign : K → Claims → Text) where
    abbrev pub claims_at : Authenticator K → ℕ → Claims
    claims_at a now = record {
      iss = issuer a;
      sub = qualified_username a;
      iat = now / 1000000;
      exp = now / 1000000 + a.lifetime;
    }

    -- `_generate`
    unfoldable pub generate : Authenticator K → ℕ → Text
    generate a now = sign a.key (claims_at a now)

    abbrev renewed : Authenticator K → ℕ → Text × Authenticator K
    renewed a now = (
      generate a now,
      record a { cached_token = some (generate a now); cached_exp = now + microseconds a.lifetime },
    )

    abbrev cached : Option Text → Authenticator K → ℕ → Text × Authenticator K
    cached none a now = renewed a now
    cached (some token) a now =
        if ltb (now + microseconds a.margin) a.cached_exp then (token, a) else renewed a now

    -- `token`
    unfoldable pub token : Authenticator K → ℕ → Text × Authenticator K
    unfolding generate
    token a now = cached a.cached_token a now
