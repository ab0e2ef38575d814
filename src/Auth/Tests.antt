-- ===== src/Auth/Tests.antt =====
-- A fresh authenticator at a concrete time.
use snowflake_sql_api.Common.{Text, codes, none, ok, ◌≡◌, refl, arith}
use snowflake_sql_api.Auth.{Authenticator, Claims, token, normalize_account_locator, before_dot}
use snowflake_sql_api.Auth.Expiry.{IsHealthy, Serves, token-Serves}

-- The example of the function's documentation, for a text that is in upper case already.
region_is_cut :
    normalize_account_locator (λ s. s) (codes "XY12345.ap-southeast-2.aws") ≡ ok (codes "XY12345")
unfolding normalize_account_locator before_dot
region_is_cut = refl

abbrev alice : Authenticator Text
alice = record {
  account_claim = codes "XY12345";
  user = codes "ALICE";
  key = codes "key";
  fingerprint = codes "SHA256:f";
  lifetime = 3600;
  margin = 120;
  cached_token = none;
  cached_exp = 0;
}

abbrev sign : Text → Claims → Text
sign key claims = claims.iss

token-Serves_example :
    Serves sign alice 1000000 (token sign alice 1000000).0
    × IsHealthy sign (token sign alice 1000000).1
token-Serves_example = token-Serves sign alice 1000000 (omega arith) (omega arith)
