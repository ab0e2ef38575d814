-- ===== src/Errors.antt =====
-- snowflake_sql_api/exceptions.py: the exception classes and what they carry, and the JSON
-- values that the SQL API's bodies hold.
mod Json
unfoldable pub use Json.*
use snowflake_sql_api.Common.{ℕ, Text, Option, none, Bool, true, false, ◌||◌}

-- The classes, with `foreign` for an exception of another library.
pub data Kind : Type 0 where
  config auth request forbidden programming timeout retry not_ready foreign : Kind

-- The attributes that the library sets or reads; an attribute that is missing or None is `null`
-- or `none`.
pub record Info : Type 0 where
  pub kind : Kind
  pub message : Text
  pub status_code : Option ℕ
  pub code : Value
  pub sql_state : Value
  pub statement_handle : Value
  pub submission_attempts : Option ℕ
  pub request_id : Option Text

-- An exception with its `__cause__`, or with the failure of the cancel request that a timeout made.
pub data Exc : Type 0 where
  raised : Info → Exc
  raised_from : Info → Exc → Exc
  cancel_failed : Info → Exc → Exc

abbrev pub info : Exc → Info
info (raised i) = i
info (raised_from i e) = i
info (cancel_failed i e) = i

-- The same exception object with other attributes.
abbrev pub with_info : Exc → Info → Exc
with_info (raised i) j = raised j
with_info (raised_from i e) j = raised_from j e
with_info (cancel_failed i e) j = cancel_failed j e

-- `getattr(exc.__cause__, "statement_handle", None)`
abbrev pub cause_handle : Exc → Value
cause_handle (raised i) = null
cause_handle (raised_from i e) = (info e).statement_handle
cause_handle (cancel_failed i e) = null

-- An exception with no more than its class and message.
abbrev pub plain : Kind → Text → Info
plain k m = record {
  kind = k;
  message = m;
  status_code = none;
  code = null;
  sql_state = null;
  statement_handle = null;
  submission_attempts = none;
  request_id = none;
}

abbrev pub config_error : Text → Exc
config_error m = raised (plain config m)

abbrev pub request_error : Text → Exc
request_error m = raised (plain request m)

-- `isinstance(e, SnowflakeRequestError)`
abbrev pub is_request : Kind → Bool
is_request request = true
is_request forbidden = true
is_request programming = true
is_request _ = false

abbrev pub is_programming : Kind → Bool
is_programming programming = true
is_programming _ = false

abbrev pub is_auth : Kind → Bool
is_auth auth = true
is_auth _ = false

-- `isinstance(e, SnowflakeError)`
abbrev pub is_snowflake : Kind → Bool
is_snowflake foreign = false
is_snowflake _ = true
