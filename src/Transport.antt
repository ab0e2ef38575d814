-- ===== src/Transport.antt =====
-- snowflake_sql_api/transport.py: the decoding of a response and its reading as a result or an
-- error.
pub mod Send
pub mod Reading
pub mod Calls
pub mod Attempts
pub mod Replay
pub mod Clock
pub mod Async
pub mod AsyncReplay
pub mod Tests
use snowflake_sql_api.Common.{
  ℕ, Text, codes, Bool, true, false, ◌||◌, Option, none, some, List, [], ◌∷◌, ◌++◌, Result, ok, err,
  ◌≡◌, ◌≢◌, ◌↔◌, refl, arith, if◌then◌else◌, ◌==◌, take,
}
use snowflake_sql_api.Common.Decimal.{decimal}
use snowflake_sql_api.Errors.{
  Value, null, str, obj, Fields, end, field, get, get_or, or_else, Kind, auth, request, forbidden,
  programming, Exc, raised, info,
}

-- What is read of an `httpx.Response`: `parsed` is `response.json()`, missing where it raises
-- `ValueError`, and `text` is `response.text`.
pub record Response : Type 0 where
  pub status_code : ℕ
  pub parsed : Option Value
  pub text : Text
  pub retry_after : Option Text

pub record StatementResponse : Type 0 where
  pub status_code : ℕ
  pub body : Fields
  pub submission_attempts : Option ℕ
  pub submission_handle : Value

unfoldable pub is_running : StatementResponse → Bool
is_running r = r.status_code == 202

unfoldable pub statement_handle : StatementResponse → Value
statement_handle r = or_else (get (codes "statementHandle") r.body) r.submission_handle

-- A message that is no JSON string is kept as the empty text.
abbrev pub message_text : Value → Text
message_text (str s) = s
message_text _ = []

abbrev pub as_body : Option Value → Text → Fields
as_body none text = field (codes "message") (str (take 500 text)) end
as_body (some (obj fs)) text = fs
as_body (some v) text = field (codes "data") v end

-- `_json_body`
unfoldable pub json_body : Response → Fields
json_body r = as_body r.parsed r.text

-- The exception of a class with the fields of the error envelope.
abbrev pub envelope : Kind → Text → Response → Exc
envelope kind otherwise r =
    let body = json_body r in
    raised (record {
      kind = kind;
      message = message_text (get_or (codes "message") body (str otherwise));
      status_code = some r.status_code;
      code = get (codes "code") body;
      sql_state = get (codes "sqlState") body;
      statement_handle = get (codes "statementHandle") body;
      submission_attempts = none;
      request_id = none;
    })

abbrev pub http_status : ℕ → Text
http_status status = codes "HTTP " ++ decimal status

-- `_interpret`
unfoldable pub interpret : Response → Result Exc StatementResponse
interpret r =
    if r.status_code == 200 || r.status_code == 202
    then ok (record {
      status_code = r.status_code;
      body = json_body r;
      submission_attempts = none;
      submission_handle = null;
    })
    else if r.status_code == 422
    then err (envelope programming (codes "SQL execution error") r)
    else if r.status_code == 401
    then err (envelope auth (codes "authentication failed") r)
    else if r.status_code == 403
    then err (envelope forbidden (codes "request forbidden") r)
    else err (envelope request (http_status r.status_code) r)

-- `_retry_error`
unfoldable pub retry_error : Response → Exc
retry_error r = envelope request (http_status r.status_code) r
