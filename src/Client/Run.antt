-- ===== src/Client/Run.antt =====
-- `_submission_id`, `_run`, `execute`, `_columns_from`, `_prepare_result`, `_collect`,
-- `_submit_handle` and `QueryHandle` of client.py.
pub mod Identity
use snowflake_sql_api.Common.{
  ℕ, Text, codes, Bool, true, false, not, Option, none, some, List, [], ◌∷◌, ◌++◌, Result, ok, err,
  ◌>>=◌, if◌then◌else◌,
}
use snowflake_sql_api.Common.Int.{ℤ, pos}
use snowflake_sql_api.Errors.{
  Value, null, str, is_none, Exc, raised, plain, not_ready, info, with_info, is_snowflake, Fields,
  Info, config_error, request_error,
}
use snowflake_sql_api.Bindings.{PyValue}
use snowflake_sql_api.Transport.{StatementResponse, is_running, statement_handle}
use snowflake_sql_api.Transport.Send.{Environment, Sending}
use snowflake_sql_api.Transport.Calls.{submit, get_statement, cancel}
use snowflake_sql_api.Client.Affected.{rows_affected}
use snowflake_sql_api.Client.Poll.{Waiting, Polled, poll}
use snowflake_sql_api.Client.Batching.{Session}
use snowflake_sql_api.Client.Insert.{insert_statement}
use snowflake_sql_api.Client.Payload.{Context, build_payload}

-- The `request_id` argument.
pub data RequestId : Type 0 where
  no_id : RequestId
  uuid_object : Text → RequestId
  id_text : Text → RequestId
  other_id : RequestId

module _ (env : Environment) (session : Session env) (context : Context)
    (canonical : Text → Option Text) where
  -- `str(uuid.UUID(text))` is `canonical`, which is missing where this raises ValueError.
  abbrev of_text : Option Text → Result Exc Text
  of_text none = err (config_error (codes "request_id must be a valid UUID"))
  of_text (some id) = ok id

  -- `_submission_id`
  unfoldable pub submission_id : RequestId → Bool → env.World → Result Exc Text × env.World
  submission_id no_id false w = let (id, w') = session.fresh_id w in (ok id, w')
  submission_id no_id true w =
      (err (config_error (codes "request_id must be a UUID string or UUID object")), w)
  submission_id other_id retry w =
      (err (config_error (codes "request_id must be a UUID string or UUID object")), w)
  submission_id (uuid_object id) retry w = (ok id, w)
  submission_id (id_text s) retry w = (of_text (canonical s), w)

  abbrev pub Answered : Type 0
  Answered = Result Exc StatementResponse × env.World

  abbrev pub world_of : Result Exc StatementResponse × Sending env → Answered
  world_of (r, s) = (r, s.world)

  abbrev pub send_payload : Text → Bool → Bool → Result Exc Fields → env.World → Answered
  send_payload id async_exec retry (err e) w = (err e, w)
  send_payload id async_exec retry (ok payload) w =
      world_of (submit env payload id async_exec retry none w)

  abbrev pub run_notified : Text → List PyValue → Bool → Option Exc × env.World → Answered
  run_notified sql params async_exec (some e, w) = (err e, w)
  run_notified sql params async_exec (none, w) =
      let (id, w1) = session.fresh_id w in
      send_payload id async_exec false (build_payload context sql params) w1

  -- `_run`
  unfoldable pub run : Text → List PyValue → Bool → env.World → Answered
  unfolding build_payload submit
  run sql params async_exec w = run_notified sql params async_exec (session.notify sql params w)

  -- A handle that a running or a completed statement must have.
  abbrev pub no_handle : Text → Exc
  no_handle state = request_error (state ++ codes " statement has no handle")

  abbrev pub finished : ℕ → Option ℕ → Bool → Bool → Answered → Option Answered
  finished fuel limit cancel_on_timeout poll_it (err e, w) = some (err e, w)
  finished fuel limit cancel_on_timeout poll_it (ok r, w) =
      if not (is_running r)
      then some (ok r, w)
      else if not poll_it
      then some (
        err (
            raised (record (plain not_ready (codes "Statement is still running")) {
              statement_handle = statement_handle r;
            })),
        w,
      )
      else if is_none (statement_handle r)
      then some (err (no_handle (codes "running")), w)
      else poll env session.waiting fuel (statement_handle r) limit cancel_on_timeout w

  abbrev pub count_rows : Option Answered → Option (Result Exc ℤ × env.World)
  count_rows none = none
  count_rows (some (err e, w)) = some (err e, w)
  count_rows (some (ok r, w)) = some (rows_affected session.parse_int r.body false, w)

  -- `execute`
  unfoldable pub execute : ℕ → Text → List PyValue → env.World → Option (Result Exc ℤ × env.World)
  unfolding run rows_affected poll statement_handle is_running
  execute fuel sql params w =
      count_rows (finished fuel session.limit true true (run sql params false w))

  abbrev execute_statement :
      ℕ → env.World → Result Exc (Option (Text × List PyValue)) → Option (Result Exc ℤ × env.World)
  execute_statement fuel w (err e) = some (err e, w)
  execute_statement fuel w (ok none) = some (ok (pos 0), w)
  execute_statement fuel w (ok (some (sql, flat))) = execute fuel sql flat w

  -- `insert_many`
  unfoldable pub insert_many :
      ℕ → Text → List Text → List (List PyValue) → env.World → Option (Result Exc ℤ × env.World)
  unfolding insert_statement execute
  insert_many fuel table columns rows w =
      execute_statement fuel w (insert_statement table columns rows)

  -- `QueryHandle.status`
  abbrev pub status_of : Result Exc StatementResponse × Sending env → Result Exc Text × env.World
  status_of (err e, s) = (err e, s.world)
  status_of (ok r, s) = (ok (if is_running r then codes "RUNNING" else codes "SUCCESS"), s.world)

  unfoldable pub status : Text → env.World → Result Exc Text × env.World
  unfolding get_statement is_running
  status handle w = status_of (get_statement env handle none w)

  -- A `QueryHandle`, by what it holds.
  pub record QueryHandle : Type 0 where
    pub handle : Value
    pub request_id : Text

  -- `exc.request_id = canonical_id`, of a `SnowflakeError`
  abbrev pub marked : Text → Exc → Exc
  marked id e =
      if is_snowflake (info e).kind
      then with_info e (record (info e) { request_id = some id })
      else e

  abbrev pub handle_of : Text → Answered → Result Exc QueryHandle × env.World
  handle_of id (err e, w) = (err (marked id e), w)
  handle_of id (ok r, w) =
      if is_none (statement_handle r)
      then (err (marked id (request_error (codes "async submit returned no statement handle"))), w)
      else (ok (record { handle = statement_handle r; request_id = id }), w)

  abbrev pub submit_notified :
      Text
      → Text
      → List PyValue
      → Bool
      → Option Exc × env.World
      → Result Exc QueryHandle × env.World
  submit_notified id sql params retry (some e, w) = (err e, w)
  submit_notified id sql params retry (none, w) =
      handle_of id (send_payload id true retry (build_payload context sql params) w)

  abbrev pub submit_identified :
      Text → List PyValue → Bool → Result Exc Text × env.World → Result Exc QueryHandle × env.World
  submit_identified sql params retry (err e, w) = (err e, w)
  submit_identified sql params retry (ok id, w) =
      submit_notified id sql params retry (session.notify sql params w)

  -- `_submit_handle`
  unfoldable pub submit_handle :
      Text → List PyValue → RequestId → Bool → env.World → Result Exc QueryHandle × env.World
  unfolding submission_id build_payload submit statement_handle
  submit_handle sql params request_id retry w =
      submit_identified sql params retry (submission_id request_id retry w)
