-- ===== src/AsyncClient/Handles.antt =====
-- `AsyncQueryHandle` and `_submit_handle` of aclient.py.
use snowflake_sql_api.Common.{Text, Bool, true, false, ℕ, Option, none, some, List, Result, ok, err}
use snowflake_sql_api.Errors.{Value, Exc}
use snowflake_sql_api.Bindings.{PyValue}
use snowflake_sql_api.Transport.Send.{Environment}
use snowflake_sql_api.Transport.Async.{async_get_statement, async_cancel}
use snowflake_sql_api.Types.{Reading}
use snowflake_sql_api.Types.Columns.{Row}
use snowflake_sql_api.Client.Batching.{Session}
use snowflake_sql_api.Client.Payload.{Context, build_payload}
use snowflake_sql_api.Client.Run.{RequestId, QueryHandle, handle_of, submission_id, status_of}
use snowflake_sql_api.Client.Results.{Ran, and_then, rows_of, unit_of, world_of}
use snowflake_sql_api.AsyncClient.{Tasks}
use snowflake_sql_api.AsyncClient.Queries.{send_payload, async_collect}

module _ (env : Environment) (session : Session env) (tasks : Tasks env) (context : Context)
    (canonical : Text → Option Text) (py : Reading) (listed : List Value → Text) where
  -- `AsyncQueryHandle.result`
  unfoldable pub async_result :
      ℕ
      → QueryHandle env session context canonical
      → Bool
      → Option ℕ
      → env.World
      → Ran env session context canonical py listed (List Row)
  unfolding async_get_statement async_collect
  async_result fuel h poll_it limit w =
      and_then env session context canonical py listed
        (rows_of env session context canonical py listed)
        (async_collect env session tasks context canonical py listed fuel limit false poll_it (
          world_of env session context canonical py listed
            (async_get_statement env (session.waiting.handle_text h.handle) none w)))

  -- `AsyncQueryHandle.status`
  unfoldable pub async_status : Text → env.World → Result Exc Text × env.World
  unfolding async_get_statement
  async_status handle w =
      status_of env session context canonical (async_get_statement env handle none w)

  -- `AsyncQueryHandle.cancel`
  unfoldable pub async_cancel_query :
      QueryHandle env session context canonical → env.World → Result Exc (Unit {0}) × env.World
  unfolding async_cancel
  async_cancel_query h w =
      unit_of env session context canonical py listed
        (async_cancel env (session.waiting.handle_text h.handle) w)

  abbrev Submitted : Type 0
  Submitted = Result Exc (QueryHandle env session context canonical) × env.World

  abbrev submit_notified : Text → Text → List PyValue → Bool → Option Exc × env.World → Submitted
  submit_notified id sql params retry (some e, w) = (err e, w)
  submit_notified id sql params retry (none, w) = handle_of env session context canonical id (
      send_payload env session tasks context canonical py listed id true retry
        (build_payload context sql params) w)

  abbrev submit_identified : Text → List PyValue → Bool → Result Exc Text × env.World → Submitted
  submit_identified sql params retry (err e, w) = (err e, w)
  submit_identified sql params retry (ok id, w) =
      submit_notified id sql params retry (session.notify sql params w)

  -- `_submit_handle`
  unfoldable pub async_submit_handle :
      Text → List PyValue → RequestId → Bool → env.World → Submitted
  unfolding submission_id build_payload
  async_submit_handle sql params request_id retry w =
      submit_identified sql params retry
        (submission_id env session context canonical request_id retry w)
