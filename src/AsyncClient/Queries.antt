-- ===== src/AsyncClient/Queries.antt =====
-- `_run`, `_prepare_result`, `_collect`, the query methods and `execute` of aclient.py, and
-- `fetch_all_partitions_async` of pagination.py; what awaits nothing is that of the synchronous
-- client.
pub mod Agreement
use snowflake_sql_api.Common.{
  ℕ, zero, suc, ◌-◌, Text, codes, Bool, true, false, not, Option, none, some, List, ◌++◌, map,
  Result, ok, err, ◌>>=◌, if◌then◌else◌,
}
use snowflake_sql_api.Common.Int.{ℤ, pos}
use snowflake_sql_api.Errors.{Value, is_none, Fields, Exc, raised, plain, not_ready}
use snowflake_sql_api.Bindings.{PyValue}
use snowflake_sql_api.Transport.{StatementResponse, is_running, statement_handle}
use snowflake_sql_api.Transport.Send.{Environment, Sending}
use snowflake_sql_api.Transport.Async.{async_submit, async_get_statement}
use snowflake_sql_api.Types.{Reading, ColumnMeta}
use snowflake_sql_api.Types.Columns.{Row}
use snowflake_sql_api.Pagination.{Fetched, fetched, fetch_from, body_rows, partition_count}
use snowflake_sql_api.Client.Batching.{Session}
use snowflake_sql_api.Client.Insert.{insert_statement}
use snowflake_sql_api.Client.Payload.{Context, build_payload}
use snowflake_sql_api.Client.Run.{Answered, world_of, no_handle, count_rows}
use snowflake_sql_api.Client.Results.{
  Ran, and_then, and_run, Prepared, read_result, Collected, with_columns, rows_of, first_row,
  first_value, scalar,
}
use snowflake_sql_api.AsyncClient.{Tasks, async_poll}

module _ (env : Environment) (handle : Text) where
  unfoldable pub async_fetch_rest : ℕ → ℕ → env.World → List Value → Fetched env handle
  unfolding async_get_statement body_rows
  async_fetch_rest zero index w rows = (ok rows, w)
  async_fetch_rest (suc left) index w rows =
      fetched env handle (async_fetch_rest left (suc index)) rows
        (async_get_statement env handle (some index) w)

  abbrev pub async_fetch_from : Result Exc (List Value × ℕ) → env.World → Fetched env handle
  async_fetch_from (err e) w = (err e, w)
  async_fetch_from (ok (rows, count)) w = async_fetch_rest (count - 1) 1 w rows

  -- `fetch_all_partitions_async`
  unfoldable pub async_fetch_all_partitions : Fields → env.World → Fetched env handle
  unfolding async_fetch_rest partition_count body_rows
  async_fetch_all_partitions first_body w =
      async_fetch_from
        (do rows ← body_rows first_body; count ← partition_count first_body; ok (rows, count)) w

module _ (env : Environment) (session : Session env) (tasks : Tasks env) (context : Context)
    (canonical : Text → Option Text) (py : Reading) (listed : List Value → Text) where
  abbrev pub send_payload :
      Text → Bool → Bool → Result Exc Fields → env.World → Answered env session context canonical
  send_payload id async_exec retry (err e) w = (err e, w)
  send_payload id async_exec retry (ok payload) w =
      world_of env session context canonical (async_submit env payload id async_exec retry none w)

  abbrev pub run_notified :
      Text → List PyValue → Bool → Option Exc × env.World → Answered env session context canonical
  run_notified sql params async_exec (some e, w) = (err e, w)
  run_notified sql params async_exec (none, w) =
      let (id, w1) = session.fresh_id w in
      send_payload id async_exec false (build_payload context sql params) w1

  -- `_run`
  unfoldable pub async_run :
      Text → List PyValue → Bool → env.World → Answered env session context canonical
  unfolding build_payload async_submit
  async_run sql params async_exec w =
      run_notified sql params async_exec (session.notify sql params w)

  -- The response, polled for where it is running.
  unfoldable pub async_finished :
      ℕ
      → Option ℕ
      → Bool
      → Bool
      → Answered env session context canonical
      → Option (Answered env session context canonical)
  unfolding is_running statement_handle async_poll
  async_finished fuel limit cancel_on_timeout poll_it (err e, w) = some (err e, w)
  async_finished fuel limit cancel_on_timeout poll_it (ok r, w) =
      if not (is_running r)
      then some (ok r, w)
      else if not poll_it
      then some (
        err (
            raised (record (plain not_ready (codes "Statement is still running")) {
              statement_handle = statement_handle r;
            })),
        w,
      )
      else if is_none (statement_handle r)
      then some (err (no_handle env session context canonical (codes "running")), w)
      else async_poll env session.waiting tasks fuel (statement_handle r) limit cancel_on_timeout w

  -- `_prepare_result`
  unfoldable pub async_prepare_result :
      ℕ
      → Option ℕ
      → Bool
      → Bool
      → Answered env session context canonical
      → Ran env session context canonical py listed
          (Prepared env session context canonical py listed)
  unfolding read_result async_finished
  async_prepare_result fuel limit cancel_on_timeout poll_it answer =
      and_then env session context canonical py listed
        (read_result env session context canonical py listed)
        (async_finished fuel limit cancel_on_timeout poll_it answer)

  abbrev pub async_gather :
      Prepared env session context canonical py listed
      → env.World
      → Result Exc (Collected env session context canonical py listed) × env.World
  async_gather p w =
      with_columns env session context canonical py listed p.columns
        (async_fetch_all_partitions env (session.waiting.handle_text p.handle) p.body w)

  -- `_collect`
  unfoldable pub async_collect :
      ℕ
      → Option ℕ
      → Bool
      → Bool
      → Answered env session context canonical
      → Ran env session context canonical py listed
          (Collected env session context canonical py listed)
  unfolding async_prepare_result async_fetch_all_partitions
  async_collect fuel limit cancel_on_timeout poll_it answer =
      and_run env session context canonical py listed async_gather
        (async_prepare_result fuel limit cancel_on_timeout poll_it answer)

  unfoldable pub async_query :
      ℕ → Text → List PyValue → env.World → Ran env session context canonical py listed (List Row)
  unfolding async_run async_collect
  async_query fuel sql params w =
      and_then env session context canonical py listed
        (rows_of env session context canonical py listed)
        (async_collect fuel session.limit true true (async_run sql params false w))

  unfoldable pub async_query_one :
      ℕ → Text → List PyValue → env.World → Ran env session context canonical py listed (Option Row)
  unfolding async_query
  async_query_one fuel sql params w =
      and_then env session context canonical py listed (λ rows. ok (first_row rows))
        (async_query fuel sql params w)

  unfoldable pub async_query_scalar :
      ℕ → Text → List PyValue → env.World → Ran env session context canonical py listed PyValue
  unfolding async_query_one
  async_query_scalar fuel sql params w =
      and_then env session context canonical py listed (λ row. ok (scalar row))
        (async_query_one fuel sql params w)

  unfoldable pub async_query_column :
      ℕ
      → Text
      → List PyValue
      → env.World
      → Ran env session context canonical py listed (List PyValue)
  unfolding async_query
  async_query_column fuel sql params w =
      and_then env session context canonical py listed (λ rows. ok (map first_value rows))
        (async_query fuel sql params w)

  -- `execute`
  unfoldable pub async_execute :
      ℕ → Text → List PyValue → env.World → Ran env session context canonical py listed ℤ
  unfolding async_run async_finished
  async_execute fuel sql params w =
      count_rows env session context canonical
        (async_finished fuel session.limit true true (async_run sql params false w))

  abbrev Counted : Type 0
  Counted = Ran env session context canonical py listed ℤ

  abbrev execute_statement : ℕ → env.World → Result Exc (Option (Text × List PyValue)) → Counted
  execute_statement fuel w (err e) = some (err e, w)
  execute_statement fuel w (ok none) = some (ok (pos 0), w)
  execute_statement fuel w (ok (some (sql, flat))) = async_execute fuel sql flat w

  -- `insert_many`
  unfoldable pub async_insert_many :
      ℕ → Text → List Text → List (List PyValue) → env.World → Counted
  unfolding insert_statement async_execute
  async_insert_many fuel table columns rows w =
      execute_statement fuel w (insert_statement table columns rows)
