-- ===== src/AsyncClient/Queries/Agreement.antt =====
-- That a query of the asynchronous client is that of the synchronous one where no task is
-- cancelled.
use snowflake_sql_api.Common.{
  Result-cases, Option-cases, inl, inr, ℕ, zero, suc, ◌-◌, Text, Bool, true, false, Option, none,
  some, List, ◌++◌, Result, ok, err, ◌>>=◌, ◌≡◌, refl, ap, ◌∙◌,
}
use snowflake_sql_api.Errors.{Value, Fields, Exc}
use snowflake_sql_api.Bindings.{PyValue}
use snowflake_sql_api.Transport.{StatementResponse, statement_handle}
use snowflake_sql_api.Transport.Send.{Environment, Sending}
use snowflake_sql_api.Transport.Calls.{get_statement}
use snowflake_sql_api.Transport.AsyncReplay.{async_get_statement-get_statement, async_submit-submit}
use snowflake_sql_api.Types.{Reading}
use snowflake_sql_api.Pagination.{
  Fetched, extend, fetched, fetch_from, fetch_rest, fetch_all_partitions, body_rows,
  partition_count,
}
use snowflake_sql_api.Client.Batching.{Session}
use snowflake_sql_api.Client.Insert.{insert_statement}
use snowflake_sql_api.Client.Payload.{Context, build_payload}
use snowflake_sql_api.Client.Run
use snowflake_sql_api.Client.Run.{execute, insert_many, Answered, world_of, run, finished}
use snowflake_sql_api.Client.Results.{
  Ran, and_then, and_run, Prepared, prepare_result, with_columns, gather_rows, collect, rows_of,
  query,
}
use snowflake_sql_api.AsyncClient.{Tasks}
use snowflake_sql_api.AsyncClient.Agreement.{IsUndisturbed, async_poll-poll}
use snowflake_sql_api.AsyncClient.Queries
use snowflake_sql_api.AsyncClient.Queries.{
  async_fetch_rest, async_fetch_from, async_fetch_all_partitions, async_run, async_finished,
  async_prepare_result, async_gather, async_collect, async_execute, async_insert_many, async_query,
}

module _ (env : Environment) (handle : Text) where
  extend_agrees :
      (loop later : env.World → List Value → Fetched env handle) (rows : List Value) (w : env.World)
      (read : Result Exc (List Value))
      → ((w1 : env.World) (rows1 : List Value) → later w1 rows1 ≡ loop w1 rows1)
      → extend env handle later rows w read ≡ extend env handle loop rows w read
  extend_agrees loop later rows w (err e) same = refl
  extend_agrees loop later rows w (ok page) same = same w (rows ++ page)

  fetched_agrees :
      (loop later : env.World → List Value → Fetched env handle) (rows : List Value)
      (answer : Result Exc StatementResponse × Sending env)
      → ((w1 : env.World) (rows1 : List Value) → later w1 rows1 ≡ loop w1 rows1)
      → fetched env handle later rows answer ≡ fetched env handle loop rows answer
  fetched_agrees loop later rows (err e, s) same = refl
  fetched_agrees loop later rows (ok r, s) same =
      extend_agrees loop later rows s.world (body_rows r.body) same

  fetch_rest_agrees :
      (left index : ℕ) (w : env.World) (rows : List Value)
      → async_fetch_rest env handle left index w rows ≡ fetch_rest env handle left index w rows
  unfolding async_fetch_rest fetch_rest
  fetch_rest_agrees zero index w rows = refl
  fetch_rest_agrees (suc left) index w rows =
      ap (fetched env handle (async_fetch_rest env handle left (suc index)) rows)
        (async_get_statement-get_statement env handle (some index) w)
      ∙ fetched_agrees (fetch_rest env handle left (suc index))
          (async_fetch_rest env handle left (suc index)) rows
          (get_statement env handle (some index) w) (fetch_rest_agrees left (suc index))

  fetch_from_agrees :
      (first : Result Exc (List Value × ℕ)) (w : env.World)
      → async_fetch_from env handle first w ≡ fetch_from env handle first w
  fetch_from_agrees (err e) w = refl
  fetch_from_agrees (ok (rows, count)) w = fetch_rest_agrees (count - 1) 1 w rows

  fetch_all_agrees :
      (body : Fields) (w : env.World)
      → async_fetch_all_partitions env handle body w ≡ fetch_all_partitions env handle body w
  unfolding async_fetch_all_partitions fetch_all_partitions
  fetch_all_agrees body w =
      fetch_from_agrees (do rows ← body_rows body; count ← partition_count body; ok (rows, count)) w

module _ (env : Environment) (session : Session env) (tasks : Tasks env)
    (calm : IsUndisturbed env session.waiting tasks) (context : Context)
    (canonical : Text → Option Text) (py : Reading) (listed : List Value → Text) where
  send_agrees :
      (id : Text) (async_exec retry : Bool) (built : Result Exc Fields) (w : env.World)
      → Queries.send_payload env session tasks context canonical py listed id async_exec retry built
          w
        ≡ Run.send_payload env session context canonical id async_exec retry built w
  send_agrees id async_exec retry (err e) w = refl
  send_agrees id async_exec retry (ok payload) w =
      ap (world_of env session context canonical)
        (async_submit-submit env payload id async_exec retry none w)

  notified_agrees :
      (sql : Text) (params : List PyValue) (async_exec : Bool) (hook : Option Exc × env.World)
      → Queries.run_notified env session tasks context canonical py listed sql params async_exec
          hook
        ≡ Run.run_notified env session context canonical sql params async_exec hook
  notified_agrees sql params async_exec (some e, w) = refl
  notified_agrees sql params async_exec (none, w) =
      let (id, w1) = session.fresh_id w in
      send_agrees id async_exec false (build_payload context sql params) w1

  run_agrees :
      (sql : Text) (params : List PyValue) (async_exec : Bool) (w : env.World)
      → async_run env session tasks context canonical py listed sql params async_exec w
        ≡ run env session context canonical sql params async_exec w
  unfolding async_run run
  run_agrees sql params async_exec w =
      notified_agrees sql params async_exec (session.notify sql params w)

  finished_agrees :
      (fuel : ℕ) (limit : Option ℕ) (cancel_on_timeout poll_it : Bool)
      (answer : Answered env session context canonical)
      → async_finished env session tasks context canonical py listed fuel limit cancel_on_timeout
          poll_it answer
        ≡ finished env session context canonical fuel limit cancel_on_timeout poll_it answer
  unfolding async_finished
  finished_agrees fuel limit cot poll_it (err e, w) = refl
  finished_agrees fuel limit cot poll_it (ok r, w) =
      rw (async_poll-poll env session.waiting tasks calm fuel (statement_handle r) limit cot w) refl

  gathered_agrees :
      (o : Ran env session context canonical py listed
        (Prepared env session context canonical py listed))
      → and_run env session context canonical py listed
          (async_gather env session tasks context canonical py listed)
          o
        ≡ and_run env session context canonical py listed
            (gather_rows env session context canonical py listed)
            o
  gathered_agrees none = refl
  gathered_agrees (some (err e, w)) = refl
  gathered_agrees (some (ok p, w)) =
      ap (λ f. some (with_columns env session context canonical py listed p.columns f))
        (fetch_all_agrees env (session.waiting.handle_text p.handle) p.body w)

  -- Where no request and no sleep is cut off by a task cancellation, a query of the asynchronous
  -- client gives what the synchronous one gives in the same environment, and leaves the same
  -- state.
  pub async_query-query :
      (fuel : ℕ) (sql : Text) (params : List PyValue) (w : env.World)
      → async_query env session tasks context canonical py listed fuel sql params w
        ≡ query env session context canonical py listed fuel sql params w
  unfolding async_query query async_collect collect async_prepare_result prepare_result
  async_query-query fuel sql params w = rw (run_agrees sql params false w) (
      rw
        (finished_agrees fuel session.limit true true
          (run env session context canonical sql params false w))
        (ap
          (and_then env session context canonical py listed
            (rows_of env session context canonical py listed))
          (gathered_agrees _)))

  counted_agrees :
      (fuel : ℕ) (sql : Text) (params : List PyValue) (w : env.World)
      → async_execute env session tasks context canonical py listed fuel sql params w
        ≡ execute env session context canonical fuel sql params w
  unfolding async_execute execute
  counted_agrees fuel sql params w = rw (run_agrees sql params false w) (
      rw
        (finished_agrees fuel session.limit true true
          (run env session context canonical sql params false w))
        refl)

  -- Where no request and no sleep is cut off by a task cancellation, insert_many of the
  -- asynchronous client gives what that of the synchronous one gives in the same environment, and
  -- leaves the same state.
  pub async_insert_many-insert_many :
      (fuel : ℕ) (table : Text) (columns : List Text) (rows : List (List PyValue)) (w : env.World)
      → async_insert_many env session tasks context canonical py listed fuel table columns rows w
        ≡ insert_many env session context canonical fuel table columns rows w
  unfolding async_insert_many insert_many
  async_insert_many-insert_many fuel table columns rows w =
      elim (Result-cases (insert_statement table columns rows)) [
        | inr (e, h) ↦ rw h refl
        | inl (o, h) ↦ rw h (elim (Option-cases o) [
          | inl nothing ↦ rw nothing refl
          | inr ((sql, flat), some_rows) ↦ rw some_rows (counted_agrees fuel sql flat w)
        ])
      ]
