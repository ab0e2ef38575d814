-- ===== src/Client/Batching.antt =====
-- `insert_batches` of client.py: the loop over the planner's batches. The hook, the fresh UUIDs and
-- `int` on a text are parameters; the loop runs on fuel, and gives none when it runs out.
pub mod Ledger
pub mod Outcomes
use snowflake_sql_api.Common.{
  ℕ, zero, suc, Text, codes, Bool, true, false, Option, none, some, List, [], Result, ok, err,
  ◌>>=◌, if◌then◌else◌,
}
use snowflake_sql_api.Common.Int.{ℤ, pos, negsuc}
use snowflake_sql_api.Errors.{Value, is_none, Exc, request_error, end}
use snowflake_sql_api.Bindings.{PyValue}
use snowflake_sql_api.Transport.{StatementResponse, is_running, statement_handle}
use snowflake_sql_api.Transport.Send.{Environment, Sending}
use snowflake_sql_api.Transport.Calls.{submit}
use snowflake_sql_api.Client.Affected.{rows_affected}
use snowflake_sql_api.Client.Poll.{Waiting, poll}
use snowflake_sql_api.Batches.Progress.{
  BatchSummary, BatchWriteError, Phase, validation, not_executed,
}
use snowflake_sql_api.Batches.Planner
use snowflake_sql_api.Batches.Planner.{Planner, PreparedBatch, Fault, stopped, stop}
use snowflake_sql_api.Batches.Planner.Step.{next_batch, confirm}
use snowflake_sql_api.Batches.Execution
use snowflake_sql_api.Batches.Execution.{Execution, start, received}

-- What the client holds: the polling limit is `self._statement_timeout`, in nanoseconds.
pub record Session (env : Environment) : Type 0 where
  pub waiting : Waiting env
  pub limit : Option ℕ
  -- `self._notify`: what the hook raises, if it does
  pub notify : Text → List PyValue → env.World → Option Exc × env.World
  pub fresh_id : env.World → Text × env.World
  pub parse_int : Text → Option ℤ

module _ (env : Environment) (session : Session env) where
  -- What the `try` block leaves: its result, the execution record, and the world.
  pub record Tried : Type 0 where
    pub result : Result Exc ℕ
    pub execution : Execution
    pub world : env.World

  -- A strict count is not negative.
  abbrev natural : ℤ → ℕ
  natural (pos n) = n
  natural (negsuc n) = 0

  abbrev counted : Result Exc ℤ → Result Exc ℕ
  counted (ok n) = ok (natural n)
  counted (err e) = err e

  unfoldable pub affected : StatementResponse → Execution → env.World → Tried
  unfolding rows_affected
  affected response x w = record {
    result = counted (rows_affected session.parse_int response.body true);
    execution = x;
    world = w;
  }

  abbrev after_poll : Execution → Option (Result Exc StatementResponse × env.World) → Option Tried
  after_poll x none = none
  after_poll x (some (err e, w)) = some (record { result = err e; execution = x; world = w })
  after_poll x (some (ok r, w)) = some (affected r (record x { succeeded = true }) w)

  unfoldable pub settle : ℕ → Execution → StatementResponse → env.World → Option Tried
  unfolding affected poll statement_handle is_running
  settle fuel x r w =
      if is_running r
      then (if is_none (statement_handle r)
          then some (record {
            result = err (request_error (codes "running statement has no handle"));
            execution = x;
            world = w;
          })
          else after_poll x
              (poll env session.waiting fuel (statement_handle r) session.limit true w))
      else some (affected r x w)

  abbrev submitted : ℕ → Execution → Result Exc StatementResponse × Sending env → Option Tried
  submitted fuel x (err e, s) = some (record { result = err e; execution = x; world = s.world })
  submitted fuel x (ok r, s) =
      settle fuel (received (statement_handle r) r.submission_attempts (is_running r) x) r s.world

  -- The `try` block of one batch.
  unfoldable pub run_batch : ℕ → Execution → PreparedBatch → env.World → Option Tried
  unfolding settle submit received
  run_batch fuel x batch w =
      submitted fuel x (submit env end x.failed.request_id false false (some batch.content) w)

  abbrev pub Inserted : Type 0
  Inserted = Result Fault (List BatchSummary) × env.World

  -- The `except` of the `try` block, or `planner.confirm` and the next round.
  abbrev pub settled :
      (Planner → env.World → Option Inserted)
      → Planner
      → PreparedBatch
      → Option Tried
      → Option Inserted
  settled loop p batch none = none
  settled loop p batch (some t) = elim (t.result) [
    | ok n ↦ loop (confirm p batch n) t.world
    | err e ↦ some (err (stopped (Execution.error t.execution e)), t.world)
  ]

  abbrev pub notified :
      ℕ
      → (Planner → env.World → Option Inserted)
      → Planner
      → PreparedBatch
      → Option Exc × env.World
      → Option Inserted
  notified fuel loop p batch (some e, w) = some (err (stop p e validation), w)
  notified fuel loop p batch (none, w) =
      let (id, w1) = session.fresh_id w in
      settled loop p batch (run_batch fuel (start p batch id) batch w1)

  abbrev pub planned :
      ℕ
      → (Planner → env.World → Option Inserted)
      → Result Fault (Planner × Option PreparedBatch)
      → env.World
      → Option Inserted
  planned fuel loop (err f) w = some (err f, w)
  planned fuel loop (ok (p, none)) w = some (ok p.completed, w)
  planned fuel loop (ok (p, some batch)) w =
      notified fuel loop p batch (session.notify batch.sql batch.params w)

  -- `while`, with the fuel of the polling and that of the loop
  unfoldable pub insert_loop : ℕ → ℕ → Planner → env.World → Option Inserted
  unfolding run_batch next_batch confirm start Execution.error
  insert_loop poll_fuel zero p w = none
  insert_loop poll_fuel (suc fuel) p w =
      planned poll_fuel (insert_loop poll_fuel fuel) (next_batch p) w
