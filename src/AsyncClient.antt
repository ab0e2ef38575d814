-- ===== src/AsyncClient.antt =====
-- snowflake_sql_api/aclient.py: `_poll` and `_cancel_after_task_cancel` of the asynchronous
-- client. A task cancellation is an exception that an `await` raises. The loops run on fuel.
pub mod Agreement
pub mod Cancelling
pub mod Queries
pub mod Handles
pub mod Tests
use snowflake_sql_api.Common.{
  ℕ, zero, suc, ◌+◌, ◌-◌, ◌*◌, Text, codes, Bool, true, false, Option, none, some, Result, ok, err,
  if◌then◌else◌, leb, text_eq, ◌&&◌,
}
use snowflake_sql_api.Errors.{Value, Kind, foreign, Exc, raised, cancel_failed, info, Info}
use snowflake_sql_api.Transport.{StatementResponse, is_running}
use snowflake_sql_api.Transport.Send.{Environment, Sending}
use snowflake_sql_api.Transport.Async.{async_get_statement, async_cancel}
use snowflake_sql_api.Client.Poll.{Waiting, wait_of, timeout_error}

-- `CANCEL_ON_TASK_CANCEL_TIMEOUT`, in nanoseconds
abbrev pub cancel_on_task_cancel_timeout : ℕ
cancel_on_task_cancel_timeout = 5 * 1000000000

abbrev is_foreign : Kind → Bool
is_foreign foreign = true
is_foreign _ = false

-- `asyncio.CancelledError`, which is no `Exception`
abbrev pub is_cancelled : Exc → Bool
is_cancelled e = is_foreign (info e).kind && text_eq (info e).message (codes "CancelledError")

-- What the code takes from asyncio. The task is the one of a cancel request.
pub record Tasks (env : Environment) : Type 0 where
  -- `await asyncio.sleep(self._poll_interval)`: what it raises, if it does
  pub sleep : env.World → Option Exc × env.World
  -- `asyncio.ensure_future`, with the callback that `_settle_cancel` is
  pub spawn : (env.World → Result Exc StatementResponse × Sending env) → env.World → env.World
  pub is_done : env.World → Bool
  -- `loop.time()`
  pub time : env.World → ℕ × env.World
  -- `await asyncio.wait({task}, timeout=remaining)`, a cancellation suppressed
  pub wait : ℕ → env.World → env.World
  -- `_abandoned_cancels.add(task)` and `task.cancel()`
  pub abandon : env.World → env.World

module _ (env : Environment) (waiting : Waiting env) (tasks : Tasks env) where
  abbrev pub Polled : Type 0
  Polled = Result Exc StatementResponse × env.World

  abbrev pub waited : (env.World → Option env.World) → ℕ → ℕ × env.World → Option env.World
  waited loop deadline (now, w) =
      if leb deadline now then some (tasks.abandon w) else loop (tasks.wait (deadline - now) w)

  -- `while not task.done()`
  unfoldable pub wait_for_cancel : ℕ → ℕ → env.World → Option env.World
  wait_for_cancel zero deadline w = none
  wait_for_cancel (suc fuel) deadline w =
      if tasks.is_done w
      then some w
      else waited (wait_for_cancel fuel deadline) deadline (tasks.time w)

  -- `_cancel_after_task_cancel`
  unfoldable pub cancel_after_task_cancel : ℕ → Text → env.World → Option env.World
  unfolding wait_for_cancel async_cancel
  cancel_after_task_cancel fuel handle w0 =
      let (begun, w) = tasks.time (tasks.spawn (async_cancel env handle) w0) in
      wait_for_cancel fuel (begun + cancel_on_task_cancel_timeout) w

  -- The cancel request of a timeout; a task cancellation of it passes.
  abbrev pub timeout_cancelled : Info → Result Exc StatementResponse × Sending env → Polled
  timeout_cancelled i (ok r, s) = (err (raised i), s.world)
  timeout_cancelled i (err e, s) = (err (if is_cancelled e then e else cancel_failed i e), s.world)

  unfoldable pub async_give_up : Value → ℕ → Bool → env.World → Polled
  unfolding async_cancel
  async_give_up handle wait cancel_on_timeout w =
      if cancel_on_timeout
      then timeout_cancelled (timeout_error env waiting handle wait)
          (async_cancel env (waiting.handle_text handle) w)
      else (err (raised (timeout_error env waiting handle wait)), w)

  abbrev pub slept : (env.World → Option Polled) → Option Exc × env.World → Option Polled
  slept loop (some e, w) = some (err e, w)
  slept loop (none, w) = loop w

  abbrev pub still_running :
      (env.World → Option Polled) → ℕ → Value → ℕ → Bool → ℕ × env.World → Option Polled
  still_running loop deadline handle wait cancel_on_timeout (now, w) =
      if leb deadline now
      then some (async_give_up handle wait cancel_on_timeout w)
      else slept loop (tasks.sleep w)

  unfoldable pub async_look :
      (env.World → Option Polled)
      → ℕ
      → Value
      → ℕ
      → Bool
      → Result Exc StatementResponse × Sending env
      → Option Polled
  unfolding async_give_up
  async_look loop deadline handle wait cancel_on_timeout (err e, s) = some (err e, s.world)
  async_look loop deadline handle wait cancel_on_timeout (ok r, s) =
      if is_running r
      then still_running loop deadline handle wait cancel_on_timeout (waiting.monotonic s.world)
      else some (ok r, s.world)

  -- The `try` block.
  unfoldable pub async_poll_until : ℕ → ℕ → Value → ℕ → Bool → env.World → Option Polled
  unfolding async_look async_get_statement
  async_poll_until zero deadline handle wait cancel_on_timeout w = none
  async_poll_until (suc fuel) deadline handle wait cancel_on_timeout w =
      async_look (async_poll_until fuel deadline handle wait cancel_on_timeout) deadline handle wait
        cancel_on_timeout (async_get_statement env (waiting.handle_text handle) none w)

  abbrev pub passed : Exc → Option env.World → Option Polled
  passed e none = none
  passed e (some w) = some (err e, w)

  -- `except asyncio.CancelledError`
  unfoldable pub on_cancelled : ℕ → Value → Bool → Option Polled → Option Polled
  unfolding cancel_after_task_cancel
  on_cancelled fuel handle cancel_on_timeout none = none
  on_cancelled fuel handle cancel_on_timeout (some (ok r, w)) = some (ok r, w)
  on_cancelled fuel handle cancel_on_timeout (some (err e, w)) =
      if is_cancelled e && cancel_on_timeout
      then passed e (cancel_after_task_cancel fuel (waiting.handle_text handle) w)
      else some (err e, w)

  -- `_poll`
  unfoldable pub async_poll : ℕ → Value → Option ℕ → Bool → env.World → Option Polled
  unfolding async_poll_until on_cancelled
  async_poll fuel handle limit cancel_on_timeout w0 =
      let (begun, w) = waiting.monotonic w0 in
      on_cancelled fuel handle cancel_on_timeout
        (async_poll_until fuel (begun + wait_of limit) handle (wait_of limit) cancel_on_timeout w)
