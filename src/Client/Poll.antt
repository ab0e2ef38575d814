-- ===== src/Client/Poll.antt =====
-- `_poll` of client.py. The clock is read in nanoseconds; the loop runs on fuel, and gives none
-- when it runs out.
pub mod Ends
use snowflake_sql_api.Common.{
  ℕ, zero, suc, ◌+◌, ◌*◌, Text, codes, Bool, true, false, Option, none, some, ◌++◌, Result, ok, err,
  if◌then◌else◌, leb,
}
use snowflake_sql_api.Errors.{Value, Exc, raised, cancel_failed, Info, plain, timeout}
use snowflake_sql_api.Transport.{StatementResponse, is_running}
use snowflake_sql_api.Transport.Send.{Environment, Sending}
use snowflake_sql_api.Transport.Calls.{get_statement, cancel}

-- `DEFAULT_POLL_TIMEOUT`, 600 seconds
abbrev pub default_poll_timeout : ℕ
default_poll_timeout = 600 * 1000000000

-- `monotonic()`, `time.sleep(self._poll_interval)`, and the texts of a handle and of a wait.
pub record Waiting (env : Environment) : Type 0 where
  pub monotonic : env.World → ℕ × env.World
  pub pause : env.World → env.World
  pub handle_text : Value → Text
  pub wait_text : ℕ → Text

abbrev pub wait_of : Option ℕ → ℕ
wait_of none = default_poll_timeout
wait_of (some n) = n

module _ (env : Environment) (waiting : Waiting env) where
  abbrev pub Polled : Type 0
  Polled = Result Exc StatementResponse × env.World

  abbrev pub timeout_error : Value → ℕ → Info
  timeout_error handle wait = plain timeout (
      codes "statement "
      ++ (waiting.handle_text handle
          ++ (codes " did not finish within " ++ (waiting.wait_text wait ++ codes "s"))))

  -- The cancel request and its failure, which the timeout keeps.
  abbrev pub cancelled : Info → Result Exc StatementResponse × Sending env → Polled
  cancelled i (ok r, s) = (err (raised i), s.world)
  cancelled i (err e, s) = (err (cancel_failed i e), s.world)

  unfoldable pub give_up : Value → ℕ → Bool → env.World → Polled
  unfolding cancel
  give_up handle wait cancel_on_timeout w =
      if cancel_on_timeout
      then cancelled (timeout_error handle wait) (cancel env (waiting.handle_text handle) w)
      else (err (raised (timeout_error handle wait)), w)

  abbrev pub still_running :
      (env.World → Option Polled) → ℕ → Value → ℕ → Bool → ℕ × env.World → Option Polled
  still_running loop deadline handle wait cancel_on_timeout (now, w) =
      if leb deadline now
      then some (give_up handle wait cancel_on_timeout w)
      else loop (waiting.pause w)

  unfoldable pub look :
      (env.World → Option Polled)
      → ℕ
      → Value
      → ℕ
      → Bool
      → Result Exc StatementResponse × Sending env
      → Option Polled
  unfolding give_up
  look loop deadline handle wait cancel_on_timeout (err e, s) = some (err e, s.world)
  look loop deadline handle wait cancel_on_timeout (ok r, s) =
      if is_running r
      then still_running loop deadline handle wait cancel_on_timeout (waiting.monotonic s.world)
      else some (ok r, s.world)

  -- `while True`
  unfoldable pub poll_until : ℕ → ℕ → Value → ℕ → Bool → env.World → Option Polled
  unfolding look get_statement
  poll_until zero deadline handle wait cancel_on_timeout w = none
  poll_until (suc fuel) deadline handle wait cancel_on_timeout w =
      look (poll_until fuel deadline handle wait cancel_on_timeout) deadline handle wait
        cancel_on_timeout (get_statement env (waiting.handle_text handle) none w)

  -- `_poll`
  unfoldable pub poll : ℕ → Value → Option ℕ → Bool → env.World → Option Polled
  unfolding poll_until
  poll fuel handle limit cancel_on_timeout w0 =
      let (begun, w) = waiting.monotonic w0 in
      poll_until fuel (begun + wait_of limit) handle (wait_of limit) cancel_on_timeout w
