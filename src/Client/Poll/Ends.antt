-- ===== src/Client/Poll/Ends.antt =====
-- That the polling of a statement ends, and with what.
use snowflake_sql_api.Common.{
  ℕ, zero, suc, ◌+◌, ◌≤◌, Text, Bool, true, false, Option, none, some, Result, ok, err, leb,
  Bool-cases, [], codes, ◌≡◌, refl, inl, inr, arith,
}
use snowflake_sql_api.Errors.{Value, Exc, Info}
use snowflake_sql_api.Transport.{StatementResponse, is_running}
use snowflake_sql_api.Transport.Send.{Environment, Sending, no_payload}
use snowflake_sql_api.Transport.Calls.{get_statement, cancel, status_path}
use snowflake_sql_api.Transport.Clock.{IsClock, send-later}
use snowflake_sql_api.Client.Poll.{
  cancelled, timeout_error, Waiting, wait_of, Polled, give_up, still_running, look, poll_until,
  poll,
}

-- A clock of the waiting and of the transport: it is what `monotonic` reads, no call turns it back,
-- and a pause takes one tick at least.
pub record IsTimed (env : Environment) (waiting : Waiting env) (now : env.World → ℕ) : Type 0 where
  pub transport : IsClock env now
  pub read : (w : env.World) → (waiting.monotonic w).0 ≡ now w
  pub read_later : (w : env.World) → now w ≤ now (waiting.monotonic w).1
  pub pause_later : (w : env.World) → now w + 1 ≤ now (waiting.pause w)

module _ (env : Environment) (waiting : Waiting env) where
  -- What a look at the statement says of the answer: an error, or a statement that is not running.
  abbrev pub Finished : Polled env waiting → Type 0
  Finished (ok r, w) = is_running r ≡ false
  Finished (err e, w) = Unit

  cancelled-Finished :
      (i : Info) (answer : Result Exc StatementResponse × Sending env)
      → Finished (cancelled env waiting i answer)
  cancelled-Finished i (ok r, s) = tt
  cancelled-Finished i (err e, s) = tt

  give_up-Finished :
      (handle : Value) (wait : ℕ) (cancel_on_timeout : Bool) (w : env.World)
      → Finished (give_up env waiting handle wait cancel_on_timeout w)
  unfolding give_up
  give_up-Finished handle wait false w = tt
  give_up-Finished handle wait true w =
      cancelled-Finished (timeout_error env waiting handle wait)
        (cancel env (waiting.handle_text handle) w)

  abbrev Ends : Option (Polled env waiting) → Type 0
  Ends o = (p : Polled env waiting) × (o ≡ some p) × Finished p

  module _ (now : env.World → ℕ) (timed : IsTimed env waiting now) where
    running-Ends :
        (loop : env.World → Option (Polled env waiting)) (deadline : ℕ) (handle : Value) (wait : ℕ)
        (cancel_on_timeout : Bool) (w : env.World)
        → (now w + 1 ≤ deadline → (w' : env.World) → now w + 1 ≤ now w' → Ends (loop w'))
        → Ends (
            still_running env waiting loop deadline handle wait cancel_on_timeout
              (waiting.monotonic w))
    running-Ends loop deadline handle wait cot w rec =
        let (t, w1) = waiting.monotonic w in
        elim (Bool-cases (leb deadline t)) [
          | inl over ↦
              rw over
                (give_up env waiting handle wait cot w1, refl, give_up-Finished handle wait cot w1)
          | inr early ↦ rw early (
              rec (ground (arith, early, timed.read w, timed.read_later w)) (waiting.pause w1)
                (omega (arith, timed.read_later w, timed.pause_later w1)))
        ]

    look-Ends :
        (loop : env.World → Option (Polled env waiting)) (deadline : ℕ) (handle : Value) (wait : ℕ)
        (cancel_on_timeout : Bool) (answer : Result Exc StatementResponse × Sending env)
        → (now answer.1.world + 1 ≤ deadline
            → (w' : env.World) → now answer.1.world + 1 ≤ now w'
            → Ends (loop w'))
        → Ends (look env waiting loop deadline handle wait cancel_on_timeout answer)
    unfolding look
    look-Ends loop deadline handle wait cot (err e, s) rec = ((err e, s.world), refl, tt)
    look-Ends loop deadline handle wait cot (ok r, s) rec = elim (Bool-cases (is_running r)) [
      | inl running ↦ rw running (running-Ends loop deadline handle wait cot s.world rec)
      | inr done ↦ rw done ((ok r, s.world), refl, done)
    ]

    get_statement-later :
        (handle : Text) (w : env.World) → now w ≤ now (get_statement env handle none w).1.world
    unfolding get_statement
    get_statement-later handle w =
        send-later env now timed.transport (codes "GET") (status_path handle) no_payload false
          (some []) w

    poll_until-Ends :
        (fuel deadline : ℕ) (handle : Value) (wait : ℕ) (cancel_on_timeout : Bool) (w : env.World)
        → deadline ≤ now w + fuel
        → Ends (poll_until env waiting (suc fuel) deadline handle wait cancel_on_timeout w)
    unfolding poll_until
    poll_until-Ends zero deadline handle wait cot w le =
        look-Ends (poll_until env waiting 0 deadline handle wait cot) deadline handle wait cot
          (get_statement env (waiting.handle_text handle) none w)
          (λ early w' later.
            absurd (omega (arith, le, early, get_statement-later (waiting.handle_text handle) w)))
    poll_until-Ends (suc fuel) deadline handle wait cot w le =
        look-Ends (poll_until env waiting (suc fuel) deadline handle wait cot) deadline handle wait
          cot (get_statement env (waiting.handle_text handle) none w)
          (λ early w' later.
            poll_until-Ends fuel deadline handle wait cot w'
              (omega (arith, le, later, get_statement-later (waiting.handle_text handle) w)))

    -- With a clock that no call turns back and pauses of one tick at least, the polling ends within
    -- one look more than the wait has ticks, with an exception or a statement that is not running.
    pub poll_ends :
        (handle : Value) (limit : Option ℕ) (cancel_on_timeout : Bool) (w : env.World)
        → (p : Polled env waiting) × (poll env waiting
              (suc (wait_of limit))
              handle
              limit
              cancel_on_timeout
              w
            ≡ some p)
          × Finished p
    unfolding poll
    poll_ends handle limit cot w =
        let (begun, w1) = waiting.monotonic w in
        poll_until-Ends (wait_of limit) (begun + wait_of limit) handle (wait_of limit) cot w1
          (omega (arith, timed.read w, timed.read_later w))
