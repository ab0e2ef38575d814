-- ===== src/AsyncClient/Cancelling.antt =====
-- That waiting for the cancel request of a cancelled task is bounded, and what a cancellation
-- leaves.
use snowflake_sql_api.Common.{
  ℕ, zero, suc, ◌+◌, ◌-◌, ◌≤◌, ◌<◌, Text, true, false, Option, some, err, ◌≡◌, ◌⊎◌, refl, leb,
  Bool-cases, inl, inr, arith,
}
use snowflake_sql_api.Errors.{Value, Exc}
use snowflake_sql_api.Transport.Send.{Environment}
use snowflake_sql_api.Transport.Async.{async_cancel}
use snowflake_sql_api.Client.Poll.{Waiting, wait_of}
use snowflake_sql_api.AsyncClient.{
  Tasks, is_cancelled, async_poll_until, on_cancelled, async_poll, wait_for_cancel,
  cancel_after_task_cancel, cancel_on_task_cancel_timeout,
}

-- The loop's clock: it is what `time` reads, reading it does not turn it back, and a wait ends
-- with the task done or takes a tick at least.
pub record IsTicking (env : Environment) (tasks : Tasks env) (now : env.World → ℕ) : Type 0 where
  pub read : (w : env.World) → (tasks.time w).0 ≡ now w
  pub read_later : (w : env.World) → now w ≤ now (tasks.time w).1
  pub wait_later :
      (t : ℕ) (w : env.World)
      → (tasks.is_done (tasks.wait t w) ≡ true) ⊎ (now w + 1 ≤ now (tasks.wait t w))

-- The course of the wait for a task that was begun: it is done, or the deadline is over and it is
-- abandoned, or it is waited for over the time that is left, and so on.
pub data Waits (env : Environment) (tasks : Tasks env) (deadline : ℕ)
    : env.World → env.World → Type 0 where
  done : {w : env.World} → tasks.is_done w ≡ true → Waits env tasks deadline w w
  over :
      {w : env.World}
      → tasks.is_done w ≡ false
      → deadline ≤ (tasks.time w).0
      → Waits env tasks deadline w (tasks.abandon (tasks.time w).1)
  wait :
      {w w' : env.World}
      → tasks.is_done w ≡ false
      → (tasks.time w).0 < deadline
      → Waits env tasks deadline (tasks.wait (deadline - (tasks.time w).0) (tasks.time w).1) w'
      → Waits env tasks deadline w w'

module _ (env : Environment) (waiting : Waiting env) (tasks : Tasks env) (now : env.World → ℕ)
    (ticking : IsTicking env tasks now) where
  -- The wait ends, by the course above.
  abbrev Settled : ℕ → env.World → Option env.World → Type 0
  Settled deadline w o = (w' : env.World) × (o ≡ some w') × Waits env tasks deadline w w'

  done_Settled :
      (fuel deadline : ℕ) (w : env.World)
      → tasks.is_done w ≡ true
      → Settled deadline w (wait_for_cancel env waiting tasks (suc fuel) deadline w)
  unfolding wait_for_cancel
  done_Settled fuel deadline w finished = rw finished (w, refl, done finished)

  over_Settled :
      (fuel deadline : ℕ) (w : env.World)
      → tasks.is_done w ≡ false
      → leb deadline (tasks.time w).0 ≡ true
      → Settled deadline w (wait_for_cancel env waiting tasks (suc fuel) deadline w)
  unfolding wait_for_cancel
  over_Settled fuel deadline w open_task late =
      rw open_task
        (rw late (tasks.abandon (tasks.time w).1, refl, over open_task (ground (arith, late))))

  wait_Settled :
      (fuel deadline : ℕ) (w : env.World)
      → tasks.is_done w ≡ false
      → leb deadline (tasks.time w).0 ≡ false
      → Settled deadline (tasks.wait (deadline - (tasks.time w).0) (tasks.time w).1) (
          wait_for_cancel env waiting tasks fuel deadline
            (tasks.wait (deadline - (tasks.time w).0) (tasks.time w).1))
      → Settled deadline w (wait_for_cancel env waiting tasks (suc fuel) deadline w)
  unfolding wait_for_cancel
  wait_Settled fuel deadline w open_task early (w', ends, course) =
      rw open_task (rw early (w', ends, wait open_task (ground (arith, early)) course))

  wait_for_cancel-Settled :
      (fuel deadline : ℕ) (w : env.World)
      → deadline < now w + fuel
      → Settled deadline w (wait_for_cancel env waiting tasks (suc fuel) deadline w)
  wait_for_cancel-Settled zero deadline w enough = elim (Bool-cases (tasks.is_done w)) [
    | inl finished ↦ done_Settled zero deadline w finished
    | inr open_task ↦
        over_Settled zero deadline w open_task (ground (arith, ticking.read w, enough))
  ]
  wait_for_cancel-Settled (suc fuel) deadline w enough = elim (Bool-cases (tasks.is_done w)) [
    | inl finished ↦ done_Settled (suc fuel) deadline w finished
    | inr open_task ↦
        let (t, w1) = tasks.time w in
        elim (Bool-cases (leb deadline t)) [
          | inl late ↦ over_Settled (suc fuel) deadline w open_task late
          | inr early ↦
              wait_Settled (suc fuel) deadline w open_task early
                (elim (ticking.wait_later (deadline - t) w1) [
                  | inl finished ↦
                      done_Settled fuel deadline (tasks.wait (deadline - t) w1) finished
                  | inr later ↦
                      wait_for_cancel-Settled fuel deadline (tasks.wait (deadline - t) w1)
                        (omega (arith, enough, later, ticking.read_later w))
                ])
        ]
  ]

  -- The cancel request is sent from a world, and waited for until the limit since then is over.
  abbrev pub Ended : Text → env.World → env.World → Type 0
  Ended handle w w' =
      let begun = tasks.time (tasks.spawn (async_cancel env handle) w) in
      Waits env tasks (begun.0 + cancel_on_task_cancel_timeout) begun.1 w'

  -- Given a clock that passes a tick at least in each wait that does not see the request done,
  -- the cancel request of a cancelled task is sent, and waited for until it is done, or until the
  -- limit is over since it began, when it is abandoned; two looks more than the limit has ticks
  -- are enough.
  pub cancel_after_task_cancel_settles :
      (fuel : ℕ) (handle : Text) (w : env.World)
      → cancel_on_task_cancel_timeout + 1 < fuel
      → (w' : env.World) × (cancel_after_task_cancel env waiting tasks fuel handle w ≡ some w')
        × Ended handle w w'
  unfolding cancel_after_task_cancel
  cancel_after_task_cancel_settles zero handle w enough =
      let wrong : ⊥ = omega arith in absurd wrong
  cancel_after_task_cancel_settles (suc fuel) handle w enough =
      let w0 = tasks.spawn (async_cancel env handle) w in
      let (begun, w1) = tasks.time w0 in
      wait_for_cancel-Settled fuel (begun + cancel_on_task_cancel_timeout) w1
        (omega (arith, enough, ticking.read w0, ticking.read_later w0))

  -- Given such a clock and fuel, when a task cancellation reaches a poll that is to cancel its
  -- statement, the poll sends a cancel request from where it was cut off, waits for it until it is
  -- done, or until its limit is over, when it is abandoned, and raises the cancellation unchanged.
  pub async_poll_cancelled :
      (fuel : ℕ) (handle : Value) (limit : Option ℕ) (w0 : env.World) {e : Exc} {w : env.World}
      → cancel_on_task_cancel_timeout + 1 < fuel
      → async_poll_until env waiting tasks fuel
          ((waiting.monotonic w0).0 + wait_of limit)
          handle
          (wait_of limit)
          true
          (waiting.monotonic w0).1
        ≡ some (err e, w)
      → is_cancelled e ≡ true
      → (w' : env.World) × (async_poll env waiting tasks fuel handle limit true w0
          ≡ some (err e, w'))
        × Ended (waiting.handle_text handle) w w'
  unfolding async_poll on_cancelled
  async_poll_cancelled fuel handle limit w0 {e} {w} enough cut cancels =
      let (w', waits, ended) =
        cancel_after_task_cancel_settles fuel (waiting.handle_text handle) w enough in
      (w', rw cut (rw cancels (rw waits refl)), ended)
