-- ===== src/AsyncClient/Agreement.antt =====
-- That the polling of the asynchronous client is that of the synchronous one where no task is
-- cancelled.
use snowflake_sql_api.Common.{
  ℕ, zero, suc, ◌+◌, Text, Bool, true, false, Option, none, some, Result, ok, err, ◌≡◌, refl, ap,
  ◌∙◌, leb, Bool-cases, inl, inr,
}
use snowflake_sql_api.Errors.{Value, raised, Exc, Info}
use snowflake_sql_api.Transport.{StatementResponse, is_running}
use snowflake_sql_api.Transport.Send.{Environment, Sending}
use snowflake_sql_api.Transport.Calls.{get_statement, cancel}
use snowflake_sql_api.Transport.AsyncReplay.{async_get_statement-get_statement, async_cancel-cancel}
use snowflake_sql_api.Client.Poll.{
  Waiting, wait_of, Polled, timeout_error, cancelled, give_up, look, poll_until, poll,
}
use snowflake_sql_api.AsyncClient.{
  Tasks, is_cancelled, timeout_cancelled, async_give_up, async_look, async_poll_until, on_cancelled,
  async_poll,
}

-- No await raises a cancellation, and the sleep is the pause of the synchronous client.
pub record IsUndisturbed (env : Environment) (waiting : Waiting env) (tasks : Tasks env)
    : Type 0 where
  pub reads :
      (name : Text) (w : env.World) (e : Exc)
      → (get_statement env name none w).0 ≡ err e
      → is_cancelled e ≡ false
  pub cancels :
      (name : Text) (w : env.World) (e : Exc)
      → (cancel env name w).0 ≡ err e
      → is_cancelled e ≡ false
  pub sleeps : (w : env.World) → tasks.sleep w ≡ (none, waiting.pause w)

module _ (env : Environment) (waiting : Waiting env) (tasks : Tasks env)
    (calm : IsUndisturbed env waiting tasks) where
  -- What the `try` block of the poll leaves is no cancellation.
  Calm : Option (Polled env waiting) → Type 0
  Calm none = Unit
  Calm (some (ok r, w)) = Unit
  Calm (some (err e, w)) = is_cancelled e ≡ false

  cancel_agrees :
      (i : Info) (answer : Result Exc StatementResponse × Sending env)
      → ((e : Exc) → answer.0 ≡ err e → is_cancelled e ≡ false)
      → timeout_cancelled env waiting tasks i answer ≡ cancelled env waiting i answer
  cancel_agrees i (ok r, s) quiet = refl
  cancel_agrees i (err e, s) quiet = rw (quiet e refl) refl

  give_up_agrees :
      (handle : Value) (wait : ℕ) (cancel_on_timeout : Bool) (w : env.World)
      → async_give_up env waiting tasks handle wait cancel_on_timeout w
        ≡ give_up env waiting handle wait cancel_on_timeout w
  unfolding async_give_up give_up
  give_up_agrees handle wait false w = refl
  give_up_agrees handle wait true w = rw (async_cancel-cancel env (waiting.handle_text handle) w) (
      cancel_agrees (timeout_error env waiting handle wait)
        (cancel env (waiting.handle_text handle) w) (calm.cancels (waiting.handle_text handle) w))

  look_agrees :
      (loop : env.World → Option (Polled env waiting))
      (later : env.World → Option (Polled env waiting)) (deadline : ℕ) (handle : Value) (wait : ℕ)
      (cancel_on_timeout : Bool) (answer : Result Exc StatementResponse × Sending env)
      → ((w : env.World) → later w ≡ loop w)
      → async_look env waiting tasks later deadline handle wait cancel_on_timeout answer
        ≡ look env waiting loop deadline handle wait cancel_on_timeout answer
  unfolding async_look look
  look_agrees loop later deadline handle wait cot (err e, s) same = refl
  look_agrees loop later deadline handle wait cot (ok r, s) same =
      elim (Bool-cases (is_running r)) [
        | inr done ↦ rw done refl
        | inl running ↦ rw running (
            let (now, w) = waiting.monotonic s.world in
            elim (Bool-cases (leb deadline now)) [
              | inl over ↦ rw over (ap some (give_up_agrees handle wait cot w))
              | inr early ↦ rw early (rw (calm.sleeps w) (same (waiting.pause w)))
            ])
      ]

  poll_until_agrees :
      (fuel deadline : ℕ) (handle : Value) (wait : ℕ) (cancel_on_timeout : Bool) (w : env.World)
      → async_poll_until env waiting tasks fuel deadline handle wait cancel_on_timeout w
        ≡ poll_until env waiting fuel deadline handle wait cancel_on_timeout w
  unfolding async_poll_until poll_until
  poll_until_agrees zero deadline handle wait cot w = refl
  poll_until_agrees (suc fuel) deadline handle wait cot w =
      rw (async_get_statement-get_statement env (waiting.handle_text handle) none w) (
        look_agrees (poll_until env waiting fuel deadline handle wait cot)
          (async_poll_until env waiting tasks fuel deadline handle wait cot) deadline handle wait
          cot (get_statement env (waiting.handle_text handle) none w)
          (λ w1. poll_until_agrees fuel deadline handle wait cot w1))

  cancelled-Calm :
      (i : Info) (answer : Result Exc StatementResponse × Sending env)
      → is_cancelled (raised i) ≡ false
      → Calm (some (cancelled env waiting i answer))
  unfolding Calm
  cancelled-Calm i (ok r, s) plain_info = plain_info
  cancelled-Calm i (err e, s) plain_info = plain_info

  give_up-Calm :
      (handle : Value) (wait : ℕ) (cancel_on_timeout : Bool) (w : env.World)
      → Calm (some (give_up env waiting handle wait cancel_on_timeout w))
  unfolding give_up Calm
  give_up-Calm handle wait false w = refl
  give_up-Calm handle wait true w =
      cancelled-Calm (timeout_error env waiting handle wait)
        (cancel env (waiting.handle_text handle) w) refl

  look-Calm :
      (loop : env.World → Option (Polled env waiting)) (deadline : ℕ) (handle : Value) (wait : ℕ)
      (cancel_on_timeout : Bool) (answer : Result Exc StatementResponse × Sending env)
      → ((e : Exc) → answer.0 ≡ err e → is_cancelled e ≡ false)
      → ((w : env.World) → Calm (loop w))
      → Calm (look env waiting loop deadline handle wait cancel_on_timeout answer)
  unfolding look Calm
  look-Calm loop deadline handle wait cot (err e, s) quiet later = quiet e refl
  look-Calm loop deadline handle wait cot (ok r, s) quiet later = elim (Bool-cases (is_running r)) [
    | inr done ↦ rw done tt
    | inl running ↦ rw running (
        let (now, w) = waiting.monotonic s.world in
        elim (Bool-cases (leb deadline now)) [
          | inl over ↦ rw over (give_up-Calm handle wait cot w)
          | inr early ↦ rw early (later (waiting.pause w))
        ])
  ]

  poll_until-Calm :
      (fuel deadline : ℕ) (handle : Value) (wait : ℕ) (cancel_on_timeout : Bool) (w : env.World)
      → Calm (poll_until env waiting fuel deadline handle wait cancel_on_timeout w)
  unfolding poll_until Calm
  poll_until-Calm zero deadline handle wait cot w = tt
  poll_until-Calm (suc fuel) deadline handle wait cot w =
      look-Calm (poll_until env waiting fuel deadline handle wait cot) deadline handle wait cot
        (get_statement env (waiting.handle_text handle) none w)
        (calm.reads (waiting.handle_text handle) w)
        (λ w1. poll_until-Calm fuel deadline handle wait cot w1)

  on_cancelled-Calm :
      (fuel : ℕ) (handle : Value) (cancel_on_timeout : Bool) (o : Option (Polled env waiting))
      → Calm o
      → on_cancelled env waiting tasks fuel handle cancel_on_timeout o ≡ o
  unfolding on_cancelled Calm
  on_cancelled-Calm fuel handle cot none quiet = refl
  on_cancelled-Calm fuel handle cot (some (ok r, w)) quiet = refl
  on_cancelled-Calm fuel handle cot (some (err e, w)) quiet = rw quiet refl

  -- Where no request and no sleep is cut off by a task cancellation, the poll of the asynchronous
  -- client makes the requests of the synchronous one and ends as it does.
  pub async_poll-poll :
      (fuel : ℕ) (handle : Value) (limit : Option ℕ) (cancel_on_timeout : Bool) (w : env.World)
      → async_poll env waiting tasks fuel handle limit cancel_on_timeout w
        ≡ poll env waiting fuel handle limit cancel_on_timeout w
  unfolding async_poll poll
  async_poll-poll fuel handle limit cot w0 =
      let (begun, w) = waiting.monotonic w0 in
      let deadline = begun + wait_of limit in
      ap (on_cancelled env waiting tasks fuel handle cot)
        (poll_until_agrees fuel deadline handle (wait_of limit) cot w)
      ∙ on_cancelled-Calm fuel handle cot
          (poll_until env waiting fuel deadline handle (wait_of limit) cot w)
          (poll_until-Calm fuel deadline handle (wait_of limit) cot w)
