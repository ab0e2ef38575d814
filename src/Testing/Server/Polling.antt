-- ===== src/Testing/Server/Polling.antt =====
-- `_poll` of client.py over `FakeSnowflake`.
use snowflake_sql_api.Common.{
  ℕ, zero, suc, ◌+◌, ◌*◌, ◌≤◌, ◌<◌, Text, codes, Bool, false, Option, none, some, ok, ◌≡◌, refl, ap,
  ◌∙◌, inl, inr, arith, Lacks, leb,
}
use native.Mathlib.Nat.{suc-mul}
use snowflake_sql_api.Common.Dict.{find, insert, find-insert}
use snowflake_sql_api.Errors.{Value, Fields}
use snowflake_sql_api.Transport.{is_running}
use snowflake_sql_api.Transport.Send.{Request, Environment, get_param}
use snowflake_sql_api.Client.Poll.{Waiting, Polled, wait_of, look, poll_until, poll}
use snowflake_sql_api.Testing.Bodies.{running_body}
use snowflake_sql_api.Testing.Registry.{Registration}
use snowflake_sql_api.Testing.State.{State, FakeSnowflake}
use snowflake_sql_api.Testing.Server.{Codec, respond, replied, handle, result_body, result_response}
use snowflake_sql_api.Testing.Server.Served.{
  IsServed, asks, asked, answer_of, logged, handle-asks, get_statement-served,
}

-- The waiting leaves the fake alone, its clock is `now`, and no call of the environment and no
-- pause takes more than `step` ticks.
pub record IsPaced (env : Environment) (waiting : Waiting env) (fake : env.World → FakeSnowflake)
    (now : env.World → ℕ) (step : ℕ) : Type 0 where
  pub headers : (w : env.World) → now (env.headers w).1 ≤ now w + step
  pub request : (r : Request) (w : env.World) → now (env.request r w).1 ≤ now w + step
  pub read : (w : env.World) → (waiting.monotonic w).0 ≡ now w
  pub monotonic : (w : env.World) → now (waiting.monotonic w).1 ≤ now w + step
  pub monotonic_same : (w : env.World) → fake (waiting.monotonic w).1 ≡ fake w
  pub pause : (w : env.World) → now (waiting.pause w) ≤ now w + step
  pub pause_same : (w : env.World) → fake (waiting.pause w) ≡ fake w

-- A poll too many is counted down, and the last one has the result.
abbrev pub counted_down : Text → State → ℕ → FakeSnowflake → FakeSnowflake
counted_down name state n f =
    let g = logged (asks name none) f in
    record g { states = insert name (record state { remaining_polls = n }) g.states }

handle-running :
    (codec : Codec) (name : Text) (f : FakeSnowflake) (state : State) (n : ℕ)
    → Lacks 47 name
    → find name f.states ≡ some state
    → state.remaining_polls ≡ suc n
    → handle codec (asks name none) f
      ≡ (respond codec 202 (running_body name (codes "333334")), counted_down name state n f)
unfolding get_param
handle-running codec name f state n plain_name found left =
    handle-asks codec name none f plain_name ∙ rw found (rw left refl)

handle-ready :
    (codec : Codec) (name : Text) (f : FakeSnowflake) (state : State) {body : Fields}
    → Lacks 47 name
    → find name f.states ≡ some state
    → state.remaining_polls ≡ 0
    → result_body codec name f ≡ ok body
    → handle codec (asks name none) f ≡ (respond codec 200 body, logged (asks name none) f)
unfolding get_param result_response result_body
handle-ready codec name f state plain_name found left given =
    handle-asks codec name none f plain_name
    ∙ rw found (rw left (ap (λ r. (replied codec 200 r, logged (asks name none) f)) given))

result_body-counted_down :
    (codec : Codec) (name : Text) (f : FakeSnowflake) (state : State) (n : ℕ)
    → find name f.states ≡ some state
    → result_body codec name (counted_down name state n f) ≡ result_body codec name f
unfolding result_body
result_body-counted_down codec name f state n found =
    rw found (rw (find-insert name (record state { remaining_polls = n }) f.states) refl)

module _ (codec : Codec) (env : Environment) (waiting : Waiting env)
    (fake : env.World → FakeSnowflake) (now : env.World → ℕ) (step : ℕ)
    (served : IsServed codec env fake) (paced : IsPaced env waiting fake now step) (name : Text)
    (plain_name : Lacks 47 name) (body : Fields) where
  asked-later : (w : env.World) → now (asked env name none w) ≤ now w + step + step
  asked-later w = omega (arith, paced.headers w, paced.request (asks name none) (env.headers w).1)

  -- The result is given, and the fake holds it for the statement, with no poll left.
  abbrev pub Gives : Registration → Option (Polled env waiting) → Type 0
  Gives reg o =
      (w : env.World) × (o ≡ some (ok (answer_of 200 body), w))
      × (find name (fake w).states ≡ some (record { reg = reg; remaining_polls = 0 }))

  module _ (key : Value) (named : waiting.handle_text key ≡ name) (cancels : Bool) where
    poll_until-served :
        (deadline wait n fuel : ℕ) (w : env.World) (state : State)
        → find name (fake w).states ≡ some state
        → state.remaining_polls ≡ n
        → result_body codec name (fake w) ≡ ok body
        → n < fuel
        → now w + n * (4 * step) < deadline
        → Gives state.reg (poll_until env waiting fuel deadline key wait cancels w)
    unfolding poll_until look is_running
    poll_until-served deadline wait n zero w state found left given enough early =
        let none_left : ⊥ = omega arith in absurd none_left
    poll_until-served deadline wait zero (suc fuel) w state found left given enough early =
        let (s, gives, there, moved) =
          get_statement-served codec env fake served name none w 200 body (inl refl)
            (handle-ready codec name (fake w) state plain_name found left given) in
        (
          s.world,
          rw named (rw gives refl),
          ap (λ f. find name f.states) moved
              ∙ found
              ∙ ap (λ n. some (record state { remaining_polls = n })) left,
        )
    poll_until-served deadline wait (suc n) (suc fuel) w state found left given enough early =
        let (s, gives, there, moved) =
          get_statement-served codec env fake served name none w 202
            (running_body name (codes "333334")) (inr refl)
            (handle-running codec name (fake w) state n plain_name found left) in
        let later : now s.world ≤ now w + step + step = rw there (asked-later w) in
        let total = suc-mul n (4 * step) in
        let in_time : leb deadline (waiting.monotonic s.world).0 ≡ false =
          ground (arith, paced.read s.world) in
        let w1 = (waiting.monotonic s.world).1 in
        let same : fake (waiting.pause w1) ≡ counted_down name state n (fake w) =
          paced.pause_same w1 ∙ paced.monotonic_same s.world ∙ moved in
        let rest =
          poll_until-served deadline wait n fuel (waiting.pause w1)
            (record state { remaining_polls = n })
            (ap (λ f. find name f.states) same
              ∙ find-insert name (record state { remaining_polls = n }) (fake w).states)
            refl
            (ap (result_body codec name) same
              ∙ result_body-counted_down codec name (fake w) state n found
              ∙ given)
            (omega (arith, enough))
            (omega (arith, early, later, total, paced.monotonic s.world, paced.pause w1)) in
        rw named (rw gives (rw in_time rest))

    -- A statement that the fake counts `n` polls for is polled to its result: with fuel for a
    -- look more than that, and with a limit that the looks before the last one stay within,
    -- `_poll` ends with the result's body.
    pub poll-served :
        (limit : Option ℕ) (n fuel : ℕ) (w : env.World) (state : State)
        → find name (fake w).states ≡ some state
        → state.remaining_polls ≡ n
        → result_body codec name (fake w) ≡ ok body
        → n < fuel
        → step + n * (4 * step) < wait_of limit
        → Gives state.reg (poll env waiting fuel key limit cancels w)
    unfolding poll
    poll-served limit n fuel w state found left given enough early =
        let (begun, w1) = waiting.monotonic w in
        let same = paced.monotonic_same w in
        poll_until-served (begun + wait_of limit) (wait_of limit) n fuel w1 state
          (ap (λ f. find name f.states) same ∙ found) left
          (ap (result_body codec name) same ∙ given) enough
          (omega (arith, early, paced.read w, paced.monotonic w))
