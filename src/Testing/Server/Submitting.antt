-- ===== src/Testing/Server/Submitting.antt =====
-- `submit` of transport.py over `FakeSnowflake`: a statement that is registered gets a new handle.
use snowflake_sql_api.Common.{
  ℕ, suc, ◌+◌, Text, codes, true, false, none, some, [], ◌∷◌, ◌++◌, ok, ◌≡◌, refl, ap, ◌∙◌, ltb,
  arith, text_eq,
}
use snowflake_sql_api.Common.Dict.{find, insert}
use snowflake_sql_api.Errors.{str, Fields, get_or}
use snowflake_sql_api.Transport.Send.{Request, json, get_param}
use snowflake_sql_api.Transport.Calls.{statements_path}
use snowflake_sql_api.Testing.Bodies.{running_body}
use snowflake_sql_api.Testing.Registry.{Registration}
use snowflake_sql_api.Testing.State.{State, FakeSnowflake, handle_name, next_handle, lookup}
use snowflake_sql_api.Testing.Server.{
  Codec, respond, replied, started, handle, routed, on_submit, statement_of, result_body,
  result_response,
}

-- `submit`'s request, not asynchronous and no retry
abbrev pub submission : Text → Fields → Request
submission id payload = record {
  method = codes "POST";
  path = statements_path;
  params = some ((codes "requestId", id) ∷ []);
  payload = json payload;
}

-- The state of a statement that was just submitted, and the fake that holds it.
abbrev pub fresh : Registration → State
fresh reg = record { reg = reg; remaining_polls = reg.polls_before_ready }

abbrev pub begun_as : Request → Registration → FakeSnowflake → FakeSnowflake
begun_as q reg f = record f {
  requests = f.requests ++ q ∷ [];
  counter = f.counter + 1;
  states = insert (handle_name (f.counter + 1)) (fresh reg) f.states;
}

module _ (codec : Codec) (id sql : Text) (payload : Fields) (f : FakeSnowflake) (reg : Registration)
    (states_it : get_or (codes "statement") payload (str []) ≡ str sql)
    (known : find sql f.exact ≡ some reg) (no_error : reg.error ≡ none) where
  handle-submission :
      handle codec (submission id payload) f
      ≡ started codec
          (submission id payload)
          (handle_name (f.counter + 1))
          reg
          (begun_as (submission id payload) reg f)
  unfolding handle routed on_submit statement_of lookup next_handle text_eq
  handle-submission = rw states_it (rw known (rw no_error refl))

  pub handle-submission_running :
      (n : ℕ)
      → reg.polls_before_ready ≡ suc n
      → handle codec (submission id payload) f ≡ (
        respond codec 202 (running_body (handle_name (f.counter + 1)) (codes "333334")),
        begun_as (submission id payload) reg f,
      )
  unfolding get_param text_eq
  handle-submission_running n polls =
      handle-submission
      ∙ (let some_left : ltb 0 reg.polls_before_ready ≡ true = ground (arith, polls) in
          rw some_left refl)

  pub handle-submission_ready :
      {body : Fields}
      → reg.polls_before_ready ≡ 0
      → result_body codec (handle_name (f.counter + 1)) (begun_as (submission id payload) reg f)
        ≡ ok body
      → handle codec (submission id payload) f
        ≡ (respond codec 200 body, begun_as (submission id payload) reg f)
  unfolding get_param text_eq result_response
  handle-submission_ready polls given =
      handle-submission
      ∙ (let none_left : ltb 0 reg.polls_before_ready ≡ false = ground (arith, polls) in
          rw none_left
            (ap (λ r. (replied codec 200 r, begun_as (submission id payload) reg f)) given))
