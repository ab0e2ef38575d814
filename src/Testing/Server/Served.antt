-- ===== src/Testing/Server/Served.antt =====
-- A client whose requests `FakeSnowflake` answers: what its first attempt at a request gives.
use snowflake_sql_api.Common.{
  ℕ, zero, suc, ◌≤◌, ◌⊎◌, inl, inr, ◌++◌, Lacks, text_eq, Text, codes, Bool, false, Option, none,
  some, [], ◌∷◌, Result, ok, ◌≡◌, refl, ap, ◌∙◌, arith, if◌then◌else◌,
}
use snowflake_sql_api.Common.Dict.{find}
use snowflake_sql_api.Errors.{null, Fields, Exc}
use snowflake_sql_api.Transport.{Response, StatementResponse, interpret, json_body}
use snowflake_sql_api.Transport.Send.{
  Environment, no_payload, Request, responded, Sending, Ending, start, signed, judge, exchange,
  attempt, rounds, go_round, conclude, send,
}
use snowflake_sql_api.Transport.Calls.{get_statement, status_path, partition_params}
use snowflake_sql_api.Testing.State.{FakeSnowflake}
use snowflake_sql_api.Testing.Paths.{starts_with, last_segment-status_path}
use snowflake_sql_api.Testing.Server.{Codec, response, respond, known_get, on_get, routed, handle}

-- `get_statement`'s request
abbrev pub asks : Text → Option ℕ → Request
asks name partition = record {
  method = codes "GET";
  path = status_path name;
  params = some (partition_params partition);
  payload = no_payload;
}

-- The requests of the environment reach the fake that its world holds, the headers can be made and
-- leave it alone, and a request is tried once at least. The statuses of an answer are not retried.
pub record IsServed (codec : Codec) (env : Environment) (fake : env.World → FakeSnowflake)
    : Type 0 where
  pub headers : (w : env.World) → ((env.headers w).0 ≡ none) × (fake (env.headers w).1 ≡ fake w)
  pub request :
      (r : Request) (w : env.World)
      → ((env.request r w).0 ≡ (handle codec r (fake w)).0)
        × (fake (env.request r w).1 ≡ (handle codec r (fake w)).1)
  pub attempts : 1 ≤ env.max_attempts
  pub ready : env.should_retry_status 200 ≡ false
  pub pending : env.should_retry_status 202 ≡ false

abbrev pub answer_with : Option ℕ → ℕ → Fields → StatementResponse
answer_with attempts status body = record {
  status_code = status;
  body = body;
  submission_attempts = attempts;
  submission_handle = null;
}

abbrev pub answer_of : ℕ → Fields → StatementResponse
answer_of = answer_with none

module _ (env : Environment) where
  -- The world behind one request.
  abbrev pub behind : Request → env.World → env.World
  behind r w = (env.request r (env.headers w).1).1

  abbrev pub asked : Text → Option ℕ → env.World → env.World
  asked name partition w = behind (asks name partition) w

  module _ (q : Request) (is_submit : Bool) (w : env.World) (r : Response) (status : ℕ)
      (body : Fields) where
    abbrev pub Gives : Result Exc StatementResponse × Sending env → Type 0
    Gives answer =
        (s : Sending env) × (answer
          ≡ (ok (answer_with (if is_submit then some 1 else none) status body), s))
        × (s.world ≡ behind q w)

    abbrev Loop : Type 0
    Loop = Sending env → Ending env

    module _ (kept : env.should_retry_status r.status_code ≡ false)
        (read : interpret r ≡ ok (answer_of status body)) where
      judge-Gives :
          (loop : Loop) (s : Sending env)
          → s.known_handle ≡ null
          → s.attempts ≡ 1
          → s.world ≡ behind q w
          → Gives (
              conclude env q.method q.path q.payload is_submit (
                go_round env q.method q.path q.payload is_submit loop
                  (judge env q.method q.path q.payload is_submit r s)))
      unfolding judge
      judge-Gives loop s fresh first here = rw kept (
          rw read (
            s,
            ap
                  (λ h. (
                    ok
                        (record (answer_with (if is_submit then some s.attempts else none) status
                          body) { submission_handle = h }),
                    s,
                  ))
                  fresh
                ∙ ap (λ n. (ok (answer_with (if is_submit then some n else none) status body), s))
                    first,
            here,
          ))

      signed-Gives :
          (loop : Loop) (refusal : Option Exc)
          → refusal ≡ none
          → (env.request q (env.headers w).1).0 ≡ responded r
          → Gives (
              conclude env q.method q.path q.payload is_submit (
                go_round env q.method q.path q.payload is_submit loop (
                  signed env q.method q.path q.payload is_submit refusal
                    (record (start env q.params w) { world = (env.headers w).1 }))))
      signed-Gives loop (some e) quiet served = cc
      signed-Gives loop none quiet served = rw served (judge-Gives loop _ refl (omega arith) refl)

      rounds-Gives :
          (env.headers w).0 ≡ none
          → (env.request q (env.headers w).1).0 ≡ responded r
          → (n : ℕ) → 1 ≤ n
          → Gives (
              conclude env q.method q.path q.payload is_submit
                (rounds env q.method q.path q.payload is_submit n 0 (start env q.params w)))
      unfolding rounds attempt exchange
      rounds-Gives quiet served zero some_left = let none_left : ⊥ = omega arith in absurd none_left
      rounds-Gives quiet served (suc n) some_left =
          signed-Gives (rounds env q.method q.path q.payload is_submit n 1) (env.headers w).0 quiet
            served

      -- A request that is answered with a result gives it, in one attempt.
      pub send-Gives :
          (env.headers w).0 ≡ none
          → (env.request q (env.headers w).1).0 ≡ responded r
          → 1 ≤ env.max_attempts
          → Gives (send env q.method q.path q.payload is_submit q.params w)
      unfolding send
      send-Gives quiet served some_left = rounds-Gives quiet served env.max_attempts some_left

abbrev pub logged : Request → FakeSnowflake → FakeSnowflake
logged r f = record f { requests = f.requests ++ r ∷ [] }

-- The fake routes the request for a handle to that handle's state.
pub handle-asks :
    (codec : Codec) (name : Text) (partition : Option ℕ) (f : FakeSnowflake)
    → Lacks 47 name
    → handle codec (asks name partition) f
      ≡ known_get codec
          (asks name partition)
          name
          (logged (asks name partition) f)
          (find name f.states)
unfolding handle routed on_get text_eq starts_with
handle-asks codec name partition f plain_name =
    ap
      (λ n.
        known_get codec (asks name partition) n (logged (asks name partition) f) (find n f.states))
      (last_segment-status_path name plain_name)

module _ (codec : Codec) (env : Environment) (fake : env.World → FakeSnowflake)
    (served : IsServed codec env fake) where
  kept : (status : ℕ) → (status ≡ 200) ⊎ (status ≡ 202) → env.should_retry_status status ≡ false
  kept status (inl done) = rw done served.ready
  kept status (inr running) = rw running served.pending

  read :
      (status : ℕ) (body : Fields)
      → (status ≡ 200) ⊎ (status ≡ 202)
      → interpret (response codec status body) ≡ ok (answer_of status body)
  unfolding interpret json_body
  read status body (inl done) = rw done refl
  read status body (inr running) = rw running refl

  -- The answer that the fake has for a request is what the client gets.
  pub send-served :
      (q : Request) (is_submit : Bool) (w : env.World) (status : ℕ) (body : Fields)
      {f : FakeSnowflake}
      → (status ≡ 200) ⊎ (status ≡ 202)
      → handle codec q (fake w) ≡ (respond codec status body, f)
      → (s : Sending env) × (send env q.method q.path q.payload is_submit q.params w
          ≡ (ok (answer_with (if is_submit then some 1 else none) status body), s))
        × (s.world ≡ behind env q w)
        × (fake s.world ≡ f)
  send-served q is_submit w status body {f} is answers =
      let (quiet, same) = served.headers w in
      let (replies, moves) = served.request q (env.headers w).1 in
      let handled : handle codec q (fake (env.headers w).1) ≡ (respond codec status body, f) =
        ap (handle codec q) same ∙ answers in
      let (s, gives, there) =
        send-Gives env q is_submit w (response codec status body) status body (kept status is)
          (read status body is) quiet (replies ∙ ap (λ p. p.0) handled) served.attempts in
      (s, gives, there, ap fake there ∙ moves ∙ ap (λ p. p.1) handled)

  pub get_statement-served :
      (name : Text) (partition : Option ℕ) (w : env.World) (status : ℕ) (body : Fields)
      {f : FakeSnowflake}
      → (status ≡ 200) ⊎ (status ≡ 202)
      → handle codec (asks name partition) (fake w) ≡ (respond codec status body, f)
      → (s : Sending env) × (get_statement env name partition w ≡ (ok (answer_of status body), s))
        × (s.world ≡ asked env name partition w)
        × (fake s.world ≡ f)
  unfolding get_statement
  get_statement-served name partition w status body is answers =
      send-served (asks name partition) false w status body is answers
