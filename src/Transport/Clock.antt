-- ===== src/Transport/Clock.antt =====
-- Time across `_send`: whatever the client, the authenticator and the waiting do, the clock that
-- they do not turn back is not behind when the call has ended.
use snowflake_sql_api.Common.{
  ℕ, zero, suc, ◌≤◌, Text, Bool, Option, none, some, Result-cases, Bool-cases, ◌≡◌, refl, inl, inr,
  arith,
}
use snowflake_sql_api.Errors.{Exc}
use snowflake_sql_api.Transport.{Response, interpret}
use snowflake_sql_api.Transport.Send.{
  Environment, Params, Payload, Reply, responded, transport_error, other_error, Sending, Ending,
  returned, raises, Verdict, again, ended, judge, receive, signed, exchange, rested, attempt,
  go_round, rounds, send, start, make_request, after_request, conclude, with_retry,
}
use snowflake_sql_api.Transport.Attempts.{left_by, state_of}

-- `now` is not turned back by the environment.
pub record IsClock (env : Environment) (now : env.World → ℕ) : Type 0 where
  pub headers_later : (w : env.World) → now w ≤ now (env.headers w).1
  pub request_later : (r : _) (w : env.World) → now w ≤ now (env.request r w).1
  pub sleep_later : (n : ℕ) (r : Option Response) (w : env.World) → now w ≤ now (env.sleep n r w).1

module _ (env : Environment) (now : env.World → ℕ) (clock : IsClock env now) (method path : Text)
    (payload : Payload) (is_submit : Bool) where
  judge-world :
      (r : Response) (s : Sending env)
      → (state_of env (judge env method path payload is_submit r s)).world ≡ s.world
  unfolding judge
  judge-world r s = elim (Bool-cases (env.should_retry_status r.status_code)) [
    | inl again_later ↦ rw again_later refl
    | inr at_once ↦ rw at_once (elim (Result-cases (interpret r)) [
      | inl (response, h) ↦ rw h refl
      | inr (e, h) ↦ rw h refl
    ])
  ]

  receive-world :
      (reply : Reply) (s : Sending env)
      → (state_of env (receive env method path payload is_submit reply s)).world ≡ s.world
  receive-world (responded r) s = judge-world r s
  receive-world (transport_error e) s = refl
  receive-world (other_error e) s = refl

  signed-later :
      (e : Option Exc) (s : Sending env)
      → now s.world ≤ now (state_of env (signed env method path payload is_submit e s)).world
  signed-later (some e) s = omega arith
  signed-later none s =
      let answer = env.request (make_request env method path payload is_submit s) s.world in
      let t = after_request env method path payload is_submit s answer.1 in
      let same = receive-world answer.0 t in
      let later = clock.request_later (make_request env method path payload is_submit s) s.world in
      rw same later

  exchange-later :
      (s : Sending env)
      → now s.world ≤ now (state_of env (exchange env method path payload is_submit s)).world
  unfolding exchange
  exchange-later s =
      let later = clock.headers_later s.world in
      let rest =
        signed-later (env.headers s.world).0
          (record s { retry_response = none; world = (env.headers s.world).1 }) in
      omega (arith, later, rest)

  rested-later :
      (e : Option Exc) (s : Sending env)
      → now s.world ≤ now (state_of env (rested env method path payload is_submit e s)).world
  rested-later (some e) s = omega arith
  rested-later none s = exchange-later s

  attempt-later :
      (n : ℕ) (s : Sending env)
      → now s.world ≤ now (state_of env (attempt env method path payload is_submit n s)).world
  unfolding attempt
  attempt-later zero s = exchange-later s
  attempt-later (suc n) s =
      let later = clock.sleep_later n s.retry_response s.world in
      let rest = rested-later (env.sleep n s.retry_response s.world).0 (record s {
        params = with_retry env method path payload is_submit s.params;
        world = (env.sleep n s.retry_response s.world).1;
      }) in
      omega (arith, later, rest)

  rounds-later :
      (left n : ℕ) (s : Sending env)
      → now s.world ≤ now (left_by env (rounds env method path payload is_submit left n s)).world
  unfolding rounds
  rounds-later zero n s = omega arith
  rounds-later (suc left) n s =
      go (attempt env method path payload is_submit n s) (attempt-later n s)
        (λ t. rounds-later left (suc n) t)
    where
      go :
          (v : Verdict env)
          → now s.world ≤ now (state_of env v).world
          → ((t : Sending env)
              → now t.world
                ≤ now (left_by env (rounds env method path payload is_submit left (suc n) t)).world)
          → now s.world
            ≤ now
                (left_by env (
                  go_round env method path payload is_submit
                    (rounds env method path payload is_submit left (suc n))
                    v)).world
      go (again t) h rec = omega (arith, h, rec t)
      go (ended e) h rec = h

  concluded :
      (e : Ending env)
      → (conclude env method path payload is_submit e).1.world ≡ (left_by env e).world
  concluded (returned r s) = refl
  concluded (raises e s) = refl

  pub send-later :
      (ps : Option Params) (w : env.World)
      → now w ≤ now (send env method path payload is_submit ps w).1.world
  unfolding send
  send-later ps w =
      rw (concluded (rounds env method path payload is_submit env.max_attempts 0 (start env ps w)))
        (rounds-later env.max_attempts 0 (start env ps w))
