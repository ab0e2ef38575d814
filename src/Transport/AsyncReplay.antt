-- ===== src/Transport/AsyncReplay.antt =====
-- The two transports answer and send alike in the same environment: each round of the one loop is
-- that of the other, whatever the rounds behind it do.
use snowflake_sql_api.Common.{
  ℕ, zero, suc, ◌+◌, false, none, ◌++◌, Text, codes, Bool, true, Option, some, ◌≡◌, refl, ap, ◌∙◌,
  Bool-cases, Result-cases, inl, inr, [], ◌∷◌, ◌&&◌, not,
}
use snowflake_sql_api.Errors.{Exc, Fields, info, truthy}
use snowflake_sql_api.Batches.Encode.{Bytes}
use snowflake_sql_api.Transport.{Response, interpret}
use snowflake_sql_api.Transport.Send.{
  Environment, Params, Payload, no_payload, Reply, responded, transport_error, other_error, Sending,
  Ending, Verdict, again, ended, returned, raises, judge, receive, signed, exchange, with_retry,
  rested, attempt, exhausted, go_round, rounds, annotate, start, conclude, send, make_request,
}
use snowflake_sql_api.Transport.Calls.{
  status_path, partition_params, get_statement, cancel, submit, statements_path, payload_of,
  submit_params,
}
use snowflake_sql_api.Transport.Async.{
  async_judge, async_answered, async_signed, async_exchange, async_with_retry, async_rested,
  async_round, async_exhausted, async_rounds, settle_send, async_send, async_submit,
  async_get_statement, async_cancel,
}

module _ (env : Environment) where
  module _ (method path : Text) (payload : Payload) (is_submit : Bool)
      (loop : Sending env → Ending env) where
    async_judge-judge :
        (r : Response) (s : Sending env)
        → async_judge env method path payload is_submit loop r s
          ≡ go_round env method path payload is_submit loop
              (judge env method path payload is_submit r s)
    unfolding async_judge judge
    async_judge-judge r s = elim (Bool-cases (env.should_retry_status r.status_code)) [
      | inl again_later ↦ rw again_later refl
      | inr now ↦ rw now (elim (Result-cases (interpret r)) [
        | inl (response, h) ↦ rw h refl
        | inr (e, h) ↦ rw h refl
      ])
    ]

    async_answered-receive :
        (s : Sending env) (reply : Reply) (w : env.World)
        → async_answered env method path payload is_submit loop s (reply, w)
          ≡ go_round env method path payload is_submit loop
              (receive env method path payload is_submit reply (record s { world = w }))
    async_answered-receive s (responded r) w = async_judge-judge r (record s { world = w })
    async_answered-receive s (transport_error e) w = refl
    async_answered-receive s (other_error e) w = refl

    async_signed-signed :
        (s : Sending env) (refusal : Option Exc) (w : env.World)
        → async_signed env method path payload is_submit loop s (refusal, w)
          ≡ go_round env method path payload is_submit loop
              (signed env method path payload is_submit refusal (record s { world = w }))
    async_signed-signed s (some e) w = refl
    async_signed-signed s none w =
        let r = make_request env method path payload is_submit s in
        let (reply, w1) = env.request r w in
        async_answered-receive
          (record s { attempts = s.attempts + 1; sent = s.sent ++ r ∷ []; world = w }) reply w1

    async_exchange-exchange :
        (s : Sending env)
        → async_exchange env method path payload is_submit loop s
          ≡ go_round env method path payload is_submit loop
              (exchange env method path payload is_submit s)
    unfolding async_exchange exchange
    async_exchange-exchange s =
        let (refusal, w) = env.headers s.world in
        async_signed-signed (record s { retry_response = none }) refusal w

    async_with_retry-with_retry :
        (ps : Option Params)
        → async_with_retry env method path payload is_submit ps
          ≡ with_retry env method path payload is_submit ps
    async_with_retry-with_retry none = refl
    async_with_retry-with_retry (some ps) = elim (Bool-cases is_submit) [
      | inl submits ↦ rw submits refl
      | inr other ↦ rw other refl
    ]

    async_rested-rested :
        (s : Sending env) (e : Option Exc) (w : env.World)
        → async_rested env method path payload is_submit loop s (e, w)
          ≡ go_round env method path payload is_submit loop
              (rested env method path payload is_submit e (record s { world = w }))
    async_rested-rested s (some e) w = refl
    async_rested-rested s none w = async_exchange-exchange (record s { world = w })

    async_round-attempt :
        (n : ℕ) (s : Sending env)
        → async_round env method path payload is_submit loop n s
          ≡ go_round env method path payload is_submit loop
              (attempt env method path payload is_submit n s)
    unfolding async_round attempt
    async_round-attempt zero s = async_exchange-exchange s
    async_round-attempt (suc n) s =
        let (e, w) = env.sleep n s.retry_response s.world in
        rw (← async_with_retry-with_retry s.params) (
          async_rested-rested
            (record s { params = async_with_retry env method path payload is_submit s.params }) e w)

  module _ (method path : Text) (payload : Payload) (is_submit : Bool) where
    async_exhausted-exhausted :
        (last : Option Exc)
        → async_exhausted env method path payload is_submit last
          ≡ exhausted env method path payload is_submit last
    async_exhausted-exhausted none = refl
    async_exhausted-exhausted (some e) = refl

    go_round-ap :
        (f g : Sending env → Ending env) (v : Verdict env)
        → ((t : Sending env) → f t ≡ g t)
        → go_round env method path payload is_submit f v
          ≡ go_round env method path payload is_submit g v
    go_round-ap f g (again t) same = same t
    go_round-ap f g (ended e) same = refl

    async_rounds-rounds :
        (left n : ℕ) (s : Sending env)
        → async_rounds env method path payload is_submit left n s
          ≡ rounds env method path payload is_submit left n s
    unfolding async_rounds rounds
    async_rounds-rounds zero n s = ap (λ e. raises e s) (async_exhausted-exhausted s.last_exc)
    async_rounds-rounds (suc left) n s =
        async_round-attempt method path payload is_submit
          (async_rounds env method path payload is_submit left (suc n)) n s
        ∙ go_round-ap (async_rounds env method path payload is_submit left (suc n))
            (rounds env method path payload is_submit left (suc n))
            (attempt env method path payload is_submit n s)
            (λ t. async_rounds-rounds left (suc n) t)

    settle_send-conclude :
        (e : Ending env)
        → settle_send env method path payload is_submit e
          ≡ conclude env method path payload is_submit e
    unfolding annotate
    settle_send-conclude (returned r s) = refl
    settle_send-conclude (raises e s) =
        elim (Bool-cases (truthy s.known_handle && not (truthy (info e).statement_handle))) [
          | inl known ↦ rw known refl
          | inr other ↦ rw other refl
        ]

    pub async_send-send :
        (params : Option Params) (w : env.World)
        → async_send env method path payload is_submit params w
          ≡ send env method path payload is_submit params w
    unfolding async_send send
    async_send-send params w =
        ap (settle_send env method path payload is_submit)
          (async_rounds-rounds env.max_attempts 0 (start env params w))
        ∙ settle_send-conclude
            (rounds env method path payload is_submit env.max_attempts 0 (start env params w))

  -- A submission through the retry loop of the asynchronous transport makes the requests, and
  -- leaves the variables and the world, of the loop of the synchronous one, and ends as it does.
  pub async_submit-submit :
      (payload : Fields) (id : Text) (async_exec retry : Bool) (bytes : Option Bytes)
      (w : env.World)
      → async_submit env payload id async_exec retry bytes w
        ≡ submit env payload id async_exec retry bytes w
  unfolding async_submit submit
  async_submit-submit payload id async_exec retry bytes w =
      async_send-send (codes "POST") statements_path (payload_of payload bytes) true
        (some (submit_params id async_exec retry)) w

  pub async_get_statement-get_statement :
      (handle : Text) (partition : Option ℕ) (w : env.World)
      → async_get_statement env handle partition w ≡ get_statement env handle partition w
  unfolding async_get_statement get_statement
  async_get_statement-get_statement handle partition w =
      async_send-send (codes "GET") (status_path handle) no_payload false
        (some (partition_params partition)) w

  pub async_cancel-cancel :
      (handle : Text) (w : env.World) → async_cancel env handle w ≡ cancel env handle w
  unfolding async_cancel cancel
  async_cancel-cancel handle w =
      async_send-send (codes "POST") (status_path handle ++ codes "/cancel") no_payload false none w
