-- ===== src/Transport/Attempts.antt =====
-- How many requests `_send` makes, and what it reports of them.
use snowflake_sql_api.Common.{
  ℕ, zero, suc, ◌+◌, ◌≤◌, Text, Bool, Option, none, some, List, [], ◌∷◌, ◌++◌, Result, ok, err, ◌≡◌,
  ◌∙◌, ap, refl, arith, length, Result-cases, Bool-cases, ◌⊎◌, inl, inr, append_assoc, append-nil,
  sym, if◌then◌else◌,
}
use snowflake_sql_api.Errors.{Exc, raised, raised_from, cancel_failed, info}
use snowflake_sql_api.Transport.{Response, StatementResponse, interpret}
use snowflake_sql_api.Transport.Send.{
  Environment, Params, Payload, Request, Reply, responded, transport_error, other_error, Sending,
  Ending, returned, raises, Verdict, again, ended, judge, receive, signed, exchange, rested,
  attempt, go_round, rounds, annotate, send, start, make_request, with_retry, after_request,
  counted, conclude,
}

module _ (env : Environment) where
  -- The variables that a loop or a round leaves.
  abbrev pub left_by : Ending env → Sending env
  left_by (returned r s) = s
  left_by (raises e s) = s

  abbrev pub state_of : Verdict env → Sending env
  state_of (again s) = s
  state_of (ended e) = left_by e

  -- No request was made in between.
  abbrev pub Quiet : Sending env → Sending env → Type 0
  Quiet s t = (t.sent ≡ s.sent) × (t.attempts ≡ s.attempts) × (t.params ≡ s.params)

  module _ (method path : Text) (payload : Payload) (is_submit : Bool) where
    judge-Quiet :
        (r : Response) (s : Sending env)
        → Quiet s (state_of (judge env method path payload is_submit r s))
    unfolding judge
    judge-Quiet r s = elim (Bool-cases (env.should_retry_status r.status_code)) [
      | inl again_later ↦ rw again_later (refl, refl, refl)
      | inr now ↦ rw now (elim (Result-cases (interpret r)) [
        | inl (response, h) ↦ rw h (refl, refl, refl)
        | inr (e, h) ↦ rw h (refl, refl, refl)
      ])
    ]

    receive-Quiet :
        (reply : Reply) (s : Sending env)
        → Quiet s (state_of (receive env method path payload is_submit reply s))
    receive-Quiet (responded r) s = judge-Quiet r s
    receive-Quiet (transport_error e) s = (refl, refl, refl)
    receive-Quiet (other_error e) s = (refl, refl, refl)

    -- A round makes no request, or the one that its variables describe; it makes one if another
    -- round follows it.
    abbrev pub Asked : Sending env → Sending env → Type 0
    Asked s t =
        (t.sent ≡ s.sent ++ make_request env method path payload is_submit s ∷ [])
        × (t.attempts ≡ s.attempts + 1)
        × (t.params ≡ s.params)

    abbrev pub Round : Sending env → Verdict env → Type 0
    Round s (again t) = Asked s t
    Round s (ended e) = Asked s (left_by e) ⊎ Quiet s (left_by e)

    Asked-Round :
        (s s' : Sending env) (v : Verdict env) → Asked s s' → Quiet s' (state_of v) → Round s v
    Asked-Round s s' (again t) (a, n, p) (b, m, q) = (b ∙ a, m ∙ n, q ∙ p)
    Asked-Round s s' (ended e) (a, n, p) (b, m, q) = inl (b ∙ a, m ∙ n, q ∙ p)

    signed-Round :
        (e : Option Exc) (s : Sending env) → Round s (signed env method path payload is_submit e s)
    signed-Round (some e) s = inr (refl, refl, refl)
    signed-Round none s =
        let answer = env.request (make_request env method path payload is_submit s) s.world in
        let t = after_request env method path payload is_submit s answer.1 in
        Asked-Round s t (receive env method path payload is_submit answer.0 t) (refl, refl, refl)
          (receive-Quiet answer.0 t)

    -- The parameters of round `n`, from those of the round before it.
    abbrev pub params_of : ℕ → Option Params → Option Params
    params_of zero ps = ps
    params_of (suc n) ps = with_retry env method path payload is_submit ps

    abbrev pub prepared : ℕ → Sending env → Sending env
    prepared n s = record s { params = params_of n s.params }

    exchange-Round : (s : Sending env) → Round s (exchange env method path payload is_submit s)
    unfolding exchange
    exchange-Round s = signed-Round (env.headers s.world).0 _

    rested-Round :
        (e : Option Exc) (s : Sending env) → Round s (rested env method path payload is_submit e s)
    rested-Round (some e) s = inr (refl, refl, refl)
    rested-Round none s = exchange-Round s

    attempt-Round :
        (n : ℕ) (s : Sending env)
        → Round (prepared n s) (attempt env method path payload is_submit n s)
    unfolding attempt
    attempt-Round zero s = exchange-Round s
    attempt-Round (suc n) s = rested-Round (env.sleep n s.retry_response s.world).0 _

    abbrev pub request_with : Option Params → Request
    request_with ps = record { method = method; path = path; params = ps; payload = payload }

    -- The requests of `k` rounds from round `n` on.
    abbrev pub requests_from : ℕ → ℕ → Option Params → List Request
    requests_from zero n ps = []
    requests_from (suc k) n ps =
        request_with (params_of n ps) ∷ requests_from k (suc n) (params_of n ps)

    -- The loop made the requests of its first `k` rounds, and counted them.
    abbrev pub Made : ℕ → ℕ → Sending env → Sending env → Type 0
    Made left n s t =
        (k : ℕ) × (k ≤ left)
        × (t.sent ≡ s.sent ++ requests_from k n s.params)
        × (t.attempts ≡ s.attempts + k)

    Made-suc :
        (left n : ℕ) (s t u : Sending env)
        → Asked (prepared n s) t
        → Made left (suc n) t u
        → Made (suc left) n s u
    Made-suc left n s t u (a, c, p) (k, le, b, d) = (
      suc k,
      omega arith,
      b
          ∙ ap (λ ps. t.sent ++ requests_from k (suc n) ps) p
          ∙ ap (λ xs. xs ++ requests_from k (suc n) (params_of n s.params)) a
          ∙ append_assoc s.sent (request_with (params_of n s.params) ∷ [])
              (requests_from k (suc n) (params_of n s.params)),
      omega arith,
    )

    rounds-Made :
        (left n : ℕ) (s : Sending env)
        → Made left n s (left_by (rounds env method path payload is_submit left n s))
    unfolding rounds
    rounds-Made zero n s = (0, omega arith, sym (append-nil s.sent), omega arith)
    rounds-Made (suc left) n s =
        go (attempt env method path payload is_submit n s) (attempt-Round n s)
          (λ t. rounds-Made left (suc n) t)
      where
        go :
            (v : Verdict env)
            → Round (prepared n s) v
            → ((t : Sending env)
                → Made left
                    (suc n)
                    t
                    (left_by (rounds env method path payload is_submit left (suc n) t)))
            → Made (suc left) n s (
                left_by (
                  go_round env method path payload is_submit
                    (rounds env method path payload is_submit left (suc n))
                    v))
        go (again t) r rec =
            Made-suc left n s t (left_by (rounds env method path payload is_submit left (suc n) t))
              r (rec t)
        go (ended e) (inl (a, c, p)) rec = (1, omega arith, a, c)
        go (ended e) (inr (a, c, p)) rec =
            (0, omega arith, a ∙ sym (append-nil s.sent), omega arith)

    length-requests_from : (k n : ℕ) (ps : Option Params) → length (requests_from k n ps) ≡ k
    length-requests_from zero n ps = refl
    length-requests_from (suc k) n ps = ap suc (length-requests_from k (suc n) (params_of n ps))

    -- The requests that `_send` makes are those of its first rounds, in order, and at most
    -- `max_attempts`.
    pub send_requests :
        (ps : Option Params) (w : env.World)
        → (k : ℕ) × (k ≤ env.max_attempts)
          × ((send env method path payload is_submit ps w).1.sent ≡ requests_from k 0 ps)
          × ((send env method path payload is_submit ps w).1.attempts ≡ k)
    unfolding send
    send_requests ps w =
        go (rounds env method path payload is_submit env.max_attempts 0 (start env ps w))
          (rounds-Made env.max_attempts 0 (start env ps w))
      where
        go :
            (e : Ending env)
            → Made env.max_attempts 0 (start env ps w) (left_by e)
            → (k : ℕ) × (k ≤ env.max_attempts)
              × ((conclude env method path payload is_submit e).1.sent ≡ requests_from k 0 ps)
              × ((conclude env method path payload is_submit e).1.attempts ≡ k)
        go (returned r t) (k, le, a, c) = (k, le, a, omega arith)
        go (raises e t) (k, le, a, c) = (k, le, a, omega arith)

    -- The count that a submission reports with its result or with its exception.
    abbrev pub reported : Result Exc StatementResponse → Option ℕ
    reported (ok r) = r.submission_attempts
    reported (err e) = (info e).submission_attempts

    info-annotate :
        (e : Exc) (s : Sending env)
        → (info (annotate env method path payload is_submit e s)).submission_attempts
          ≡ counted env method path payload is_submit s.attempts
    unfolding annotate
    info-annotate (raised i) s = refl
    info-annotate (raised_from i c) s = refl
    info-annotate (cancel_failed i c) s = refl

    reported-conclude :
        (e : Ending env)
        → reported (conclude env method path payload is_submit e).0
          ≡ counted env method path payload is_submit
              (conclude env method path payload is_submit e).1.attempts
    reported-conclude (returned r s) = refl
    reported-conclude (raises e s) = info-annotate e s

    -- A submission reports with its result, and with every exception, the number of requests that
    -- were made for it, which is at most `max_attempts`; another call reports no number.
    pub send_reports :
        (ps : Option Params) (w : env.World)
        → (reported (send env method path payload is_submit ps w).0 ≡ (
            if is_submit
            then some (length (send env method path payload is_submit ps w).1.sent)
            else none))
          × (length (send env method path payload is_submit ps w).1.sent ≤ env.max_attempts)
    send_reports ps w =
        let (k, le, a, c) = send_requests ps w in
        let n : length (send env method path payload is_submit ps w).1.sent ≡ k =
          ap length a ∙ length-requests_from k 0 ps in
        (
          unfold send in
              reported-conclude
                (rounds env method path payload is_submit env.max_attempts 0 (start env ps w))
              ∙ ap (counted env method path payload is_submit) (c ∙ sym n),
          omega arith,
        )
