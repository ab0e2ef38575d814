-- ===== src/Transport/Replay.antt =====
-- The requests of one submission are the same statement under the same request id.
use snowflake_sql_api.Common.{
  ℕ, zero, suc, ◌+◌, ◌≤◌, Text, codes, Bool, true, false, Option, none, some, [], ◌∷◌, ◌≡◌, refl,
  ap, ◌∙◌, ◌⊎◌, inl, inr, arith, replicate, text_eq, text_eq_refl, if◌then◌else◌, Bool-cases,
}
use snowflake_sql_api.Errors.{Fields}
use snowflake_sql_api.Batches.Encode.{Bytes}
use snowflake_sql_api.Transport.Send.{
  Environment, Params, set_param, get_param, Payload, Request, send,
}
use snowflake_sql_api.Transport.Calls.{statements_path, submit_params, payload_of, submit}
use snowflake_sql_api.Transport.Attempts.{requests_from, request_with, send_requests}

-- Setting a parameter twice is setting it once.
set_param_idem : (k v : Text) (ps : Params) → set_param k v (set_param k v ps) ≡ set_param k v ps
unfolding set_param
set_param_idem k v [] = rw (text_eq_refl k)
set_param_idem k v ((j, w) ∷ ps) = elim (Bool-cases (text_eq j k)) [
  | inl same ↦ rw same (rw (text_eq_refl k))
  | inr other ↦ rw other (rw (other, set_param_idem k v ps))
]

abbrev marked : Params → Params
marked = set_param (codes "retry") (codes "true")

module _ (env : Environment) (method path : Text) (payload : Payload) where
  later_requests :
      (k n : ℕ) (ps : Params)
      → requests_from env method path payload true k (suc n) (some (marked ps))
        ≡ replicate k (request_with env method path payload true (some (marked ps)))
  later_requests zero n ps = refl
  later_requests (suc k) n ps =
      ap
        (λ (qs : Params).
          request_with env method path payload true (some qs)
          ∷ requests_from env method path payload true k (suc (suc n)) (some qs))
        (set_param_idem (codes "retry") (codes "true") ps)
      ∙ ap (λ rs. request_with env method path payload true (some (marked ps)) ∷ rs)
          (later_requests k (suc n) ps)

  -- All requests behind the first are one and the same.
  retried_requests :
      (k n : ℕ) (ps : Params)
      → requests_from env method path payload true k (suc n) (some ps)
        ≡ replicate k (request_with env method path payload true (some (marked ps)))
  retried_requests zero n ps = refl
  retried_requests (suc k) n ps =
      ap (λ rs. request_with env method path payload true (some (marked ps)) ∷ rs)
        (later_requests k (suc n) ps)

submit_params_first :
    (id : Text) (async_exec retry : Bool)
    → (get_param (codes "requestId") (submit_params id async_exec retry) ≡ some id)
      × (get_param (codes "async") (submit_params id async_exec retry)
          ≡ (if async_exec then some (codes "true") else none))
      × (get_param (codes "retry") (submit_params id async_exec retry)
          ≡ (if retry then some (codes "true") else none))
unfolding submit_params get_param text_eq
submit_params_first id true true = (refl, refl, refl)
submit_params_first id true false = (refl, refl, refl)
submit_params_first id false true = (refl, refl, refl)
submit_params_first id false false = (refl, refl, refl)

submit_params-marked :
    (id : Text) (async_exec retry : Bool)
    → (get_param (codes "requestId") (marked (submit_params id async_exec retry)) ≡ some id)
      × (get_param (codes "async") (marked (submit_params id async_exec retry))
          ≡ (if async_exec then some (codes "true") else none))
      × (get_param (codes "retry") (marked (submit_params id async_exec retry))
          ≡ some (codes "true"))
unfolding submit_params get_param text_eq
submit_params-marked id true true = (refl, refl, refl)
submit_params-marked id true false = (refl, refl, refl)
submit_params-marked id false true = (refl, refl, refl)
submit_params-marked id false false = (refl, refl, refl)

-- A request of the submission, with what its `retry` parameter is to be.
abbrev pub Submits : Text → Bool → Payload → Option Text → Request → Type 0
Submits id async_exec payload retry r =
    (ps : Params) × (r.params ≡ some ps)
    × (r.method ≡ codes "POST")
    × (r.path ≡ statements_path)
    × (r.payload ≡ payload)
    × (get_param (codes "requestId") ps ≡ some id)
    × (get_param (codes "async") ps ≡ (if async_exec then some (codes "true") else none))
    × (get_param (codes "retry") ps ≡ retry)

-- Whatever the network does, a submission makes no request at all, or a first one followed by
-- copies of one other request: both post the same body to the statements path under the given
-- request id, the first marked as a retry only if it is asked for, the copies always.
pub submit_replays :
    (env : Environment) (payload : Fields) (id : Text) (async_exec retry : Bool)
    (bytes : Option Bytes) (w : env.World)
    → ((submit env payload id async_exec retry bytes w).1.sent ≡ [])
      ⊎ ((first again : Request) × (k : ℕ) × ((submit env payload id async_exec retry bytes
              w).1.sent
            ≡ first ∷ replicate k again)
          × (k + 1 ≤ env.max_attempts)
          × Submits id async_exec
              (payload_of payload bytes)
              (if retry then some (codes "true") else none)
              first
          × Submits id async_exec (payload_of payload bytes) (some (codes "true")) again)
unfolding submit
submit_replays env payload id async_exec retry bytes w =
    let ps = submit_params id async_exec retry in
    let (k, le, sent, n) =
      send_requests env (codes "POST") statements_path (payload_of payload bytes) true (some ps)
        w in
    go k le sent
  where
    go :
        (k : ℕ)
        → k ≤ env.max_attempts
        → (send env
            (codes "POST")
            statements_path
            (payload_of payload bytes)
            true
            (some (submit_params id async_exec retry))
            w).1.sent
          ≡ requests_from env
              (codes "POST")
              statements_path
              (payload_of payload bytes)
              true
              k
              0
              (some (submit_params id async_exec retry))
        → ((send env
              (codes "POST")
              statements_path
              (payload_of payload bytes)
              true
              (some (submit_params id async_exec retry))
              w).1.sent
            ≡ [])
          ⊎ ((first again : Request) × (k : ℕ) × ((send env
                  (codes "POST")
                  statements_path
                  (payload_of payload bytes)
                  true
                  (some (submit_params id async_exec retry))
                  w).1.sent
                ≡ first ∷ replicate k again)
              × (k + 1 ≤ env.max_attempts)
              × Submits id async_exec
                  (payload_of payload bytes)
                  (if retry then some (codes "true") else none)
                  first
              × Submits id async_exec (payload_of payload bytes) (some (codes "true")) again)
    go zero le sent = inl sent
    go (suc k) le sent =
        let (a, b, c) = submit_params_first id async_exec retry in
        let (a', b', c') = submit_params-marked id async_exec retry in
        inr (
          request_with env (codes "POST") statements_path (payload_of payload bytes) true
              (some (submit_params id async_exec retry)),
          request_with env (codes "POST") statements_path (payload_of payload bytes) true
              (some (marked (submit_params id async_exec retry))),
          k,
          sent
              ∙ ap
                  (λ rs.
                    request_with env (codes "POST") statements_path (payload_of payload bytes) true
                      (some (submit_params id async_exec retry))
                    ∷ rs)
                  (retried_requests env (codes "POST") statements_path (payload_of payload bytes) k
                    0 (submit_params id async_exec retry)),
          omega arith,
          (submit_params id async_exec retry, refl, refl, refl, refl, a, b, c),
          (marked (submit_params id async_exec retry), refl, refl, refl, refl, a', b', c'),
        )
