-- ===== src/Transport/Reading.antt =====
-- The reading of a response, described apart from `_interpret`: by relations on the body, the
-- status and the exception.
use snowflake_sql_api.Common.{
  ℕ, suc, Text, codes, Bool, Result-cases, true, false, Bool-cases, ◌==◌, ◌||◌, subst, Option, none,
  some, ◌++◌, Result, ok, err, ◌≡◌, ◌≢◌, ◌⊎◌, inl, inr, refl, arith, take, ap, ◌∙◌,
}
use snowflake_sql_api.Common.Decimal.{decimal}
use snowflake_sql_api.Errors.{
  Value, null, bool, int, float, str, arr, obj, Fields, end, field, get, get_or, has_key, Kind,
  auth, request, forbidden, programming, Exc, raised, raised_from, cancel_failed, Info, info,
}
use snowflake_sql_api.Transport.{
  Response, StatementResponse, message_text, envelope, as_body, json_body, interpret,
}
use snowflake_sql_api.Transport.Send.{
  Environment, Payload, Params, responded, Sending, Ending, attempt, exchange, start, after_request,
  conclude, go_round, rounds, judge, annotate, send,
}

get_or-has_key :
    (k : Text) (fs : Fields) (d : Value) → has_key k fs ≡ true → get_or k fs d ≡ get k fs
unfolding get_or has_key
get_or-has_key k end d h = cc
get_or-has_key k (field j v fs) d h = ground (arith, get_or-has_key k fs d)

get_or-missing : (k : Text) (fs : Fields) (d : Value) → has_key k fs ≡ false → get_or k fs d ≡ d
unfolding get_or has_key
get_or-missing k end d h = refl
get_or-missing k (field j v fs) d h = ground (arith, get_or-missing k fs d)

abbrev is_object : Value → Bool
is_object (obj fs) = true
is_object _ = false

-- The body that is read of a response: its JSON object, or other JSON under `data`, or the first
-- 500 characters of a text that is no JSON as a message.
pub data IsBody (r : Response) : Fields → Type 0 where
  object : {fs : Fields} → r.parsed ≡ some (obj fs) → IsBody r fs
  other :
      {v : Value} → r.parsed ≡ some v → is_object v ≡ false → IsBody r (field (codes "data") v end)
  no_json : r.parsed ≡ none → IsBody r (field (codes "message") (str (take 500 r.text)) end)

-- The class that a status stands for, and the message where the body has none.
pub data Explains : ℕ → Kind → Text → Type 0 where
  rejected_sql : Explains 422 programming (codes "SQL execution error")
  unauthorized : Explains 401 auth (codes "authentication failed")
  denied : Explains 403 forbidden (codes "request forbidden")
  unexpected :
      {status : ℕ}
      → status ≢ 422
      → status ≢ 401
      → status ≢ 403
      → Explains status request (codes "HTTP " ++ decimal status)

-- What a message of the body is read as.
abbrev pub Says : Fields → Text → Text → Type 0
Says body otherwise message =
    ((has_key (codes "message") body ≡ false) → message ≡ otherwise)
    × ((s : Text)
        → has_key (codes "message") body ≡ true
        → get (codes "message") body ≡ str s
        → message ≡ s)

-- An exception has the class of a status, and tells what the body says.
abbrev pub Tells : ℕ → Fields → Info → Type 0
Tells status body i =
    (otherwise : Text) × Explains status i.kind otherwise
    × Says body otherwise i.message
    × (i.status_code ≡ some status)
    × (i.code ≡ get (codes "code") body)
    × (i.sql_state ≡ get (codes "sqlState") body)
    × (i.statement_handle ≡ get (codes "statementHandle") body)

-- A response is read as a result or as an exception.
abbrev pub Reads : Response → Fields → Result Exc StatementResponse → Type 0
Reads r body (ok answer) =
    ((r.status_code ≡ 200) ⊎ (r.status_code ≡ 202))
    × (answer.status_code ≡ r.status_code)
    × (answer.body ≡ body)
Reads r body (err e) =
    (r.status_code ≢ 200) × (r.status_code ≢ 202) × Tells r.status_code body (info e)

as_body-IsBody :
    (r : Response) (parsed : Option Value) → r.parsed ≡ parsed → IsBody r (as_body parsed r.text)
as_body-IsBody r none h = no_json h
as_body-IsBody r (some (obj fs)) h = object h
as_body-IsBody r (some null) h = other h refl
as_body-IsBody r (some (bool b)) h = other h refl
as_body-IsBody r (some (int n)) h = other h refl
as_body-IsBody r (some (float z n)) h = other h refl
as_body-IsBody r (some (str s)) h = other h refl
as_body-IsBody r (some (arr vs)) h = other h refl

envelope-Tells :
    (r : Response) (kind : Kind) (otherwise : Text)
    → Explains r.status_code kind otherwise
    → Tells r.status_code (json_body r) (info (envelope kind otherwise r))
envelope-Tells r kind otherwise known = (
  otherwise,
  known,
  (
    λ gone. ap message_text (get_or-missing (codes "message") (json_body r) (str otherwise) gone),
    λ s here said.
        ap message_text
          (get_or-has_key (codes "message") (json_body r) (str otherwise) here ∙ said),
  ),
  refl,
  refl,
  refl,
  refl,
)

envelope-Reads :
    (r : Response) (kind : Kind) (otherwise : Text)
    → (r.status_code == 200 || r.status_code == 202) ≡ false
    → Explains r.status_code kind otherwise
    → Reads r (json_body r) (err (envelope kind otherwise r))
envelope-Reads r kind otherwise no_result known =
    (ground arith, ground arith, envelope-Tells r kind otherwise known)

at_status :
    {n : ℕ} {kind : Kind} {otherwise : Text} (status : ℕ)
    → Explains n kind otherwise
    → (status == n) ≡ true
    → Explains status kind otherwise
at_status {n} {kind} {otherwise} status known same =
    let e : n ≡ status = ground (arith, same) in subst (λ m. Explains m kind otherwise) e known

interpret-Reads : (r : Response) → Reads r (json_body r) (interpret r)
unfolding interpret
interpret-Reads r = elim (Bool-cases (r.status_code == 200 || r.status_code == 202)) [
  | inl result ↦ rw result (ground arith, refl, refl)
  | inr no_result ↦ rw no_result (elim (Bool-cases (r.status_code == 422)) [
    | inl is_422 ↦
        rw is_422
          (envelope-Reads r programming _ no_result (at_status r.status_code rejected_sql is_422))
    | inr not_422 ↦ rw not_422 (elim (Bool-cases (r.status_code == 401)) [
      | inl is_401 ↦
          rw is_401
            (envelope-Reads r auth _ no_result (at_status r.status_code unauthorized is_401))
      | inr not_401 ↦ rw not_401 (elim (Bool-cases (r.status_code == 403)) [
        | inl is_403 ↦
            rw is_403
              (envelope-Reads r forbidden _ no_result (at_status r.status_code denied is_403))
        | inr not_403 ↦ rw not_403 (
            envelope-Reads r request _ no_result
              (unexpected (ground arith) (ground arith) (ground arith)))
      ])
    ])
  ])
]

interpret-reading : (r : Response) → (body : Fields) × IsBody r body × Reads r body (interpret r)
unfolding json_body
interpret-reading r = (json_body r, as_body-IsBody r r.parsed refl, interpret-Reads r)

module _ (env : Environment) (method path : Text) (payload : Payload) (is_submit : Bool) where
  -- The attributes that `_send` adds to a first answer are not those that are read of it.
  annotate-Reads :
      (r : Response) (body : Fields) (e : Exc) (s : Sending env)
      → s.known_handle ≡ null
      → Reads r body (err e)
      → Reads r body (err (annotate env method path payload is_submit e s))
  unfolding annotate
  annotate-Reads r body (raised i) s fresh reads = rw fresh reads
  annotate-Reads r body (raised_from i c) s fresh reads = rw fresh reads
  annotate-Reads r body (cancel_failed i c) s fresh reads = rw fresh reads

  judged-Reads :
      (r : Response) (body : Fields) (loop : Sending env → Ending env) (s : Sending env)
      → s.known_handle ≡ null
      → env.should_retry_status r.status_code ≡ false
      → Reads r body (interpret r)
      → Reads r body
          (conclude env method path payload is_submit (
            go_round env method path payload is_submit loop
              (judge env method path payload is_submit r s))).0
  unfolding judge
  judged-Reads r body loop s fresh final reads = rw final (elim (Result-cases (interpret r)) [
    | inl (response, h) ↦ rw h (rw h at reads)
    | inr (e, h) ↦ rw h (annotate-Reads r body e s fresh (rw h at reads))
  ])

  -- When the first request of a call is answered, and its status is not to be retried, the call
  -- ends by that answer's status and body. The body is its JSON object, other JSON under `data`, or
  -- the first 500 characters of a text that is no JSON, as a message. It is the result where the
  -- status is 200 or 202. Every other status is an exception: a programming error for 422, an
  -- authentication error for 401, a forbidden one for 403 and a request error for all the rest,
  -- with the status, the code, the SQL state and the handle of the body, and with the text of its
  -- message or, if it has none, the message of the status.
  pub send-Reads :
      (params : Option Params) (w : env.World) {w1 w2 : env.World} {left : ℕ} {r : Response}
      → env.max_attempts ≡ suc left
      → env.headers w ≡ (none, w1)
      → env.request (record { method = method; path = path; params = params; payload = payload }) w1
        ≡ (responded r, w2)
      → env.should_retry_status r.status_code ≡ false
      → (body : Fields) × IsBody r body
        × Reads r body (send env method path payload is_submit params w).0
  unfolding send rounds attempt exchange judge
  send-Reads params w {w1} {w2} {left} {r} rounds_left signs answers final =
      let (body, is, reads) = interpret-reading r in
      (
        body,
        is,
        rw rounds_left (
            rw signs (
              rw answers (
                judged-Reads r body (rounds env method path payload is_submit left 1)
                  (after_request env method path payload is_submit (start env params w1) w2) refl
                  final reads))),
      )
