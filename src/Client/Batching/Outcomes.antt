-- ===== src/Client/Batching/Outcomes.antt =====
-- What the `BatchWriteError` of a batch says of the INSERT: `_BatchExecution.error` behind the
-- submission and the polling of `insert_batches`.
use snowflake_sql_api.Common.{
  ℕ, Text, codes, false, true, Option, none, some, Result, ok, err, ◌≡◌, ◌≢◌, ◌⊎◌, inl, inr, refl,
  ap, length, Bool-cases, arith, subst,
}
use mathlib.Core.Option.{some-injective}
use snowflake_sql_api.Errors.{Exc, is_none, end, request_error, info}
use snowflake_sql_api.Transport.{StatementResponse, is_running, statement_handle}
use snowflake_sql_api.Transport.Send.{Environment, Sending}
use snowflake_sql_api.Transport.Calls.{submit, submit_params, payload_of, statements_path}
use snowflake_sql_api.Transport.Attempts.{send_reports}
use snowflake_sql_api.Client.Poll.{poll}
use snowflake_sql_api.Client.Batching.{
  Session, Tried, settle, affected, after_poll, submitted, run_batch,
}
use snowflake_sql_api.Batches.Progress.{BatchWriteError, not_executed, succeeded, submission}
use snowflake_sql_api.Batches.Planner.{Planner, PreparedBatch}
use snowflake_sql_api.Batches.Execution
use snowflake_sql_api.Batches.Execution.{
  Execution, start, received, Classified, error-Classified, past-submission, error-succeeded,
  refused,
}

module _ (env : Environment) (session : Session env) where
  -- The failure of a batch whose submission was answered: it is not told as never executed, and
  -- as succeeded if the answer was the result.
  abbrev pub Answered : StatementResponse → BatchWriteError → Type 0
  Answered r failure =
      (failure.outcome ≢ not_executed) × (is_running r ≡ false → failure.outcome ≡ succeeded)

  -- How the failure `e` of a batch is told, behind what its submission left.
  abbrev pub Told : Result Exc StatementResponse × Sending env → Exc → BatchWriteError → Type 0
  Told (err e1, s) e failure = (e1 ≡ e) × Classified (length s.sent) e failure
  Told (ok r, s) e failure = Answered r failure

  answered_done :
      (r : StatementResponse) (x : Execution) (e : Exc)
      → x.succeeded ≡ true
      → Answered r (Execution.error x e)
  answered_done r x e done = (past-submission x e (inl done), λ h. error-succeeded x e done)

  received_done :
      (r : StatementResponse) (x : Execution)
      → is_running r ≡ false
      → (received (statement_handle r) r.submission_attempts (is_running r) x).succeeded ≡ true
  unfolding received
  received_done r x done = rw done refl

  received_past :
      (r : StatementResponse) (x : Execution)
      → is_none (statement_handle r) ≡ false
      → (received (statement_handle r) r.submission_attempts (is_running r) x).phase ≢ submission
  unfolding received
  received_past r x named = ground arith

  running-Answered :
      (r : StatementResponse) (x : Execution) (e : Exc)
      → is_running r ≡ true
      → (x.succeeded ≡ true) ⊎ ((x.phase ≢ submission) ⊎ (refused e ≡ false))
      → Answered r (Execution.error x e)
  running-Answered r x e running known = (past-submission x e known, λ done. cc)

  polled-Answered :
      (r : StatementResponse) (x : Execution) (e : Exc)
      (o : Option (Result Exc StatementResponse × env.World)) {t : Tried env session}
      → is_running r ≡ true
      → x.phase ≢ submission
      → after_poll env session x o ≡ some t
      → Answered r (Execution.error t.execution e)
  unfolding affected
  polled-Answered r x e none running past h = cc
  polled-Answered r x e (some (err e1, w)) {t} running past h =
      subst (λ u. Answered r (Execution.error u.execution e)) (some-injective _ _ h)
        (running-Answered r x e running (inr (inl past)))
  polled-Answered r x e (some (ok r1, w)) {t} running past h =
      subst (λ u. Answered r (Execution.error u.execution e)) (some-injective _ _ h)
        (running-Answered r (record x { succeeded = true }) e running (inl refl))

  request_error-unknown : (m : Text) (e : Exc) → request_error m ≡ e → refused e ≡ false
  unfolding refused
  request_error-unknown m e h = subst (λ u. refused u ≡ false) h refl

  settle-Answered :
      (fuel : ℕ) (r : StatementResponse) (x : Execution) (w : env.World) {t : Tried env session}
      {e : Exc}
      → (is_running r ≡ false → x.succeeded ≡ true)
      → (is_none (statement_handle r) ≡ false → x.phase ≢ submission)
      → settle env session fuel x r w ≡ some t
      → t.result ≡ err e
      → Answered r (Execution.error t.execution e)
  unfolding settle
  settle-Answered fuel r x w {t} {e} done past h fails = elim (Bool-cases (is_running r)) [
    | inr complete ↦
        subst (λ u. Answered r (Execution.error u.execution e))
          (some-injective _ _ (rw complete at h)) (answered_done r x e (done complete))
    | inl running ↦ elim (Bool-cases (is_none (statement_handle r))) [
      | inr named ↦
          polled-Answered r x e
            (poll env session.waiting fuel (statement_handle r) session.limit true w) running
            (past named) (rw named at (rw running at h))
      | inl unnamed ↦
          let same = some-injective _ _ (rw unnamed at (rw running at h)) in
          let raised_it : request_error (codes "running statement has no handle") ≡ e =
            cc (ap (λ u. u.result) same, fails) in
          subst (λ u. Answered r (Execution.error u.execution e)) same
            (running-Answered r x e running (
              inr (
                inr (request_error-unknown (codes "running statement has no handle") e raised_it))))
    ]
  ]

  submit-reported :
      (id : Text) (batch : PreparedBatch) (w : env.World) (e : Exc)
      → (submit env end id false false (some batch.content) w).0 ≡ err e
      → (info e).submission_attempts
        ≡ some (length (submit env end id false false (some batch.content) w).1.sent)
  unfolding submit
  submit-reported id batch w e h =
      let (told, most) =
        send_reports env (codes "POST") statements_path (payload_of end (some batch.content)) true
          (some (submit_params id false false)) w in
      rw h at told

  submitted-Told :
      (fuel : ℕ) (p : Planner) (batch : PreparedBatch) (id : Text)
      (answer : Result Exc StatementResponse × Sending env) {t : Tried env session} (e : Exc)
      → ((e1 : Exc)
          → answer.0 ≡ err e1
          → (info e1).submission_attempts ≡ some (length answer.1.sent))
      → submitted env session fuel (start p batch id) answer ≡ some t
      → t.result ≡ err e
      → Told answer e (Execution.error t.execution e)
  submitted-Told fuel p batch id (err e1, s) {t} e counted h fails =
      let same = some-injective _ _ h in
      let raised_it : e1 ≡ e = cc (ap (λ u. u.result) same, fails) in
      (
        raised_it,
        subst (λ u. Classified (length s.sent) e (Execution.error u.execution e)) same
            (error-Classified p batch id (length s.sent) e (
              subst (λ u. (info u).submission_attempts ≡ some (length s.sent)) raised_it
                (counted e1 refl))),
      )
  submitted-Told fuel p batch id (ok r, s) {t} e counted h fails =
      settle-Answered fuel r
        (received (statement_handle r) r.submission_attempts (is_running r) (start p batch id))
        s.world (received_done r (start p batch id)) (received_past r (start p batch id)) h fails

  -- When the INSERT of a batch fails, what is told of it goes by the requests that were made for
  -- its submission. If the submission itself raised, the failure is told as never executed exactly
  -- when no request was made, or one that was refused by 400, 401 or 403 and is no SQL error; as
  -- failed exactly when one request at most was made and it is an SQL error; as unknown behind two
  -- requests; never as succeeded; and the number of requests is reported. If the submission was
  -- answered, the failure is never told as never executed, and as succeeded when the answer was
  -- the result.
  pub run_batch-Told :
      (fuel : ℕ) (p : Planner) (batch : PreparedBatch) (id : Text) (w : env.World)
      {t : Tried env session} {e : Exc}
      → run_batch env session fuel (start p batch id) batch w ≡ some t
      → t.result ≡ err e
      → Told
          (submit env end id false false (some batch.content) w)
          e
          (Execution.error t.execution e)
  unfolding run_batch start
  run_batch-Told fuel p batch id w {t} {e} h fails =
      submitted-Told fuel p batch id (submit env end id false false (some batch.content) w) e
        (submit-reported id batch w) h fails
