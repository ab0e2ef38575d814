-- ===== src/Batches/Execution.antt =====
-- `_BatchExecution` of batches.py: what is known of the INSERT in flight, and the conservative
-- classification of a failure.
use snowflake_sql_api.Common.{
  ℕ, ◌≤◌, ◌≢◌, ◌⊎◌, inl, inr, Text, Bool, true, false, not, ◌&&◌, ◌||◌, Option, none, some, ◌≡◌,
  ◌↔◌, arith, if◌then◌else◌, leb, ◌==◌, length,
}
use snowflake_sql_api.Errors.{
  Value, null, or_else, is_none, Exc, info, cause_handle, is_request, is_programming, is_auth, auth,
  request, forbidden, programming,
}
use snowflake_sql_api.Batches.Progress.{
  Phase, submission, execution, Outcome, not_executed, failed, unknown, succeeded, FailedBatch,
  BatchWriteError,
}
use snowflake_sql_api.Batches.Planner
use snowflake_sql_api.Batches.Planner.{Planner, PreparedBatch}

pub record Execution : Type 0 where
  pub planner : Planner
  pub failed : FailedBatch
  pub phase : Phase
  pub succeeded : Bool

-- `__init__`, with the fresh UUID
unfoldable pub start : Planner → PreparedBatch → Text → Execution
start p batch request_id = record {
  planner = p;
  failed = record {
    index = length p.completed;
    start_row_index = p.confirmed_rows;
    row_count = batch.row_count;
    request_id = request_id;
    statement_handle = null;
    submission_attempts = 0;
  };
  phase = submission;
  succeeded = false;
}

abbrev count_or_zero : Option ℕ → ℕ
count_or_zero none = 0
count_or_zero (some n) = n

unfoldable pub received : Value → Option ℕ → Bool → Execution → Execution
received handle attempts running x = record x {
  failed = record (x.failed) {
    statement_handle = handle;
    submission_attempts = count_or_zero attempts;
  };
  phase = (if not running || not (is_none handle) then execution else x.phase);
  succeeded = not running;
}

abbrev pub count_or : ℕ → Option ℕ → ℕ
count_or n none = n
count_or n (some m) = m

abbrev is_zero : Option ℕ → Bool
is_zero none = false
is_zero (some n) = n == 0

abbrev status_in : (ℕ → Bool) → Option ℕ → Bool
status_in p none = false
status_in p (some n) = p n

abbrev pub in_submission : Phase → Bool
in_submission submission = true
in_submission _ = false

-- The refusals that show that the statement was not taken: no POST was made, or one that was
-- answered by 400, 401 or 403.
unfoldable pub refused : Exc → Bool
refused cause =
    is_zero (info cause).submission_attempts
    || (is_auth (info cause).kind && status_in (λ n. n == 401) (info cause).status_code)
    || (is_request (info cause).kind
        && status_in (λ n. n == 400 || (n == 401 || n == 403)) (info cause).status_code)

-- The attempts that `error` goes by: those of the cause, or else those of the response.
unfoldable pub attempts_of : Execution → Exc → ℕ
attempts_of x cause = count_or x.failed.submission_attempts (info cause).submission_attempts

unfoldable pub outcome_of : Execution → Exc → Outcome
unfolding refused attempts_of
outcome_of x cause =
    if x.succeeded
    then succeeded
    else if leb (attempts_of x cause) 1
    then (if is_programming (info cause).kind
        then failed
        else if in_submission x.phase && refused cause
        then not_executed
        else unknown)
    else unknown

unfoldable pub phase_of : Execution → Exc → Phase
phase_of x cause = if is_programming (info cause).kind then execution else x.phase

-- `error`
unfoldable pub error : Execution → Exc → BatchWriteError
unfolding outcome_of phase_of attempts_of
error x cause = Planner.error x.planner cause (phase_of x cause) (outcome_of x cause) (
    some (record (x.failed) {
      submission_attempts = attempts_of x cause;
      statement_handle =
          or_else (or_else (info cause).statement_handle (cause_handle cause))
            x.failed.statement_handle;
    }))

-- The exceptions by which a statement is known to be refused.
abbrev pub ShowsRefusal : Exc → Type 0
ShowsRefusal e =
    (((info e).kind ≡ auth) × ((info e).status_code ≡ some 401))
    ⊎ ((((info e).kind ≡ request) ⊎ ((info e).kind ≡ forbidden))
        × (((info e).status_code ≡ some 400)
            ⊎ (((info e).status_code ≡ some 401) ⊎ ((info e).status_code ≡ some 403))))

abbrev attempts_reported : Option FailedBatch → Option ℕ
attempts_reported none = none
attempts_reported (some f) = some f.submission_attempts

-- What is told of a submission of `n` requests that raised an exception.
abbrev pub Classified : ℕ → Exc → BatchWriteError → Type 0
Classified n e failure =
    ((failure.outcome ≡ failed) ↔ (((info e).kind ≡ programming) × (n ≤ 1)))
    × ((failure.outcome ≡ not_executed)
        ↔ (((info e).kind ≢ programming) × ((n ≡ 0) ⊎ ((n ≡ 1) × ShowsRefusal e))))
    × (failure.outcome ≢ succeeded)
    × (2 ≤ n → failure.outcome ≡ unknown)
    × (attempts_reported failure.failed_batch ≡ some n)

refused_lem :
    (e : Exc)
    → is_programming (info e).kind ≡ false
    → (refused e ≡ true) ↔ (((info e).submission_attempts ≡ some 0) ⊎ ShowsRefusal e)
unfolding refused
refused_lem e h = ground arith

pub error-Classified :
    (p : Planner) (batch : PreparedBatch) (id : Text) (n : ℕ) (e : Exc)
    → (info e).submission_attempts ≡ some n
    → Classified n e (error (start p batch id) e)
unfolding error start outcome_of attempts_of Planner.error
error-Classified p batch id n e h = ground (arith, h, refused_lem e)

-- A batch that is given a handle, or a result, is past its submission.
pub past-submission :
    (x : Execution) (e : Exc)
    → (x.succeeded ≡ true) ⊎ ((x.phase ≢ submission) ⊎ (refused e ≡ false))
    → (error x e).outcome ≢ not_executed
unfolding error outcome_of Planner.error
past-submission x e (inl done) = ground arith
past-submission x e (inr (inl past)) = ground arith
past-submission x e (inr (inr open_still)) = ground arith

pub error-succeeded :
    (x : Execution) (e : Exc) → x.succeeded ≡ true → (error x e).outcome ≡ succeeded
unfolding error outcome_of Planner.error
error-succeeded x e done = ground arith
