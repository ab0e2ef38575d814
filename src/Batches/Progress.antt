-- ===== src/Batches/Progress.antt =====
-- The immutable progress records of batches.py, and `BatchWriteError` of exceptions.py.
use snowflake_sql_api.Common.{ℕ, ◌+◌, Text, codes, Option, List, [], ◌∷◌, ◌++◌, length}
use snowflake_sql_api.Errors.{Exc, info, Value}

pub data Phase : Type 0 where
  input validation submission execution : Phase

pub data Outcome : Type 0 where
  not_executed failed unknown succeeded : Outcome

pub record BatchSummary : Type 0 where
  pub index : ℕ
  pub start_row_index : ℕ
  pub row_count : ℕ
  pub rows_affected : ℕ

-- The properties of `BatchWriteResult`, of its tuple of batches.
abbrev pub input_rows : List BatchSummary → ℕ
input_rows [] = 0
input_rows (b ∷ bs) = b.row_count + input_rows bs

abbrev pub rows_affected : List BatchSummary → ℕ
rows_affected [] = 0
rows_affected (b ∷ bs) = b.rows_affected + rows_affected bs

abbrev pub completed_batches : List BatchSummary → ℕ
completed_batches bs = length bs

pub record FailedBatch : Type 0 where
  pub index : ℕ
  pub start_row_index : ℕ
  pub row_count : ℕ
  pub request_id : Text
  pub statement_handle : Value
  pub submission_attempts : ℕ

-- The exception with its cause; `completed` is the tuple of the `BatchWriteResult`.
pub record BatchWriteError : Type 0 where
  pub message : Text
  pub completed : List BatchSummary
  pub next_row_index : ℕ
  pub consumed_rows : ℕ
  pub failed_batch : Option FailedBatch
  pub phase : Phase
  pub outcome : Outcome
  pub cause : Exc

abbrev phase_name : Phase → Text
phase_name input = codes "input"
phase_name validation = codes "validation"
phase_name submission = codes "submission"
phase_name execution = codes "execution"

abbrev pub stop_message : Phase → Exc → Text
stop_message phase cause =
    codes "batch write stopped during "
    ++ (phase_name phase ++ (codes ": " ++ (info cause).message))
