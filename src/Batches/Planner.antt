-- ===== src/Batches/Planner.antt =====
-- `_BatchPlanner` of batches.py. The source is the list of what its iterator gives, and
-- `build_context` what `_encode(context)[1:-1]` is for the payload of the session. A method returns
-- the planner that it leaves; after an exception the planner is not used again.
pub mod Step
pub mod Size
pub mod Frame
pub mod Measured
pub mod Round
pub mod Budget
pub mod Order
pub mod Stops
pub mod Conservation
pub mod Delivery
use snowflake_sql_api.Common.{
  ℕ, zero, suc, ◌+◌, ◌-◌, Text, codes, Bool, true, false, not, ◌||◌, Option, none, some, List, [],
  ◌∷◌, ◌++◌, map, Result, ok, err, ◌>>=◌, traverse, if◌then◌else◌, ltb, ◌==◌, length, replicate,
  join,
}
use snowflake_sql_api.Common.Decimal.{decimal}
use snowflake_sql_api.Common.Int.{pos}
use snowflake_sql_api.Errors.{Exc, config_error}
use snowflake_sql_api.Escaping.{quote_identifier, quote_name}
use snowflake_sql_api.Bindings.{PyValue, int, BindingValue, to_bindings}
use snowflake_sql_api.Batches.Encode.{Bytes, encode_text, encode_binding}
use snowflake_sql_api.Batches.Progress.{
  Phase, input, validation, Outcome, not_executed, BatchSummary, FailedBatch, BatchWriteError,
  stop_message,
}

-- A row of the source: a positional sequence, or anything else (a str or bytes too).
pub data PyRow : Type 0 where
  positional : List PyValue → PyRow
  not_positional : PyRow

-- What one `next` gives; the end of the list is `StopIteration`.
pub data Next : Type 0 where
  row : PyRow → Next
  fails : Exc → Next

-- The values of a row and their encoded bindings.
pub record Entry : Type 0 where
  pub values : List PyValue
  pub encoded : List Bytes

pub record Planner : Type 0 where
  pub prefix : Text
  pub placeholder : Text
  pub width : ℕ
  pub max_rows : ℕ
  pub max_bytes : ℕ
  pub iter_error : Option Exc
  pub source : List Next
  pub has_iterator : Bool
  pub build_context : Result Exc Bytes
  pub context : Option Bytes
  pub single_overhead : ℕ
  pub pending : Option Entry
  pub exhausted : Bool
  pub consumed_rows : ℕ
  pub confirmed_rows : ℕ
  pub completed : List BatchSummary

pub record PreparedBatch : Type 0 where
  pub sql : Text
  pub params : List PyValue
  pub content : Bytes
  pub row_count : ℕ

-- `BatchWriteError`, or an exception that is not wrapped.
pub data Fault : Type 0 where
  stopped : BatchWriteError → Fault
  escaped : Exc → Fault

-- `error`, with the exception that it is raised from
unfoldable pub error : Planner → Exc → Phase → Outcome → Option FailedBatch → BatchWriteError
error p cause phase outcome failed_batch = record {
  message = stop_message phase cause;
  completed = p.completed;
  next_row_index = p.confirmed_rows;
  consumed_rows = p.consumed_rows;
  failed_batch = failed_batch;
  phase = phase;
  outcome = outcome;
  cause = cause;
}

abbrev pub stop : Planner → Exc → Phase → Fault
stop p cause phase = stopped (error p cause phase not_executed none)

abbrev pub comma_space : Text
comma_space = codes ", "

-- "(" + ", ".join(["?"] * n) + ")"
unfoldable pub placeholder_of : ℕ → Text
placeholder_of n = codes "(" ++ (join comma_space (replicate n (codes "?")) ++ codes ")")

-- `isinstance(limit, bool) or not isinstance(limit, int) or limit <= 0`
unfoldable pub positive_limit : Text → PyValue → Result Exc ℕ
positive_limit name (int (pos (suc n))) = ok (suc n)
positive_limit name other = err (config_error (name ++ codes " must be a positive integer"))

abbrev pub initial : Text → ℕ → ℕ → ℕ → Option Exc → List Next → Result Exc Bytes → Planner
initial prefix width max_rows max_bytes iter_error rows build_context = record {
  prefix = prefix;
  placeholder = placeholder_of width;
  width = width;
  max_rows = max_rows;
  max_bytes = max_bytes;
  iter_error = iter_error;
  source = rows;
  has_iterator = false;
  build_context = build_context;
  context = none;
  single_overhead = 0;
  pending = none;
  exhausted = false;
  consumed_rows = 0;
  confirmed_rows = 0;
  completed = [];
}

unfoldable pub make_planner :
    Text
    → List Text
    → Option Exc
    → List Next
    → PyValue
    → PyValue
    → Result Exc Bytes
    → Result Exc Planner
unfolding positive_limit placeholder_of
make_planner table [] iter_error rows max_rows max_bytes build_context =
    err (config_error (codes "insert_batches requires at least one column"))
make_planner table (c ∷ cs) iter_error rows max_rows max_bytes build_context = do
  row_limit ← positive_limit (codes "max_rows") max_rows
  byte_limit ← positive_limit (codes "max_bytes") max_bytes
  if ltb 200000 row_limit then err (config_error (codes "max_rows must be <= 200000")) else do
    cols ← traverse quote_identifier (c ∷ cs)
    name ← quote_name table
    ok (
        initial
          (codes "INSERT INTO "
            ++ (name ++ (codes " (" ++ (join comma_space cols ++ codes ") VALUES "))))
          (length (c ∷ cs)) row_limit byte_limit iter_error rows build_context)

-- The width test and the encoding of `_record`.
unfoldable pub check_row : ℕ → PyRow → Result Exc Entry
check_row width not_positional = err (config_error (codes "each row must be a positional sequence"))
check_row width (positional values) =
    if length values == width
    then (do
      bindings ← to_bindings values
      encoded ← traverse (λ (e : Text × BindingValue). encode_binding e.1) bindings
      ok (record { values = values; encoded = encoded }))
    else err (
        config_error (
          codes "each row must have "
          ++ (decimal width ++ (codes " values, got " ++ decimal (length values)))))

-- Turning the exceptions of a `try` block into a stop.
abbrev pub guarded {ℓ} : {A : Type ℓ} → Planner → Phase → Result Exc A → Result Fault A
guarded p phase (ok a) = ok a
guarded p phase (err e) = err (stop p e phase)

-- `next(self.iterator)`, `self.consumed_rows += 1`, and the checks
unfoldable pub pull : Planner → List Next → Result Fault (Planner × Option Entry)
pull p [] = ok (record p { has_iterator = true; exhausted = true }, none)
pull p (fails e ∷ rest) = err (stop p e input)
pull p (row r ∷ rest) =
    let p' = record p { has_iterator = true; source = rest; consumed_rows = p.consumed_rows + 1 } in
    do entry ← guarded p' validation (check_row p.width r); ok (p', some entry)

abbrev opened : Planner → Option Exc → Result Fault (Planner × Option Entry)
opened p none = pull p p.source
opened p (some e) = if p.has_iterator then pull p p.source else err (stop p e input)

-- `_record`
unfoldable pub read_record : Planner → Result Fault (Planner × Option Entry)
unfolding pull check_row
read_record p = if p.exhausted then ok (p, none) else opened p p.iter_error
