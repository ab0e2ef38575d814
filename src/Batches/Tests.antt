-- ===== src/Batches/Tests.antt =====
-- Runs of the planner, and the theorems at a planner with one row ahead.
use snowflake_sql_api.Common.{
  codes, true, none, some, List, [], ◌∷◌, ok, err, ◌≡◌, ◌≢◌, refl, arith, traverse, join, contains,
  split,
}
use snowflake_sql_api.Common.Decimal.{decimal_int}
use snowflake_sql_api.Common.Int.{pos}
use snowflake_sql_api.Errors.{Exc, config_error}
use snowflake_sql_api.Escaping.{quote_identifier, quote_name, double_quotes}
use snowflake_sql_api.Bindings.{int, bind_one, to_bindings}
use snowflake_sql_api.Batches.Encode.{
  encode_text, encode_binding, utf8, utf8_char, escape_text, escape_char,
}
use snowflake_sql_api.Batches.Progress.{input}
use snowflake_sql_api.Batches.Planner.{
  Next, row, fails, positional, Planner, PreparedBatch, Fault, escaped, stop, make_planner,
  placeholder_of, initial, positive_limit,
}
use snowflake_sql_api.Batches.Planner.Step.{next_batch, fill, empty_buffer}
use snowflake_sql_api.Batches.Planner.Delivery.{
  IsReady, Delivered, make_planner-IsReady, next_batch-Delivered,
}
use snowflake_sql_api.Batches.Planner.Budget.{Sendable, next_batch-Sendable, next_batch_stops}
use snowflake_sql_api.Batches.Planner.Stops.{StopsAt, next_batch-StopsAt}

abbrev pub one_row : List Next
one_row = row (positional (int (pos 7) ∷ [])) ∷ []

abbrev pub plan_of : List Next → Planner
plan_of rows = initial (codes "INSERT INTO \"T\" (\"A\") VALUES ") 1 10 1000 none rows (ok [])

pub make_plan :
    (rows : List Next)
    → make_planner (codes "T") (codes "A" ∷ []) none rows (int (pos 10)) (int (pos 1000)) (ok [])
      ≡ ok (plan_of rows)
unfolding make_planner positive_limit quote_identifier quote_name double_quotes traverse contains
    split join placeholder_of
make_plan rows = refl

make_planner-IsReady_example : IsReady 1 one_row (plan_of one_row)
make_planner-IsReady_example =
    make_planner-IsReady (codes "T") (codes "A" ∷ []) none one_row (int (pos 10)) (int (pos 1000))
      (ok []) (make_plan one_row)

pub plan-IsReady : IsReady 1 one_row (plan_of one_row)
plan-IsReady =
    make_planner-IsReady (codes "T") (codes "A" ∷ []) none one_row (int (pos 10)) (int (pos 1000))
      (ok []) (make_plan one_row)

-- The batch of the one row, and the planner behind it.
abbrev pub sent_batch : PreparedBatch
sent_batch = record {
  sql = codes "INSERT INTO \"T\" (\"A\") VALUES (?)";
  params = int (pos 7) ∷ [];
  content =
      codes
        "{\"statement\":\"INSERT INTO \\\"T\\\" (\\\"A\\\") VALUES (?)\",\"bindings\":{\"1\":{\"type\":\"FIXED\",\"value\":\"7\"}}}";
  row_count = 1;
}

abbrev plan_behind : Planner
plan_behind = record (plan_of []) {
  has_iterator = true;
  exhausted = true;
  consumed_rows = 1;
  context = some [];
  single_overhead = 66;
}

one_batch : next_batch (plan_of one_row) ≡ ok (plan_behind, some sent_batch)
unfolding next_batch to_bindings bind_one traverse encode_binding utf8 utf8_char escape_text
    escape_char decimal_int encode_text placeholder_of join
one_batch = refl

next_batch-Delivered_example : Delivered (plan_of one_row) (plan_behind, some sent_batch)
next_batch-Delivered_example =
    next_batch-Delivered (plan_of one_row) plan-IsReady.1 (omega arith) one_batch

next_batch-Sendable_example : Sendable (plan_of one_row) (plan_behind, some sent_batch)
next_batch-Sendable_example = next_batch-Sendable (plan_of one_row) plan-IsReady.0 one_batch

-- A source that raises on the first `next`.
abbrev broken : List Next
broken = fails (config_error (codes "no row")) ∷ []

abbrev broken_stop : Fault
broken_stop = stop (plan_of broken) (config_error (codes "no row")) input

broken_batch : next_batch (plan_of broken) ≡ err broken_stop
unfolding next_batch
broken_batch = refl

broken-IsReady : IsReady 1 broken (plan_of broken)
broken-IsReady =
    make_planner-IsReady (codes "T") (codes "A" ∷ []) none broken (int (pos 10)) (int (pos 1000))
      (ok []) (make_plan broken)

next_batch_stops_example :
    (fill 10 (plan_of broken) empty_buffer ≡ err broken_stop)
    × ((e : Exc) → broken_stop ≢ escaped e)
next_batch_stops_example = next_batch_stops (plan_of broken) broken-IsReady.0 broken_batch

next_batch-StopsAt_example : StopsAt (plan_of broken) broken_stop
next_batch-StopsAt_example =
    next_batch-StopsAt (plan_of broken) broken_stop broken-IsReady.0 broken_batch
