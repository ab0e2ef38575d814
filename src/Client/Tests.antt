-- ===== src/Client/Tests.antt =====
-- A session whose clock is the number of requests and pauses, and the client's theorems in it.
use snowflake_sql_api.Common.{
  List, ℕ, suc, ◌*◌, codes, true, false, none, some, [], ◌∷◌, ok, err, ◌≡◌, refl, arith, traverse,
  contains, split, join, text_eq,
}
use snowflake_sql_api.Common.Int.{pos, ◌+ℤ◌}
use snowflake_sql_api.Errors
use snowflake_sql_api.Errors.{Exc, Value, str, obj, Fields, end, field, has_key, get_or}
use snowflake_sql_api.Escaping.{quote_identifier, quote_name, double_quotes}
use snowflake_sql_api.Bindings.{int}
use snowflake_sql_api.Batches.Planner.{placeholder_of}
use snowflake_sql_api.Batches.Planner.Step.{statement}
use snowflake_sql_api.Batches.Tests.{one_row, plan_of, make_plan, sent_batch}
use snowflake_sql_api.Batches.Execution
use snowflake_sql_api.Batches.Execution.{start}
use snowflake_sql_api.Transport.{interpret}
use snowflake_sql_api.Transport.Send.{Environment, responded}
use snowflake_sql_api.Transport.Calls.{submit}
use snowflake_sql_api.Client.Batching.Outcomes.{Told, run_batch-Told}
use snowflake_sql_api.Transport.Tests.{flaky, answer, handle_body}
use snowflake_sql_api.Client.Poll.{Waiting, Polled, poll}
use snowflake_sql_api.Client.Poll.Ends.{IsTimed, Finished, poll_ends}
use snowflake_sql_api.Client.Batching.{Session, Inserted, insert_loop, Tried, run_batch}
use snowflake_sql_api.Client.Batching.Ledger.{Accounted, insert_batches_accounts}
use snowflake_sql_api.Client.Affected.{rows_affected, is_negative, rows_affected_strict}
use snowflake_sql_api.Client.Payload.{Context}
use snowflake_sql_api.Client.Run.{submission_id, id_text, submit_handle}
use snowflake_sql_api.Client.Run.Identity.{Labelled, submit_handle-Labelled}
use snowflake_sql_api.Client.Chunks.{IsSplit, query_batches, query_batches-IsSplit}
use snowflake_sql_api.Client.Insert.{insert_statement, flatten, insert_statement-statement}

abbrev waiting : Waiting flaky
waiting = record {
  monotonic = λ w. (w, w);
  pause = λ w. suc w;
  handle_text = λ v. codes "h";
  wait_text = λ n. codes "5";
}

abbrev clock : ℕ → ℕ
clock w = w

timed : IsTimed flaky waiting clock
timed = record {
  transport = record {
    headers_later = λ w. omega arith;
    request_later = λ r w. omega arith;
    sleep_later = λ n r w. omega arith;
  };
  read = λ w. refl;
  read_later = λ w. omega arith;
  pause_later = λ w. omega arith;
}

poll_ends_example :
    (p : Polled flaky waiting) × (poll flaky waiting 6 (str (codes "h")) (some 5) true 0 ≡ some p)
    × Finished flaky waiting p
poll_ends_example = poll_ends flaky waiting clock timed (str (codes "h")) (some 5) true 0

abbrev session : Session flaky
session = record {
  waiting = waiting;
  limit = some 5;
  notify = λ sql params w. (none, w);
  fresh_id = λ w. (codes "id", suc w);
  parse_int = λ s. none;
}

insert_batches_accounts_example :
    (out : Inserted flaky session) × (insert_loop flaky session 6 2 (plan_of one_row) 0 ≡ some out)
    × Accounted 1 out.0
insert_batches_accounts_example =
    insert_batches_accounts flaky session clock timed (codes "T") (codes "A" ∷ []) none one_row
      (int (pos 10)) (int (pos 1000)) (ok []) 0 (make_plan one_row)

abbrev counted_body : Fields
counted_body =
    field (codes "stats") (obj (field (codes "numRowsInserted") (Errors.int (pos 3)) end)) end

three_rows : rows_affected (λ s. none) counted_body true ≡ ok (pos 3)
unfolding rows_affected get_or text_eq has_key ◌+ℤ◌
three_rows = refl

rows_affected_strict_example : is_negative (pos 3) ≡ false
rows_affected_strict_example = rows_affected_strict (λ s. none) counted_body three_rows

two_rows :
    insert_statement (codes "T") (codes "A" ∷ []) ((int (pos 1) ∷ []) ∷ (int (pos 2) ∷ []) ∷ [])
    ≡ ok (some (codes "INSERT INTO \"T\" (\"A\") VALUES (?), (?)", int (pos 1) ∷ int (pos 2) ∷ []))
unfolding insert_statement flatten quote_identifier quote_name double_quotes traverse contains split
    join placeholder_of
two_rows = refl

insert_statement-statement_example :
    (codes "INSERT INTO \"T\" (\"A\") VALUES (?), (?)" ≡ statement (plan_of one_row) 2)
    × (2 ≡ 1 * 2)
insert_statement-statement_example =
    insert_statement-statement (codes "T") (codes "A" ∷ [])
      ((int (pos 1) ∷ []) ∷ (int (pos 2) ∷ []) ∷ []) none one_row (int (pos 10)) (int (pos 1000))
      (ok []) (make_plan one_row) two_rows

abbrev no_context : Context
no_context = record {
  statement_timeout = none;
  database = none;
  schema = none;
  warehouse = none;
  role = none;
  timezone = none;
  parameters = end;
}

given_id :
    submission_id flaky session no_context (λ s. some s) (id_text (codes "u")) true 0
    ≡ (ok (codes "u"), 0)
unfolding submission_id
given_id = refl

submit_handle-Labelled_example :
    Labelled flaky session no_context
      (λ s. some s)
      (codes "u")
      (submit_handle flaky session no_context
        (λ s. some s)
        (codes "select 1")
        []
        (id_text (codes "u"))
        true
        0).0
submit_handle-Labelled_example =
    submit_handle-Labelled flaky session no_context (λ s. some s) (codes "select 1") []
      (id_text (codes "u")) true 0 given_id refl

abbrev three : List ℕ
three = 1 ∷ 2 ∷ 3 ∷ []

query_batches-IsSplit_example : IsSplit 2 three (query_batches 2 three)
query_batches-IsSplit_example = query_batches-IsSplit 2 three (omega arith)

-- A service that forbids every request.
abbrev forbidding : Environment
forbidding = record (flaky) { request = λ r w. (responded (answer 403 handle_body), suc w) }

abbrev session_forbidden : Session forbidding
session_forbidden = record {
  waiting = record {
    monotonic = λ w. (w, w);
    pause = λ w. suc w;
    handle_text = λ v. codes "h";
    wait_text = λ n. codes "5";
  };
  limit = none;
  notify = λ sql params w. (none, w);
  fresh_id = λ w. (codes "id", w);
  parse_int = λ s. none;
}

first_batch :
    (t : Tried forbidding session_forbidden) × (e : Exc) × (run_batch forbidding session_forbidden 3
        (start (plan_of one_row) sent_batch (codes "id"))
        sent_batch
        0
      ≡ some t)
    × (t.result ≡ err e)
unfolding run_batch interpret
first_batch = (_, _, refl, refl)

run_batch-Told_example :
    Told forbidding session_forbidden
      (submit forbidding end (codes "id") false false (some sent_batch.content) 0)
      first_batch.1
      (Execution.error first_batch.0.execution first_batch.1)
run_batch-Told_example =
    run_batch-Told forbidding session_forbidden 3 (plan_of one_row) sent_batch (codes "id") 0
      first_batch.2 first_batch.3
