-- ===== src/Transport/Tests.antt =====
-- An environment that answers 503 once and then succeeds, and the theorems in it. Its world is the
-- number of requests and pauses so far.
use snowflake_sql_api.Common.{
  ℕ, suc, ◌+◌, ◌≤◌, ◌==◌, codes, true, false, none, some, [], ◌∷◌, if◌then◌else◌, ◌≡◌, refl, ◌⊎◌,
  length, replicate,
}
use snowflake_sql_api.Errors.{Value, Fields, str, obj, end, field}
use snowflake_sql_api.Transport.{Response}
use snowflake_sql_api.Transport.Reading.{IsBody, Reads, send-Reads}
use snowflake_sql_api.Transport.Send.{Environment, Request, responded, send, no_payload}
use snowflake_sql_api.Transport.Calls.{submit, statements_path, payload_of}
use snowflake_sql_api.Transport.Async.{async_submit}
use snowflake_sql_api.Transport.AsyncReplay.{async_submit-submit}
use snowflake_sql_api.Transport.Replay.{Submits, submit_replays}
use snowflake_sql_api.Transport.Attempts.{reported, send_reports}

abbrev pub answer : ℕ → Value → Response
answer status body = record {
  status_code = status;
  parsed = some body;
  text = [];
  retry_after = none;
}

abbrev pub handle_body : Value
handle_body = obj (field (codes "statementHandle") (str (codes "h")) end)

abbrev pub flaky : Environment
flaky = record {
  World = ℕ;
  headers = λ w. (none, w);
  request = λ r w. (responded (answer (if w == 0 then 503 else 200) handle_body), suc w);
  sleep = λ n r w. (none, suc w);
  max_attempts = 3;
  should_retry_status = λ n. n == 503;
}

submit_replays_example :
    ((submit flaky end (codes "id") false false none 0).1.sent ≡ [])
    ⊎ ((first again : Request) × (k : ℕ) × ((submit flaky end
            (codes "id")
            false
            false
            none
            0).1.sent
          ≡ first ∷ replicate k again)
        × (k + 1 ≤ 3)
        × Submits (codes "id") false (payload_of end none) none first
        × Submits (codes "id") false (payload_of end none) (some (codes "true")) again)
submit_replays_example = submit_replays flaky end (codes "id") false false none 0

send_reports_example :
    (reported flaky
        (codes "POST")
        statements_path
        no_payload
        true
        (send flaky (codes "POST") statements_path no_payload true none 0).0
      ≡ some (length (send flaky (codes "POST") statements_path no_payload true none 0).1.sent))
    × (length (send flaky (codes "POST") statements_path no_payload true none 0).1.sent ≤ 3)
send_reports_example = send_reports flaky (codes "POST") statements_path no_payload true none 0

-- A service that rejects every statement.
abbrev rejecting : Environment
rejecting = record (flaky) { request = λ r w. (responded (answer 422 handle_body), suc w) }

send-Reads_example :
    (body : Fields) × IsBody (answer 422 handle_body) body
    × Reads
        (answer 422 handle_body)
        body
        (send rejecting (codes "POST") statements_path no_payload true none 0).0
send-Reads_example =
    send-Reads rejecting (codes "POST") statements_path no_payload true none 0 {w2 = 1} {left = 2}
      {r = answer 422 handle_body} refl refl refl refl

async_submit-submit_example :
    async_submit flaky end (codes "id") true false none 0
    ≡ submit flaky end (codes "id") true false none 0
async_submit-submit_example = async_submit-submit flaky end (codes "id") true false none 0
