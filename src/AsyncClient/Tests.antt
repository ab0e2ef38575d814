-- ===== src/AsyncClient/Tests.antt =====
-- A poll that is cut off at once, with a cancel request that is never done, and one that is not.
use snowflake_sql_api.Common.{
  ℕ, suc, Text, codes, true, false, none, some, Option, List, [], ◌∷◌, err, ◌≡◌, refl, arith, inr,
  text_eq,
}
use snowflake_sql_api.Errors.{Value, str, end, raised, plain, foreign, Exc}
use snowflake_sql_api.Transport.{interpret, json_body}
use snowflake_sql_api.Transport.Tests.{answer, handle_body}
use snowflake_sql_api.Transport.Send.{Environment, responded, other_error}
use snowflake_sql_api.Transport.Calls.{get_statement, cancel}
use snowflake_sql_api.Client.Poll.{Waiting, wait_of, poll}
use snowflake_sql_api.Client.Batching.{Session}
use snowflake_sql_api.Client.Payload.{Context}
use snowflake_sql_api.Common.Int.{pos}
use snowflake_sql_api.Bindings.{int}
use snowflake_sql_api.Client.Run.{insert_many}
use snowflake_sql_api.Client.Results.{query}
use snowflake_sql_api.Types.Tests.{reading}
use snowflake_sql_api.AsyncClient.Queries.{async_query, async_insert_many}
use snowflake_sql_api.AsyncClient.Queries.Agreement.{
  async_query-query, async_insert_many-insert_many,
}
use snowflake_sql_api.AsyncClient.{Tasks, async_poll_until, async_poll}
use snowflake_sql_api.AsyncClient.Agreement.{IsUndisturbed, async_poll-poll}
use snowflake_sql_api.AsyncClient.Cancelling.{IsTicking, Ended, async_poll_cancelled}

-- The service answers each request, in a tick.
abbrev steady : Environment
steady = record {
  World = ℕ;
  headers = λ w. (none, w);
  request = λ r w. (responded (answer 200 handle_body), suc w);
  sleep = λ n r w. (none, suc w);
  max_attempts = 1;
  should_retry_status = λ n. false;
}

abbrev cut_off : Exc
cut_off = raised (plain foreign (codes "CancelledError"))

-- Each request is cut off by a task cancellation.
abbrev cutting : Environment
cutting = record {
  World = ℕ;
  headers = λ w. (none, w);
  request = λ r w. (other_error cut_off, suc w);
  sleep = λ n r w. (none, suc w);
  max_attempts = 1;
  should_retry_status = λ n. false;
}

abbrev waiting : Waiting steady
waiting = record {
  monotonic = λ w. (w, w);
  pause = λ w. suc w;
  handle_text = λ v. codes "h";
  wait_text = λ n. [];
}

abbrev waiting_cut : Waiting cutting
waiting_cut = record {
  monotonic = λ w. (w, w);
  pause = λ w. suc w;
  handle_text = λ v. codes "h";
  wait_text = λ n. [];
}

abbrev tasks : Tasks steady
tasks = record {
  sleep = λ w. (none, suc w);
  spawn = λ c w. w;
  is_done = λ w. false;
  time = λ w. (w, w);
  wait = λ t w. suc w;
  abandon = λ w. w;
}

abbrev tasks_cut : Tasks cutting
tasks_cut = record {
  sleep = λ w. (none, suc w);
  spawn = λ c w. (c w).1.world;
  is_done = λ w. false;
  time = λ w. (w, w);
  wait = λ t w. suc w;
  abandon = λ w. w;
}

calm : IsUndisturbed steady waiting tasks
unfolding get_statement cancel interpret json_body
calm = record { reads = λ name w e h. cc; cancels = λ name w e h. cc; sleeps = λ w. refl }

async_poll-poll_example :
    async_poll steady waiting tasks 3 (str (codes "h")) none true 0
    ≡ poll steady waiting 3 (str (codes "h")) none true 0
async_poll-poll_example = async_poll-poll steady waiting tasks calm 3 (str (codes "h")) none true 0

abbrev now : ℕ → ℕ
now w = w

ticking : IsTicking cutting tasks_cut now
ticking = record {
  read = λ w. refl;
  read_later = λ w. omega arith;
  wait_later = λ t w. inr (omega arith);
}

cut_at_once :
    (fuel : ℕ)
    → async_poll_until cutting waiting_cut tasks_cut
        (suc fuel)
        (wait_of none)
        (str (codes "h"))
        (wait_of none)
        true
        0
      ≡ some (err cut_off, 1)
unfolding async_poll_until
cut_at_once fuel = refl

async_poll_cancelled_example :
    (w' : ℕ) × (async_poll cutting waiting_cut tasks_cut 6000000000 (str (codes "h")) none true 0
      ≡ some (err cut_off, w'))
    × Ended cutting waiting_cut tasks_cut now ticking (codes "h") 1 w'
unfolding text_eq
async_poll_cancelled_example =
    async_poll_cancelled cutting waiting_cut tasks_cut now ticking 6000000000 (str (codes "h")) none
      0 (omega arith) (cut_at_once 5999999999) refl

abbrev session : Session steady
session = record {
  waiting = waiting;
  limit = none;
  notify = λ sql params w. (none, w);
  fresh_id = λ w. (codes "id", w);
  parse_int = λ s. none;
}

abbrev context : Context
context = record {
  statement_timeout = none;
  database = none;
  schema = none;
  warehouse = none;
  role = none;
  timezone = none;
  parameters = end;
}

abbrev no_id : Text → Option Text
no_id s = none

abbrev no_names : List Value → Text
no_names ns = []

async_query-query_example :
    async_query steady session tasks context no_id reading no_names 3 (codes "SELECT 1") [] 0
    ≡ query steady session context no_id reading no_names 3 (codes "SELECT 1") [] 0
async_query-query_example =
    async_query-query steady session tasks calm context no_id reading no_names 3 (codes "SELECT 1")
      [] 0

async_insert_many-insert_many_example :
    async_insert_many steady session tasks context no_id reading no_names 3
      (codes "T")
      (codes "N" ∷ [])
      ((int (pos 5) ∷ []) ∷ [])
      0
    ≡ insert_many steady session context no_id 3
        (codes "T")
        (codes "N" ∷ [])
        ((int (pos 5) ∷ []) ∷ [])
        0
async_insert_many-insert_many_example =
    async_insert_many-insert_many steady session tasks calm context no_id reading no_names 3
      (codes "T") (codes "N" ∷ []) ((int (pos 5) ∷ []) ∷ []) 0
