-- ===== src/Transport/Send.antt =====
-- `_send` of the two transports, with its retry loop, and the requests that are made through it.
-- The HTTP client, the authenticator and the waiting are the environment, whose world changes as
-- it is used.
use snowflake_sql_api.Common.{
  ℕ, zero, suc, ◌+◌, Text, codes, Bool, not, ◌&&◌, Option, none, some, List, [], ◌∷◌, ◌++◌, Result,
  ok, err, if◌then◌else◌, text_eq,
}
use snowflake_sql_api.Common.Decimal.{decimal}
use snowflake_sql_api.Errors.{
  Value, null, Fields, truthy, Exc, raised, raised_from, info, with_info, plain, retry,
}
use snowflake_sql_api.Batches.Encode.{Bytes}
use snowflake_sql_api.Transport.{Response, StatementResponse, interpret, retry_error}

abbrev pub Params : Type 0
Params = List (Text × Text)

-- `{**params, key: value}`
unfoldable pub set_param : Text → Text → Params → Params
set_param k v [] = (k, v) ∷ []
set_param k v ((j, w) ∷ ps) = if text_eq j k then (k, v) ∷ ps else (j, w) ∷ set_param k v ps

-- `params.get(key)`
unfoldable pub get_param : Text → Params → Option Text
get_param k [] = none
get_param k ((j, w) ∷ ps) = if text_eq j k then some w else get_param k ps

-- The `json` and `content` arguments; at most one of them is given.
pub data Payload : Type 0 where
  no_payload : Payload
  json : Fields → Payload
  content : Bytes → Payload

pub record Request : Type 0 where
  pub method : Text
  pub path : Text
  pub params : Option Params
  pub payload : Payload

-- What `self._client.request` gives: a response, an `httpx.TransportError`, or another exception.
pub data Reply : Type 0 where
  responded : Response → Reply
  transport_error : Exc → Reply
  other_error : Exc → Reply

pub record Environment : Type 1 where
  pub World : Type 0
  -- `self._headers()`, which signs a token: what it raises, if it does
  pub headers : World → Option Exc × World
  pub request : Request → World → Reply × World
  -- `time.sleep(self._retry_delay(attempt, response))`: what it raises, if it does
  pub sleep : ℕ → Option Response → World → Option Exc × World
  -- the retry policy
  pub max_attempts : ℕ
  pub should_retry_status : ℕ → Bool

module _ (env : Environment) where
  open env use {World, headers, request, sleep, max_attempts, should_retry_status}

  -- The variables of `_send`, the world, and the requests that were made so far.
  pub record Sending : Type 0 where
    pub params : Option Params
    pub attempts : ℕ
    pub known_handle : Value
    pub last_exc : Option Exc
    pub retry_response : Option Response
    pub sent : List Request
    pub world : World

  abbrev pub start : Option Params → World → Sending
  start params w = record {
    params = params;
    attempts = 0;
    known_handle = null;
    last_exc = none;
    retry_response = none;
    sent = [];
    world = w;
  }

  -- How the loop ends, and how a round of it does.
  pub data Ending : Type 0 where
    returned : StatementResponse → Sending → Ending
    raises : Exc → Sending → Ending

  pub data Verdict : Type 0 where
    again : Sending → Verdict
    ended : Ending → Verdict

  module _ (method path : Text) (payload : Payload) (is_submit : Bool) where
    abbrev pub make_request : Sending → Request
    make_request s = record { method = method; path = path; params = s.params; payload = payload }

    -- `response` in hand
    unfoldable pub judge : Response → Sending → Verdict
    judge r s =
        if should_retry_status r.status_code
        then again (record s {
          retry_response = some r;
          last_exc = some (retry_error r);
          known_handle =
              (if is_submit && truthy (info (retry_error r)).statement_handle
                then (info (retry_error r)).statement_handle
                else s.known_handle);
        })
        else elim (interpret r) [
          | ok response ↦ ended (returned response s)
          | err e ↦ ended (raises e s)
        ]

    abbrev pub receive : Reply → Sending → Verdict
    receive (responded r) s = judge r s
    receive (transport_error e) s = again (record s { last_exc = some e })
    receive (other_error e) s = ended (raises e s)

    abbrev pub after_request : Sending → World → Sending
    after_request s w = record s {
      attempts = s.attempts + 1;
      sent = s.sent ++ make_request s ∷ [];
      world = w;
    }

    -- the `try` block: the headers, and the request that counts as an attempt
    abbrev pub signed : Option Exc → Sending → Verdict
    signed (some e) s = ended (raises e s)
    signed none s =
        let (reply, w) = request (make_request s) s.world in receive reply (after_request s w)

    unfoldable pub exchange : Sending → Verdict
    unfolding judge
    exchange s0 =
        let s = record s0 { retry_response = none } in
        let (refusal, w) = headers s.world in signed refusal (record s { world = w })

    abbrev pub with_retry : Option Params → Option Params
    with_retry none = none
    with_retry (some ps) =
        if is_submit then some (set_param (codes "retry") (codes "true") ps) else some ps

    abbrev pub rested : Option Exc → Sending → Verdict
    rested (some e) s = ended (raises e s)
    rested none s = exchange s

    -- One round of `for attempt in range(max_attempts)`.
    unfoldable pub attempt : ℕ → Sending → Verdict
    unfolding exchange
    attempt zero s = exchange s
    attempt (suc n) s =
        let s' = record s { params = with_retry s.params } in
        let (e, w) = sleep n s'.retry_response s'.world in rested e (record s' { world = w })

    abbrev pub exhausted : Option Exc → Exc
    exhausted none = raised (
        plain retry
          (codes "retries exhausted after " ++ (decimal max_attempts ++ codes " attempts")))
    exhausted (some e) =
        raised_from
          (plain retry
            (codes "retries exhausted after " ++ (decimal max_attempts ++ codes " attempts")))
          e

    abbrev pub go_round : (Sending → Ending) → Verdict → Ending
    go_round loop (again s) = loop s
    go_round loop (ended e) = e

    -- The loop with `left` rounds to go, the next of which is round `n`.
    unfoldable pub rounds : ℕ → ℕ → Sending → Ending
    unfolding attempt
    rounds zero n s = raises (exhausted s.last_exc) s
    rounds (suc left) n s = go_round (rounds left (suc n)) (attempt n s)

    abbrev pub counted : ℕ → Option ℕ
    counted n = if is_submit then some n else none

    -- The attributes that the outer `except` sets on the exception that it passes on.
    unfoldable pub annotate : Exc → Sending → Exc
    annotate e s = with_info e (record (info e) {
      submission_attempts = counted s.attempts;
      statement_handle =
          (if truthy s.known_handle && not (truthy (info e).statement_handle)
            then s.known_handle
            else (info e).statement_handle);
    })

    abbrev pub conclude : Ending → Result Exc StatementResponse × Sending
    conclude (returned r s) = (
      ok (record r {
        submission_attempts = counted s.attempts;
        submission_handle = s.known_handle;
      }),
      s,
    )
    conclude (raises e s) = (err (annotate e s), s)

    -- `_send`, with what it leaves
    unfoldable pub send : Option Params → World → Result Exc StatementResponse × Sending
    unfolding rounds annotate
    send params w = conclude (rounds max_attempts 0 (start params w))
