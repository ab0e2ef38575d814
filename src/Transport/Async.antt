-- ===== src/Transport/Async.antt =====
-- `AsyncTransport` of transport.py, with the retry loop of its own `_send`, in which `await` stands
-- on the request and on the sleep. The variables of a call belong to the call, so that what other
-- tasks do in between is part of the environment. A `continue` is the call of the rounds to go. The
-- outer `except Exception` does not see a task cancellation; here it gets the attributes too.
use snowflake_sql_api.Common.{
  ℕ, zero, suc, ◌+◌, Text, codes, Bool, true, false, not, ◌&&◌, Option, none, some, [], ◌∷◌, ◌++◌,
  Result, ok, err, if◌then◌else◌,
}
use snowflake_sql_api.Common.Decimal.{decimal}
use snowflake_sql_api.Errors.{
  Exc, Info, Fields, null, truthy, raised, raised_from, info, with_info, plain, retry,
}
use snowflake_sql_api.Batches.Encode.{Bytes}
use snowflake_sql_api.Transport.{Response, StatementResponse, interpret, retry_error}
use snowflake_sql_api.Transport.Send.{
  Environment, Params, set_param, Payload, no_payload, Request, Reply, responded, transport_error,
  other_error, Sending, Ending, returned, raises,
}
use snowflake_sql_api.Transport.Calls.{
  statements_path, submit_params, status_path, payload_of, partition_params,
}

module _ (env : Environment) where
  module _ (method path : Text) (payload : Payload) (is_submit : Bool) where
    -- The response is retried, or returned, or raised.
    unfoldable pub async_judge : (Sending env → Ending env) → Response → Sending env → Ending env
    async_judge continue r s =
        if env.should_retry_status r.status_code
        then (let e = retry_error r in
            continue (record s {
              retry_response = some r;
              last_exc = some e;
              known_handle =
                  (if is_submit && truthy (info e).statement_handle
                    then (info e).statement_handle
                    else s.known_handle);
            }))
        else elim (interpret r) [ ok response ↦ returned response s | err e ↦ raises e s ]

    abbrev pub async_answered :
        (Sending env → Ending env) → Sending env → Reply × env.World → Ending env
    async_answered continue s (responded r, w) = async_judge continue r (record s { world = w })
    async_answered continue s (transport_error e, w) =
        continue (record s { last_exc = some e; world = w })
    async_answered continue s (other_error e, w) = raises e (record s { world = w })

    abbrev pub async_signed :
        (Sending env → Ending env) → Sending env → Option Exc × env.World → Ending env
    async_signed continue s (some e, w) = raises e (record s { world = w })
    async_signed continue s (none, w) =
        let r : Request = record {
          method = method;
          path = path;
          params = s.params;
          payload = payload;
        } in
        async_answered continue
          (record s { attempts = s.attempts + 1; sent = s.sent ++ r ∷ []; world = w })
          (env.request r w)

    -- the round behind the sleep
    unfoldable pub async_exchange : (Sending env → Ending env) → Sending env → Ending env
    unfolding async_judge
    async_exchange continue s =
        async_signed continue (record s { retry_response = none }) (env.headers s.world)

    abbrev pub async_with_retry : Option Params → Option Params
    async_with_retry none = none
    async_with_retry (some ps) =
        some (if is_submit then set_param (codes "retry") (codes "true") ps else ps)

    abbrev pub async_rested :
        (Sending env → Ending env) → Sending env → Option Exc × env.World → Ending env
    async_rested continue s (some e, w) = raises e (record s { world = w })
    async_rested continue s (none, w) = async_exchange continue (record s { world = w })

    -- the round `n`
    unfoldable pub async_round : (Sending env → Ending env) → ℕ → Sending env → Ending env
    unfolding async_exchange set_param
    async_round continue zero s = async_exchange continue s
    async_round continue (suc n) s =
        async_rested continue (record s { params = async_with_retry s.params })
          (env.sleep n s.retry_response s.world)

    abbrev pub async_exhausted : Option Exc → Exc
    async_exhausted last_exc =
        let failure : Info =
          plain retry
            (codes "retries exhausted after " ++ (decimal env.max_attempts ++ codes " attempts")) in
        elim last_exc [ none ↦ raised failure | some e ↦ raised_from failure e ]

    -- The loop with `left` rounds to go, the next of which is round `n`.
    unfoldable pub async_rounds : ℕ → ℕ → Sending env → Ending env
    unfolding async_round
    async_rounds zero n s = raises (async_exhausted s.last_exc) s
    async_rounds (suc left) n s = async_round (async_rounds left (suc n)) n s

    -- The response or the exception that leaves the coroutine.
    abbrev pub settle_send : Ending env → Result Exc StatementResponse × Sending env
    settle_send (returned r s) = (
      ok (record r {
        submission_attempts = (if is_submit then some s.attempts else none);
        submission_handle = s.known_handle;
      }),
      s,
    )
    settle_send (raises e s) =
        let i : Info = record (info e) {
          submission_attempts = (if is_submit then some s.attempts else none);
        } in
        (
          err (
              with_info e (
                if truthy s.known_handle && not (truthy i.statement_handle)
                then record i { statement_handle = s.known_handle }
                else i)),
          s,
        )

  -- `AsyncTransport._send`
  unfoldable pub async_send :
      Text
      → Text
      → Payload
      → Bool
      → Option Params
      → env.World
      → Result Exc StatementResponse × Sending env
  unfolding async_rounds
  async_send method path payload is_submit params w = settle_send method path payload is_submit (
      async_rounds method path payload is_submit env.max_attempts 0 (record {
        params = params;
        attempts = 0;
        known_handle = null;
        last_exc = none;
        retry_response = none;
        sent = [];
        world = w;
      }))

  unfoldable pub async_submit :
      Fields
      → Text
      → Bool
      → Bool
      → Option Bytes
      → env.World
      → Result Exc StatementResponse × Sending env
  unfolding submit_params async_send
  async_submit payload request_id async_exec again bytes w =
      async_send (codes "POST") statements_path (payload_of payload bytes) true
        (some (submit_params request_id async_exec again)) w

  unfoldable pub async_get_statement :
      Text → Option ℕ → env.World → Result Exc StatementResponse × Sending env
  unfolding async_send
  async_get_statement handle partition w =
      async_send (codes "GET") (status_path handle) no_payload false
        (some (partition_params partition)) w

  unfoldable pub async_cancel : Text → env.World → Result Exc StatementResponse × Sending env
  unfolding async_send
  async_cancel handle w =
      async_send (codes "POST") (status_path handle ++ codes "/cancel") no_payload false none w
