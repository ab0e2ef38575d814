-- ===== src/Transport/Calls.antt =====
-- `submit`, `get_statement` and `cancel` of the two transports.
use snowflake_sql_api.Common.{
  ℕ, Text, codes, Bool, true, false, Option, none, some, [], ◌∷◌, ◌++◌, Result, if◌then◌else◌,
}
use snowflake_sql_api.Common.Decimal.{decimal}
use snowflake_sql_api.Errors.{Exc, Fields}
use snowflake_sql_api.Batches.Encode.{Bytes}
use snowflake_sql_api.Transport.{StatementResponse}
use snowflake_sql_api.Transport.Send.{
  Environment, Params, set_param, Payload, no_payload, json, content, Sending, send,
}

abbrev pub statements_path : Text
statements_path = codes "/api/v2/statements"

-- `_submit_params`
unfoldable pub submit_params : Text → Bool → Bool → Params
unfolding set_param
submit_params request_id async_exec retry =
    let params = (codes "requestId", request_id) ∷ [] in
    let params1 : Params =
      if retry then set_param (codes "retry") (codes "true") params else params in
    if async_exec then set_param (codes "async") (codes "true") params1 else params1

-- `_status_path`
abbrev pub status_path : Text → Text
status_path handle = statements_path ++ (codes "/" ++ handle)

-- `json=payload if content is None else None`
abbrev pub payload_of : Fields → Option Bytes → Payload
payload_of payload none = json payload
payload_of payload (some bytes) = content bytes

abbrev pub partition_params : Option ℕ → Params
partition_params none = []
partition_params (some n) = (codes "partition", decimal n) ∷ []

module _ (env : Environment) where
  unfoldable pub submit :
      Fields
      → Text
      → Bool
      → Bool
      → Option Bytes
      → env.World
      → Result Exc StatementResponse × Sending env
  unfolding submit_params send
  submit payload request_id async_exec retry bytes w =
      send env (codes "POST") statements_path (payload_of payload bytes) true
        (some (submit_params request_id async_exec retry)) w

  unfoldable pub get_statement :
      Text → Option ℕ → env.World → Result Exc StatementResponse × Sending env
  unfolding send
  get_statement handle partition w =
      send env (codes "GET") (status_path handle) no_payload false
        (some (partition_params partition)) w

  unfoldable pub cancel : Text → env.World → Result Exc StatementResponse × Sending env
  unfolding send
  cancel handle w =
      send env (codes "POST") (status_path handle ++ codes "/cancel") no_payload false none w
