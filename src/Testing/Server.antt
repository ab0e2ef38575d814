-- ===== src/Testing/Server.antt =====
-- `FakeSnowflake` of testing.py: the handling of a request.
pub mod Served
pub mod Handles
pub mod History
pub mod Polling
pub mod Fetching
pub mod Submitting
pub mod Results
pub mod Querying
pub mod Registered
use snowflake_sql_api.Common.{
  ℕ, zero, suc, ◌+◌, ◌-◌, Text, codes, Bool, true, false, ◌&&◌, ◌||◌, Option, none, some, List, [],
  ◌∷◌, ◌++◌, length, get_elem?, Result, ok, err, ◌>>=◌, if◌then◌else◌, text_eq, ltb, ◌==◌,
}
use snowflake_sql_api.Common.Int.{ℤ, pos, negsuc}
use snowflake_sql_api.Common.Decimal.{decimal, decimal_int}
use snowflake_sql_api.Common.Parsing.{parse_int}
use snowflake_sql_api.Common.Dict.{find, insert}
use snowflake_sql_api.Errors.{
  Value, null, str, arr, obj, Fields, end, field, get_or, Exc, raised, plain, foreign,
}
use snowflake_sql_api.Batches.Encode.{Bytes}
use snowflake_sql_api.Transport.{Response}
use snowflake_sql_api.Transport.Send.{
  Params, get_param, Payload, no_payload, json, content, Request, Reply, responded, other_error,
}
use snowflake_sql_api.Transport.Calls.{statements_path}
use snowflake_sql_api.Testing.Wire.{Writing}
use snowflake_sql_api.Testing.Bodies.{array, ok_body, running_body}
use snowflake_sql_api.Testing.Registry.{
  fake_error, RowInput, ColumnSpec, ErrorSpec, Registration, build,
}
use snowflake_sql_api.Testing.State.{State, FakeSnowflake, lookup, next_handle}
use snowflake_sql_api.Testing.Paths.{starts_with, ends_with, last_segment}

-- What the fake takes from `json` and `repr`: the text of a body, the value of a request's content,
-- and the message's form of a statement. The content of a request that was given by `json` reads
-- back as that object.
pub record Codec : Type 0 where
  pub dumps : Fields → Text
  pub loads : Bytes → Option Value
  pub repr : Value → Text

abbrev raises {ℓ} : {A : Type ℓ} → Text → Result Exc A
raises m = err (raised (plain foreign m))

abbrev pub default_text : Value → Result Exc Value
default_text (obj fs) = ok (get_or (codes "statement") fs (str []))
default_text _ = raises (codes "AttributeError")

abbrev loaded : Option Value → Result Exc Value
loaded none = raises (codes "JSONDecodeError")
loaded (some v) = default_text v

abbrev optional_text : Option Text → Value
optional_text none = null
optional_text (some s) = str s

abbrev pub param_of : Text → Option Params → Option Text
param_of key none = none
param_of key (some params) = get_param key params

abbrev pub is_text : Text → Option Text → Bool
is_text expected none = false
is_text expected (some s) = text_eq s expected

module _ (codec : Codec) where
  unfoldable pub statement_of : Payload → Result Exc Value
  statement_of no_payload = loaded (codec.loads [])
  statement_of (json fs) = ok (get_or (codes "statement") fs (str []))
  statement_of (content bytes) = loaded (codec.loads bytes)

  abbrev pub response : ℕ → Fields → Response
  response status body = record {
    status_code = status;
    parsed = some (obj body);
    text = codec.dumps body;
    retry_after = none;
  }

  abbrev pub respond : ℕ → Fields → Reply
  respond status body = responded (response status body)

  abbrev replied : ℕ → Result Exc Fields → Reply
  replied status (err e) = other_error e
  replied status (ok body) = respond status body

  abbrev or_missing {ℓ} : {A : Type ℓ} → Text → Option A → Result Exc A
  or_missing name none = raises name
  or_missing name (some a) = ok a

  -- The body of `_result_response`.
  unfoldable pub result_body : Text → FakeSnowflake → Result Exc Fields
  unfolding ok_body
  result_body handle f = do
    state ← or_missing (codes "KeyError") (find handle f.states)
    first ← or_missing (codes "IndexError") (get_elem? state.reg.chunks 0)
    ok_body state.reg.row_type first (length state.reg.chunks) handle state.reg.stats

  -- `_result_response`
  unfoldable pub result_response : Text → FakeSnowflake → Reply
  unfolding result_body
  result_response handle f = replied 200 (result_body handle f)

  abbrev pub failure : Text → ErrorSpec → Fields
  failure handle error = field (codes "message") (str error.message) (
      field (codes "code") (optional_text error.code) (
        field (codes "sqlState") (optional_text error.sql_state)
          (field (codes "statementHandle") (str handle) end)))

  abbrev pub keep_state : Text → Registration → FakeSnowflake → FakeSnowflake
  keep_state handle reg f = record f {
    states =
        insert handle (record { reg = reg; remaining_polls = reg.polls_before_ready }) f.states;
  }

  abbrev pub is_async : Request → Bool
  is_async r = is_text (codes "true") (param_of (codes "async") r.params)

  abbrev pub started : Request → Text → Registration → FakeSnowflake → Reply × FakeSnowflake
  started r handle reg f =
      if is_async r || ltb 0 reg.polls_before_ready
      then (respond 202 (running_body handle (codes "333334")), f)
      else (result_response handle f, f)

  abbrev pub submit_known :
      Request → Registration → Option ErrorSpec → Text × FakeSnowflake → Reply × FakeSnowflake
  submit_known r reg (some error) (handle, f) = (respond error.status (failure handle error), f)
  submit_known r reg none (handle, f) = started r handle reg (keep_state handle reg f)

  abbrev pub answer_submit :
      Request → FakeSnowflake → Value → Result Exc (Option Registration) → Reply × FakeSnowflake
  answer_submit r f sql (err e) = (other_error e, f)
  answer_submit r f sql (ok none) =
      (other_error (fake_error (codes "no result registered for statement: " ++ codec.repr sql)), f)
  answer_submit r f sql (ok (some reg)) = submit_known r reg reg.error (next_handle f)

  abbrev pub read_submit : Request → FakeSnowflake → Result Exc Value → Reply × FakeSnowflake
  read_submit r f (err e) = (other_error e, f)
  read_submit r f (ok sql) = answer_submit r f sql (lookup sql f)

  -- `_on_submit`
  unfoldable pub on_submit : Request → FakeSnowflake → Reply × FakeSnowflake
  unfolding statement_of lookup next_handle result_response running_body
  on_submit r f = read_submit r f (statement_of r.payload)

  abbrev pub chunk_at : List (List Value) → ℤ → Option (List Value)
  chunk_at chunks (pos n) = get_elem? chunks n
  chunk_at chunks (negsuc n) = none

  abbrev pub page : ℤ → List (List Value) → Option (List Value) → Reply
  page index chunks none = other_error (
      fake_error (
        codes "partition "
        ++ (decimal_int index
            ++ (codes " out of range (have " ++ (decimal (length chunks) ++ codes ")")))))
  page index chunks (some rows) = respond 200 (field (codes "data") (array rows) end)

  abbrev pub read_page : List (List Value) → Option ℤ → Reply
  read_page chunks none = other_error (raised (plain foreign (codes "ValueError")))
  read_page chunks (some index) = page index chunks (chunk_at chunks index)

  abbrev pub polled : Text → State → FakeSnowflake → ℕ → Reply × FakeSnowflake
  polled handle state f zero = (result_response handle f, f)
  polled handle state f (suc n) = (
    respond 202 (running_body handle (codes "333334")),
    record f { states = insert handle (record state { remaining_polls = n }) f.states },
  )

  abbrev pub answer_get : Text → FakeSnowflake → State → Option Text → Reply × FakeSnowflake
  answer_get handle f state (some partition) = (read_page state.reg.chunks (parse_int partition), f)
  answer_get handle f state none = polled handle state f state.remaining_polls

  abbrev pub known_get : Request → Text → FakeSnowflake → Option State → Reply × FakeSnowflake
  known_get r handle f none =
      (other_error (fake_error (codes "unknown statement handle: " ++ handle)), f)
  known_get r handle f (some state) =
      answer_get handle f state (param_of (codes "partition") r.params)

  -- `_on_get`
  unfoldable pub on_get : Request → FakeSnowflake → Reply × FakeSnowflake
  unfolding last_segment result_response running_body
  on_get r f = let handle = last_segment [] r.path in known_get r handle f (find handle f.states)

  abbrev pub is_post : Request → Bool
  is_post r = text_eq r.method (codes "POST")

  abbrev pub is_get : Request → Bool
  is_get r = text_eq r.method (codes "GET")

  -- `handle`, with the request in the log
  unfoldable pub routed : Request → FakeSnowflake → Reply × FakeSnowflake
  unfolding on_submit on_get starts_with ends_with
  routed r f =
      if is_post r && text_eq r.path statements_path
      then on_submit r f
      else if is_post r && ends_with (codes "/cancel") r.path
      then (respond 200 (field (codes "code") (str (codes "090001")) end), f)
      else if is_get r && starts_with (statements_path ++ codes "/") r.path
      then on_get r f
      else (
        other_error
            (fake_error (codes "unexpected request: " ++ (r.method ++ (codes " " ++ r.path)))),
        f,
      )

  -- `handle`
  unfoldable pub handle : Request → FakeSnowflake → Reply × FakeSnowflake
  unfolding routed
  handle r f = routed r (record f { requests = f.requests ++ r ∷ [] })

  -- `submitted_statements`
  unfoldable pub submitted_statements : List Request → Result Exc (List Value)
  unfolding statement_of
  submitted_statements [] = ok []
  submitted_statements (r ∷ rs) =
      let rest = submitted_statements rs in
      if is_post r && text_eq r.path statements_path
      then (do sql ← statement_of r.payload; sqls ← rest; ok (sql ∷ sqls))
      else rest
