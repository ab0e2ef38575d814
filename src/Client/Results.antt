-- ===== src/Client/Results.antt =====
-- `_columns_from`, `_prepare_result`, `_collect` and the query methods of client.py, and
-- `QueryHandle.result` and `cancel`.
use snowflake_sql_api.Common.{
  ℕ, Text, codes, Bool, true, false, Option, none, some, List, [], ◌∷◌, map, Result, ok, err, ◌>>=◌,
  traverse, if◌then◌else◌,
}
use snowflake_sql_api.Errors.{
  Value, obj, arr, nil, end, get, get_or, or_else, is_none, Fields, Exc, raised, plain, foreign,
}
use snowflake_sql_api.Bindings.{PyValue, none_value}
use snowflake_sql_api.Transport.{StatementResponse, statement_handle}
use snowflake_sql_api.Transport.Send.{Environment, Sending}
use snowflake_sql_api.Transport.Calls.{get_statement, cancel}
use snowflake_sql_api.Types.{Reading, ColumnMeta, from_row_type}
use snowflake_sql_api.Types.Columns.{validate_column_names, Row, coerce_rows}
use snowflake_sql_api.Pagination.{list_of, fetch_all_partitions}
use snowflake_sql_api.Client.Batching.{Session}
use snowflake_sql_api.Client.Payload.{Context}
use snowflake_sql_api.Client.Run.{run, finished, no_handle, QueryHandle}

abbrev row_types : Value → Result Exc (List Value)
row_types (obj metadata) = list_of (get_or (codes "rowType") metadata (arr nil))
row_types _ = err (raised (plain foreign (codes "AttributeError")))

-- The columns of the entries of `rowType`; `listed` is the text of duplicate column names.
unfoldable pub columns_of :
    Reading → (List Value → Text) → List Value → Result Exc (List ColumnMeta)
unfolding from_row_type validate_column_names
columns_of py listed entries = do
  columns ← traverse (λ e. from_row_type py e) entries
  validated ← validate_column_names listed (codes "results") columns
  ok columns

-- `_columns_from`
unfoldable pub columns_from : Reading → (List Value → Text) → Fields → Result Exc (List ColumnMeta)
unfolding columns_of list_of
columns_from py listed body =
    row_types (or_else (get (codes "resultSetMetaData") body) (obj end)) >>= λ entries.
    columns_of py listed entries

-- `next(iter(row.values()), None)`
abbrev pub first_value : Row → PyValue
first_value [] = none_value
first_value ((name, v) ∷ row) = v

abbrev pub first_row : List Row → Option Row
first_row [] = none
first_row (row ∷ rows) = some row

abbrev pub scalar : Option Row → PyValue
scalar none = none_value
scalar (some row) = first_value row

module _ (env : Environment) (session : Session env) (context : Context)
    (canonical : Text → Option Text) (py : Reading) (listed : List Value → Text) where
  -- What a call on fuel leaves.
  abbrev pub Ran {ℓ} : Type ℓ → Type ℓ
  Ran A = Option (Result Exc A × env.World)

  abbrev pub and_then {ℓ κ} : {A : Type ℓ} {B : Type κ} → (A → Result Exc B) → Ran A → Ran B
  and_then next none = none
  and_then next (some (a, w)) = some ((a >>= next), w)

  abbrev pub and_run {ℓ κ} :
      {A : Type ℓ} {B : Type κ} → (A → env.World → Result Exc B × env.World) → Ran A → Ran B
  and_run next none = none
  and_run next (some (err e, w)) = some (err e, w)
  and_run next (some (ok a, w)) = some (next a w)

  -- The result in hand: its columns, its handle and its body.
  pub record Prepared : Type 0 where
    pub columns : List ColumnMeta
    pub handle : Value
    pub body : Fields

  unfoldable pub read_result : StatementResponse → Result Exc Prepared
  unfolding columns_from statement_handle
  read_result r = columns_from py listed r.body >>= λ columns.
      if is_none (statement_handle r)
      then err (no_handle env session context canonical (codes "completed"))
      else ok (record { columns = columns; handle = statement_handle r; body = r.body })

  -- `_prepare_result`, of what the submission or the request for the status gave
  unfoldable pub prepare_result :
      ℕ → Option ℕ → Bool → Bool → Result Exc StatementResponse × env.World → Ran Prepared
  unfolding read_result
  prepare_result fuel limit cancel_on_timeout poll_it answer =
      and_then read_result
        (finished env session context canonical fuel limit cancel_on_timeout poll_it answer)

  abbrev pub Collected : Type 0
  Collected = List ColumnMeta × List Value

  abbrev pub with_columns :
      List ColumnMeta → Result Exc (List Value) × env.World → Result Exc Collected × env.World
  with_columns columns (rows, w) = ((rows >>= λ raw. ok (columns, raw)), w)

  abbrev pub gather_rows : Prepared → env.World → Result Exc Collected × env.World
  gather_rows p w =
      with_columns p.columns
        (fetch_all_partitions env (session.waiting.handle_text p.handle) p.body w)

  -- `_collect`
  unfoldable pub collect :
      ℕ → Option ℕ → Bool → Bool → Result Exc StatementResponse × env.World → Ran Collected
  unfolding prepare_result fetch_all_partitions
  collect fuel limit cancel_on_timeout poll_it answer =
      and_run gather_rows (prepare_result fuel limit cancel_on_timeout poll_it answer)

  abbrev pub rows_of : Collected → Result Exc (List Row)
  rows_of (columns, raw) = coerce_rows py columns raw

  unfoldable pub query : ℕ → Text → List PyValue → env.World → Ran (List Row)
  unfolding run collect coerce_rows
  query fuel sql params w =
      and_then rows_of (
        collect fuel session.limit true true (run env session context canonical sql params false w))

  unfoldable pub query_one : ℕ → Text → List PyValue → env.World → Ran (Option Row)
  unfolding query
  query_one fuel sql params w = and_then (λ rows. ok (first_row rows)) (query fuel sql params w)

  unfoldable pub query_scalar : ℕ → Text → List PyValue → env.World → Ran PyValue
  unfolding query_one
  query_scalar fuel sql params w = and_then (λ row. ok (scalar row)) (query_one fuel sql params w)

  unfoldable pub query_column : ℕ → Text → List PyValue → env.World → Ran (List PyValue)
  unfolding query
  query_column fuel sql params w =
      and_then (λ rows. ok (map first_value rows)) (query fuel sql params w)

  abbrev pub world_of :
      Result Exc StatementResponse × Sending env → Result Exc StatementResponse × env.World
  world_of (r, s) = (r, s.world)

  -- `QueryHandle.result`
  unfoldable pub result :
      ℕ → QueryHandle env session context canonical → Bool → Option ℕ → env.World → Ran (List Row)
  unfolding get_statement collect coerce_rows
  result fuel h poll_it limit w = and_then rows_of (
      collect fuel limit false poll_it
        (world_of (get_statement env (session.waiting.handle_text h.handle) none w)))

  -- `QueryHandle.cancel`
  abbrev pub unit_of :
      Result Exc StatementResponse × Sending env → Result Exc (Unit {0}) × env.World
  unit_of (r, s) = ((r >>= λ answer. ok tt), s.world)

  unfoldable pub cancel_query :
      QueryHandle env session context canonical → env.World → Result Exc (Unit {0}) × env.World
  unfolding cancel
  cancel_query h w = unit_of (cancel env (session.waiting.handle_text h.handle) w)
