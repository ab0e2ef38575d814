-- ===== src/Testing/Tests/Statement.antt =====
-- A fake that holds one statement of two partitions, with a poll to go, and the theorems in it.
use snowflake_sql_api.Common.{
  Text, codes, true, none, some, List, [], ◌∷◌, ◌++◌, ok, ◌≡◌, refl, arith, text_eq, traverse,
  Lacks,
}
use snowflake_sql_api.Common.Decimal.{decimal}
use snowflake_sql_api.Common.Dict.{find}
use snowflake_sql_api.Errors
use snowflake_sql_api.Errors.{Value, Fields, get_or, has_key}
use snowflake_sql_api.Types.{ColumnMeta}
use snowflake_sql_api.Types.Columns.{coerce_rows}
use snowflake_sql_api.Types.Tests.{reading}
use snowflake_sql_api.Client.Poll.{poll}
use snowflake_sql_api.Client.Results.{columns_of, query}
use snowflake_sql_api.Pagination.{fetch_all_partitions}
use snowflake_sql_api.Testing.Bodies.{array, ok_body}
use snowflake_sql_api.Testing.Registry.{Registration, row_type_entry}
use snowflake_sql_api.Testing.State.{State, FakeSnowflake}
use snowflake_sql_api.Testing.Server.{handle, result_body}
use snowflake_sql_api.Testing.Server.Served.{asks, answer_of}
use snowflake_sql_api.Testing.Server.Polling.{poll-served}
use snowflake_sql_api.Testing.Server.Fetching.{fetch_all_partitions-served}
use snowflake_sql_api.Testing.Server.Handles.{IsValid, Change, handle-Change}
use snowflake_sql_api.Testing.Server.History.{serve, Later, serve-Later}
use snowflake_sql_api.Testing.Server.Querying.{query-served}
use snowflake_sql_api.Testing.Tests.{
  codec, World, local, fake_of, clock, session, waiting, served, paced, quiet, context, select,
  column_n, no_names, no_id, payload_ok,
}

abbrev row : Text → Value
row s = array (Errors.str s ∷ [])

abbrev reg : Registration
reg = record {
  row_type = row_type_entry column_n ∷ [];
  chunks = (row (codes "5") ∷ []) ∷ (row (codes "7") ∷ []) ∷ [];
  polls_before_ready = 1;
  stats = none;
  error = none;
}

abbrev state : State
state = record { reg = reg; remaining_polls = 1 }

abbrev name : Text
name = codes "stmt-1"

abbrev holding : FakeSnowflake
holding = record {
  exact = (select, reg) ∷ [];
  predicates = [];
  states = (name, state) ∷ [];
  counter = 1;
  requests = [];
}

plain_name : Lacks 47 name
plain_name =
    (omega arith, (omega arith, (omega arith, (omega arith, (omega arith, (omega arith, tt))))))

held : find name holding.states ≡ some state
unfolding find text_eq
held = refl

known : find select holding.exact ≡ some reg
unfolding find text_eq
known = refl

made : (body : Fields) × (ok_body reg.row_type (row (codes "5") ∷ []) 2 name none ≡ ok body)
unfolding ok_body
made = (_, refl)

body_ok : result_body codec name holding ≡ ok made.0
unfolding result_body made find text_eq
body_ok = refl

poll-served_example :
    (w : World) × (poll local waiting 2 (Errors.str name) none true (0, holding)
      ≡ some (ok (answer_of 200 made.0), w))
    × (find name w.1.states ≡ some (record { reg = reg; remaining_polls = 0 }))
poll-served_example =
    poll-served codec local waiting fake_of clock 1 served paced name plain_name made.0
      (Errors.str name) refl true none 1 2 (0, holding) state held refl body_ok (omega arith)
      (omega arith)

fetch_all_partitions-served_example :
    (w' : World) × (fetch_all_partitions local name made.0 (0, holding)
      ≡ (ok (row (codes "5") ∷ row (codes "7") ∷ []), w'))
    × (w'.1.states ≡ holding.states)
fetch_all_partitions-served_example =
    fetch_all_partitions-served codec local fake_of served name plain_name state (0, holding) made.0
      held body_ok

columns_ok : (columns : List ColumnMeta) × (columns_of reading no_names reg.row_type ≡ ok columns)
unfolding columns_of text_eq get_or has_key traverse
columns_ok = (_, refl)

query-served_example :
    (w' : World) × (query local session context no_id reading no_names 2 select [] (0, holding)
      ≡ some (coerce_rows reading columns_ok.0 (row (codes "5") ∷ row (codes "7") ∷ []), w'))
query-served_example =
    query-served codec local session fake_of clock 1 served paced quiet context no_id reading
      no_names 2 select [] (0, holding) reg payload_ok known refl refl columns_ok.1 (omega arith)
      (omega arith)

handle-Change_example :
    Change holding (handle codec (asks name none) holding).1
    × ((handle codec (asks name none) holding).1.requests ≡ [] ++ asks name none ∷ [])
    × ((handle codec (asks name none) holding).1.exact ≡ holding.exact)
    × ((handle codec (asks name none) holding).1.predicates ≡ holding.predicates)
handle-Change_example = handle-Change codec (asks name none) holding

holding-IsValid : IsValid holding
unfolding decimal
holding-IsValid = ((1, refl, omega arith), tt)

serve-Later_example :
    IsValid (serve codec (asks name none ∷ asks name (some 1) ∷ []) holding)
    × Later state
        (find name (serve codec (asks name none ∷ asks name (some 1) ∷ []) holding).states)
serve-Later_example =
    serve-Later codec (asks name none ∷ asks name (some 1) ∷ []) holding name state holding-IsValid
      held
