-- ===== src/Testing/Tests.antt =====
-- A client over a fake with one statement, and the theorems in it. The world is a clock and the
-- fake.
pub mod Statement
use snowflake_sql_api.Common.{
  ℕ, zero, suc, ◌+◌, ◌*◌, ◌<◌, ◌≤◌, Text, codes, Bool, true, false, Option, none, some, List, [],
  ◌∷◌, ◌++◌, map, length, concat, Result, ok, err, ◌>>=◌, ◌≡◌, refl, inl, inr, arith, text_eq,
  traverse, Lacks, All,
}
use snowflake_sql_api.Common.Int.{ℤ, pos, negsuc}
use snowflake_sql_api.Common.Decimal.{decimal, decimal_int}
use snowflake_sql_api.Common.Dict.{find, insert}
use snowflake_sql_api.Errors
use snowflake_sql_api.Errors.{Value, null, Fields, end, field, get_or}
use snowflake_sql_api.Bindings.{PyValue, int, str, bytes}
use snowflake_sql_api.Transport.Send.{Environment, Request}
use snowflake_sql_api.Types.{Reading, builtin}
use snowflake_sql_api.Types.Columns.{repeated, validate_column_names}
use snowflake_sql_api.Types.Tests.{reading}
use snowflake_sql_api.Types.Rows.{entries}
use snowflake_sql_api.Client.Poll.{Waiting}
use snowflake_sql_api.Client.Batching.{Session}
use snowflake_sql_api.Client.Payload.{Context, build_payload}
use snowflake_sql_api.Client.Results.{query}
use snowflake_sql_api.Testing.Wire.{Writing, infer_type}
use snowflake_sql_api.Testing.Registry.{
  RowInput, positional, ColumnSpec, bare, Column, cell, normalize_columns, split_rows,
}
use snowflake_sql_api.Testing.Split.{split_rows-concat}
use snowflake_sql_api.Testing.State.{FakeSnowflake, empty, register}
use snowflake_sql_api.Testing.Server.{Codec, handle}
use snowflake_sql_api.Testing.Server.Served.{IsServed}
use snowflake_sql_api.Testing.Server.Polling.{IsPaced}
use snowflake_sql_api.Testing.Server.Querying.{IsQuiet, query-served}
use snowflake_sql_api.Testing.Server.Registered.{query-registered}
use snowflake_sql_api.Testing.RoundTrip.Values.{Agrees, through, coerce_value-encode_cell}
use snowflake_sql_api.Testing.RoundTrip.Table.{meta, TableFits}

abbrev written : PyValue → Text
written (int n) = decimal_int n
written (str s) = s
written _ = []

abbrev raw_bytes : PyValue → Result Errors.Exc (List ℕ)
raw_bytes (bytes bs) = ok bs
raw_bytes _ = err (builtin (codes "TypeError"))

abbrev pub writing : Writing
writing = record {
  str_of = written;
  dumps = λ v. ok [];
  bytes_of = raw_bytes;
  float_repr = λ v. ok [];
  plain_decimal = λ s. s;
  exponent = λ s. none;
  truth_of = λ v. true;
}

agrees : Agrees reading writing
agrees = record {
  lower_true = refl;
  lower_false = refl;
  str_of_int = λ n. refl;
  str_of_text = λ s. refl;
  bytes_of_bytes = λ bs. refl;
}

coerce_value-encode_cell_example :
    through reading writing null (int (negsuc 41)) ≡ ok (int (negsuc 41))
coerce_value-encode_cell_example =
    coerce_value-encode_cell reading writing agrees null (int (negsuc 41)) tt

split_rows-concat_example :
    (chunks : List (List ℕ)) × (split_rows (1 ∷ 2 ∷ 3 ∷ []) 2 ≡ ok chunks)
    × (concat chunks ≡ 1 ∷ 2 ∷ 3 ∷ [])
    × (length chunks ≡ 2)
split_rows-concat_example = split_rows-concat (1 ∷ 2 ∷ 3 ∷ []) 2 (omega arith)

abbrev pub codec : Codec
codec = record { dumps = λ b. []; loads = λ b. none; repr = λ v. [] }

abbrev pub World : Type 0
World = ℕ × FakeSnowflake

abbrev pub local : Environment
local = record {
  World = World;
  headers = λ w. (none, w);
  request = λ r w. ((handle codec r w.1).0, (suc w.0, (handle codec r w.1).1));
  sleep = λ n r w. (none, w);
  max_attempts = 3;
  should_retry_status = λ n. false;
}

abbrev pub fake_of : World → FakeSnowflake
fake_of w = w.1

abbrev pub clock : World → ℕ
clock w = w.0

abbrev text_of : Value → Text
text_of (Errors.str s) = s
text_of _ = []

abbrev pub waiting : Waiting local
waiting = record {
  monotonic = λ w. (w.0, w);
  pause = λ w. (suc w.0, w.1);
  handle_text = text_of;
  wait_text = λ n. [];
}

abbrev pub session : Session local
session = record {
  waiting = waiting;
  limit = some 60;
  notify = λ sql params w. (none, w);
  fresh_id = λ w. (codes "id", w);
  parse_int = λ s. none;
}

pub served : IsServed codec local fake_of
served = record {
  headers = λ w. (refl, refl);
  request = λ r w. (refl, refl);
  attempts = omega arith;
  ready = refl;
  pending = refl;
}

pub paced : IsPaced local waiting fake_of clock 1
paced = record {
  headers = λ w. omega arith;
  request = λ r w. omega arith;
  read = λ w. refl;
  monotonic = λ w. omega arith;
  monotonic_same = λ w. refl;
  pause = λ w. omega arith;
  pause_same = λ w. refl;
}

pub quiet : IsQuiet local session fake_of
quiet = record {
  accepts = λ sql params w. refl;
  notify_same = λ sql params w. refl;
  fresh_same = λ w. refl;
  handle_text = λ s. refl;
}

abbrev pub context : Context
context = record {
  statement_timeout = none;
  database = none;
  schema = none;
  warehouse = none;
  role = none;
  timezone = none;
  parameters = end;
}

abbrev pub select : Text
select = codes "SELECT n"

-- Two rows in two partitions, after one poll.
abbrev rows : List RowInput
rows = positional (int (pos 5) ∷ []) ∷ positional (int (negsuc 6) ∷ []) ∷ []

abbrev specs : Option (List ColumnSpec)
specs = some (bare (codes "n") ∷ [])

abbrev pub column_n : Column
column_n = record { name = codes "n"; ctype = codes "fixed"; scale = some 0 }

unfoldable made : Result Errors.Exc FakeSnowflake
unfolding register
made = register writing select rows specs 2 1 none empty

abbrev or_empty : Result Errors.Exc FakeSnowflake → FakeSnowflake
or_empty (ok f) = f
or_empty (err e) = empty

abbrev stocked : FakeSnowflake
stocked = or_empty made

made_ok : register writing select rows specs 2 1 none empty ≡ ok stocked
unfolding made register traverse text_eq decimal_int insert
made_ok = refl

resolved : normalize_columns writing rows specs ≡ ok (column_n ∷ [])
unfolding normalize_columns
resolved = refl

abbrev table : List (List PyValue)
table = (int (pos 5) ∷ []) ∷ (int (negsuc 6) ∷ []) ∷ []

fitting : TableFits reading writing (column_n ∷ []) rows table
unfolding cell infer_type
fitting = ((refl, inr (refl, tt), tt), ((refl, inr (refl, tt), tt), tt))

abbrev pub no_names : List Value → Text
no_names ns = []

valid :
    validate_column_names no_names (codes "results") (map (meta reading writing) (column_n ∷ []))
    ≡ ok tt
unfolding validate_column_names
valid = refl

pub payload_ok :
    build_payload context select [] ≡ ok (field (codes "statement") (Errors.str select) end)
unfolding build_payload
payload_ok = refl

abbrev pub no_id : Text → Option Text
no_id s = none

query-registered_example :
    (w' : World) × (query local session context no_id reading no_names 5 select [] (0, stocked)
      ≡ some (
        ok (
            map
              (entries reading (map (meta reading writing) (column_n ∷ [])))
              ((int (pos 5) ∷ []) ∷ (int (negsuc 6) ∷ []) ∷ [])),
        w',
      ))
query-registered_example =
    query-registered codec local session fake_of clock 1 served paced quiet context no_id reading
      writing agrees no_names 5 select [] rows specs 2 1 none empty (0, stocked) table made_ok
      resolved fitting valid (refl, tt) (omega arith) payload_ok (omega arith) (omega arith)
