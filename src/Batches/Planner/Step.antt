-- ===== src/Batches/Planner/Step.antt =====
-- `next_batch` and `confirm` of `_BatchPlanner`.
use snowflake_sql_api.Common.{
  ℕ, zero, suc, ◌+◌, ◌-◌, Text, codes, not, ◌||◌, Option, none, some, List, [], ◌∷◌, ◌++◌, Result,
  ok, err, ◌>>=◌, if◌then◌else◌, ltb, ◌==◌, length, replicate, join,
}
use snowflake_sql_api.Common.Decimal.{decimal}
use snowflake_sql_api.Errors.{Exc, config_error, raised, plain, foreign}
use snowflake_sql_api.Bindings.{PyValue}
use snowflake_sql_api.Batches.Encode.{Bytes, encode_text}
use snowflake_sql_api.Batches.Progress.{validation}
use snowflake_sql_api.Batches.Planner.{
  Entry, Planner, PreparedBatch, Fault, escaped, stop, comma_space, guarded, read_record,
}

abbrev pub comma : Bytes
comma = codes ","

-- `_encode(str(i)) + b":" + value` for the values from position `i` on
unfoldable pub keyed : ℕ → List Bytes → Result Exc (List Bytes)
keyed i [] = ok []
keyed i (v ∷ vs) = do
  key ← encode_text (decimal i)
  rest ← keyed (i + 1) vs
  ok ((key ++ (codes ":" ++ v)) ∷ rest)

-- `_fragment`
unfoldable pub fragment : List Bytes → ℕ → Result Exc Bytes
unfolding keyed
fragment values offset = do parts ← keyed (offset + 1) values; ok (join comma parts)

abbrev pub body_bytes : Bytes → Bytes → Bytes → Bytes
body_bytes encoded context bindings =
    codes "{\"statement\":"
    ++ (encoded ++ (context ++ (codes ",\"bindings\":{" ++ (bindings ++ codes "}}"))))

-- `_body`, with the context that is set
unfoldable pub body_with : Bytes → Text → Bytes → Result Exc Bytes
body_with context sql bindings = do
  encoded ← encode_text sql
  ok (body_bytes encoded context bindings)

abbrev pub body_in : Option Bytes → Text → Bytes → Result Exc Bytes
body_in none sql bindings = err (raised (plain foreign (codes "AssertionError")))
body_in (some context) sql bindings = body_with context sql bindings

-- `_body`
unfoldable pub body : Planner → Text → Bytes → Result Exc Bytes
unfolding body_with
body p sql bindings = body_in p.context sql bindings

abbrev pub with_comma : Bytes → Bytes
with_comma [] = []
with_comma (b ∷ bs) = b',' ∷ b ∷ bs

abbrev pub ensure_in : Planner → Option Bytes → Result Exc Planner
ensure_in p (some context) = ok p
ensure_in p none = do
  context ← p.build_context
  empty_body ← body_with (with_comma context) (p.prefix ++ p.placeholder) []
  ok (record p { context = some (with_comma context); single_overhead = length empty_body })

-- The session context and the size of a body with no bindings, computed once.
unfoldable pub ensure_context : Planner → Result Exc Planner
unfolding body_with
ensure_context p = ensure_in p p.context

-- The local variables of `next_batch`.
pub record Buffer : Type 0 where
  pub params : List PyValue
  pub fragments : List Bytes
  pub row_count : ℕ
  pub size : ℕ

abbrev pub empty_buffer : Buffer
empty_buffer = record { params = []; fragments = []; row_count = 0; size = 0 }

abbrev pub grown : Buffer → Entry → ℕ → Bytes → Buffer
grown b r candidate piece = record {
  params = b.params ++ r.values;
  fragments = b.fragments ++ piece ∷ [];
  row_count = b.row_count + 1;
  size = candidate;
}

-- Whether the record joins the buffer: `none` breaks off the loop and keeps it for the next batch.
abbrev pub decide : Planner → Buffer → Entry → ℕ → Bytes → Planner × Option Buffer
decide p b r candidate piece =
    if ltb p.max_bytes candidate
    then (record p { pending = some r }, none)
    else (p, some (grown b r candidate piece))

-- The two size tests: of the row as a batch of its own, and of the batch with the row added.
unfoldable pub place_fragment :
    Planner → Buffer → Entry → Bytes → Result Exc (Planner × Option Buffer)
unfolding fragment
place_fragment p b r first =
    let single_size = p.single_overhead + length first in
    if ltb p.max_bytes single_size
    then err (
        config_error (
          codes "row "
          ++ (decimal (p.consumed_rows - 1)
              ++ (codes " exceeds max_bytes=" ++ decimal p.max_bytes))))
    else if b.row_count == 0
    then ok (decide p b r single_size first)
    else do
      piece ← fragment r.encoded (length b.params)
      ok (decide p b r (b.size + 2 + length p.placeholder + 1 + length piece) piece)

-- The `try` block of `next_batch`.
unfoldable pub place : Planner → Buffer → Entry → Result Exc (Planner × Option Buffer)
unfolding ensure_context fragment place_fragment
place p0 b r = do p ← ensure_context p0; first ← fragment r.encoded 0; place_fragment p b r first

abbrev pub take_in : Planner → Option Entry → Result Fault (Planner × Option Entry)
take_in p none = read_record p
take_in p (some r) = ok (record p { pending = none }, some r)

-- The record that was kept, or else the next one of the source.
unfoldable pub take_record : Planner → Result Fault (Planner × Option Entry)
unfolding read_record
take_record p = take_in p p.pending

abbrev pub place_taken : Buffer → Planner → Option Entry → Result Fault (Planner × Option Buffer)
place_taken b p none = ok (p, none)
place_taken b p (some r) = guarded p validation (place p b r)

-- One round of the loop: the buffer that the loop goes on with, or `none` for `break`.
unfoldable pub round : Planner → Buffer → Result Fault (Planner × Option Buffer)
unfolding take_record place
round p b = do taken ← take_record p; place_taken b taken.0 taken.1

abbrev pub go_on :
    (Planner → Buffer → Result Fault (Planner × Buffer))
    → Buffer
    → Planner
    → Option Buffer
    → Result Fault (Planner × Buffer)
go_on loop b p none = ok (p, b)
go_on loop b p (some b') = loop p b'

-- The loop, with `max_rows - row_count` rounds left.
unfoldable pub fill : ℕ → Planner → Buffer → Result Fault (Planner × Buffer)
unfolding round
fill zero p b = ok (p, b)
fill (suc left) p b = do went ← round p b; go_on (fill left) b went.0 went.1

unfoldable pub statement : Planner → ℕ → Text
statement p n = p.prefix ++ join comma_space (replicate n p.placeholder)

abbrev pub budget_error : Exc
budget_error = config_error (codes "batch body exceeds its measured byte budget")

abbrev pub escaping {ℓ} : {A : Type ℓ} → Result Exc A → Result Fault A
escaping (ok a) = ok a
escaping (err e) = err (escaped e)

unfoldable pub check_budget :
    Planner → Buffer → Text → Bytes → Result Fault (Planner × Option PreparedBatch)
check_budget p b sql content =
    if not (length content == b.size) || ltb p.max_bytes (length content)
    then err (stop p budget_error validation)
    else ok (
      p,
      some (record { sql = sql; params = b.params; content = content; row_count = b.row_count }),
    )

-- What follows the loop; an exception of `_body` is not wrapped here.
unfoldable pub finish : Planner → Buffer → Result Fault (Planner × Option PreparedBatch)
unfolding body statement check_budget
finish p b = if b.row_count == 0 then ok (p, none) else do
  content ← escaping (body p (statement p b.row_count) (join comma b.fragments))
  check_budget p b (statement p b.row_count) content

unfoldable pub next_batch : Planner → Result Fault (Planner × Option PreparedBatch)
unfolding fill finish
next_batch p = do filled ← fill p.max_rows p empty_buffer; finish filled.0 filled.1

unfoldable pub confirm : Planner → PreparedBatch → ℕ → Planner
confirm p batch rows_affected = record p {
  completed =
      p.completed
      ++ record {
        index = length p.completed;
        start_row_index = p.confirmed_rows;
        row_count = batch.row_count;
        rows_affected = rows_affected;
      }
        ∷ [];
  confirmed_rows = p.confirmed_rows + batch.row_count;
}
