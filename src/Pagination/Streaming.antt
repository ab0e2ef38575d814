-- ===== src/Pagination/Streaming.antt =====
-- The generator of `iter_result_rows`: between two rows it holds what is left of the partition in
-- hand and the partitions to come.
use snowflake_sql_api.Common.{
  ℕ, zero, suc, ◌-◌, Text, codes, Option, none, some, List, [], ◌∷◌, Result, ok, err, ◌>>=◌,
}
use snowflake_sql_api.Errors.{Value, arr, Fields, get, to_list, Exc, request_error}
use snowflake_sql_api.Transport.{StatementResponse}
use snowflake_sql_api.Transport.Send.{Environment, Sending}
use snowflake_sql_api.Transport.Calls.{get_statement}
use snowflake_sql_api.Types.{Reading, ColumnMeta}
use snowflake_sql_api.Types.Columns.{Row, coerce_row}
use snowflake_sql_api.Pagination.{partition_count}

-- `_stream_data`
abbrev pub array_of : Value → Result Exc (List Value)
array_of (arr items) = ok (to_list items)
array_of _ = err (request_error (codes "result partition data must be an array of rows"))

unfoldable pub stream_data : Fields → Result Exc (List Value)
stream_data body = array_of (get (codes "data") body)

-- The rows of the partition that are not yielded yet, and how many partitions follow, from which
-- index.
pub record Source : Type 0 where
  pub left : ℕ
  pub index : ℕ
  pub data_rows : List Value

module _ (env : Environment) (handle : Text) (py : Reading) (columns : List ColumnMeta) where
  -- How `next` ends: a row, the end, or an exception.
  pub data Step : Type 0 where
    yielded : Row → Source → env.World → Step
    exhausted : env.World → Step
    broken : Exc → env.World → Step

  abbrev pub coerced : Source → env.World → Result Exc Row → Step
  coerced source w (err e) = broken e w
  coerced source w (ok row) = yielded row source w

  abbrev pub turned : (List Value → env.World → Step) → env.World → Result Exc (List Value) → Step
  turned loop w (err e) = broken e w
  turned loop w (ok rows) = loop rows w

  abbrev pub answered :
      (List Value → env.World → Step) → Result Exc StatementResponse × Sending env → Step
  answered loop (err e, s) = broken e s.world
  answered loop (ok r, s) = turned loop s.world (stream_data r.body)

  -- The loops up to the next `yield`: a partition is fetched when the one before it is used up.
  unfoldable pub advance : ℕ → ℕ → List Value → env.World → Step
  unfolding coerce_row get_statement stream_data
  advance left index (raw ∷ rows) w =
      coerced (record { left = left; index = index; data_rows = rows }) w
        (coerce_row py columns raw)
  advance zero index [] w = exhausted w
  advance (suc left) index [] w =
      answered (advance left (suc index)) (get_statement env handle (some index) w)

  abbrev pub resume : Source → env.World → Step
  resume source w = advance source.left source.index source.data_rows w

  -- The generator before its first row.
  unfoldable pub iter_result_rows : Fields → Result Exc Source
  unfolding partition_count stream_data
  iter_result_rows first_body = do
    count ← partition_count first_body
    rows ← stream_data first_body
    ok (record { left = count - 1; index = 1; data_rows = rows })

  -- What a consumer of the whole generator has: the rows, or the exception that ended it.
  abbrev pub Drained : Type 0
  Drained = Option (Result Exc (List Row) × env.World)

  abbrev pub prepend : Row → Drained → Drained
  prepend row none = none
  prepend row (some (err e, w)) = some (err e, w)
  prepend row (some (ok rows, w)) = some (ok (row ∷ rows), w)

  abbrev pub took : (Source → env.World → Drained) → Step → Drained
  took loop (yielded row source w) = prepend row (loop source w)
  took loop (exhausted w) = some (ok [], w)
  took loop (broken e w) = some (err e, w)

  -- `list` of the generator, on fuel for its rows.
  unfoldable pub drain : ℕ → Source → env.World → Drained
  unfolding advance
  drain zero source w = none
  drain (suc fuel) source w = took (drain fuel) (resume source w)
