-- ===== src/Testing/Bodies.antt =====
-- `ok_body` and `running_body` of testing.py.
use snowflake_sql_api.Common.{
  ℕ, zero, suc, Text, codes, Option, none, some, List, [], ◌∷◌, ◌++◌, length, replicate, Result, ok,
  err,
}
use snowflake_sql_api.Common.Int.{pos}
use snowflake_sql_api.Errors.{
  Value, int, str, arr, obj, Items, nil, item, Fields, end, field, Exc, raised, plain, foreign,
}
use snowflake_sql_api.Transport.Calls.{statements_path}

-- The JSON array of a list.
unfoldable pub to_items : List Value → Items
to_items [] = nil
to_items (v ∷ vs) = item v (to_items vs)

abbrev pub array : List Value → Value
array vs = arr (to_items vs)

-- `{"rowCount": n}`
abbrev pub row_count : ℕ → Value
row_count n = obj (field (codes "rowCount") (int (pos n)) end)

-- A `stats` object stands behind the other fields.
abbrev stats_field : Option Fields → Fields
stats_field none = end
stats_field (some stats) = field (codes "stats") (obj stats) end

abbrev pub metadata : List Value → List Value → ℕ → Fields
metadata row_type rows more = field (codes "numRows") (int (pos (length rows))) (
    field (codes "format") (str (codes "jsonv2")) (
      field (codes "partitionInfo") (array (row_count (length rows) ∷ replicate more (row_count 0)))
        (field (codes "rowType") (array row_type) end)))

-- `ok_body`; no partition at all raises `ValueError`.
unfoldable pub ok_body : List Value → List Value → ℕ → Text → Option Fields → Result Exc Fields
unfolding to_items
ok_body row_type rows zero handle stats =
    err (raised (plain foreign (codes "partitions must be >= 1")))
ok_body row_type rows (suc more) handle stats = ok (
    field (codes "resultSetMetaData") (obj (metadata row_type rows more)) (
      field (codes "data") (array rows) (
        field (codes "code") (str (codes "090001")) (
          field (codes "sqlState") (str (codes "00000")) (
            field (codes "statementHandle") (str handle) (
              field (codes "statementStatusUrl") (str (statements_path ++ (codes "/" ++ handle)))
                (stats_field stats)))))))

-- `running_body`
unfoldable pub running_body : Text → Text → Fields
running_body handle code = field (codes "code") (str code) (
    field (codes "message") (str (codes "Asynchronous execution in progress.")) (
      field (codes "statementHandle") (str handle)
        (field (codes "statementStatusUrl") (str (statements_path ++ (codes "/" ++ handle))) end)))
