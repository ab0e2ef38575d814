-- ===== src/Types/Columns.antt =====
-- `_validate_column_names`, `coerce_row` and `coerce_rows` of types.py.
use snowflake_sql_api.Common.{
  ℕ, Text, codes, Bool, false, ◌||◌, none, some, List, [], ◌∷◌, ◌++◌, map, Result, ok, err, ◌>>=◌,
  traverse, if◌then◌else◌, ◌==◌, text_eq, length,
}
use snowflake_sql_api.Common.Decimal.{decimal}
use snowflake_sql_api.Errors.{Value, null, str, arr, to_list, Exc, config_error, request_error}
use snowflake_sql_api.Bindings.{PyValue}
use snowflake_sql_api.Types.{Reading, ColumnMeta, coerce_value}

-- `==` of the JSON values that are texts; column names are texts.
abbrev pub same_name : Value → Value → Bool
same_name (str s) (str t) = text_eq s t
same_name _ _ = false

abbrev pub counts : Value → List Value → Bool
counts n [] = false
counts n (m ∷ ms) = same_name n m || counts n ms

-- The names that occur again behind their first place.
unfoldable pub repeated : List Value → List Value
repeated [] = []
repeated (n ∷ ns) = let rest = repeated ns in if counts n ns then n ∷ rest else rest

abbrev pub names_of : List ColumnMeta → List Value
names_of columns = map (λ c. c.name) columns

-- `_validate_column_names`; `listed` is the text of the sorted duplicate names.
abbrev pub refuse : (List Value → Text) → Text → List Value → Result Exc (Unit {0})
refuse listed context [] = ok tt
refuse listed context (n ∷ ns) = err (
    config_error (
      context
      ++ (codes " require unique column names; duplicate names: "
          ++ (listed (n ∷ ns) ++ codes "; use distinct SQL aliases"))))

unfoldable pub validate_column_names :
    (List Value → Text) → Text → List ColumnMeta → Result Exc (Unit {0})
unfolding repeated
validate_column_names listed context columns = refuse listed context (repeated (names_of columns))

-- A row as a dict: its entries in the order of insertion.
abbrev pub Row : Type 0
Row = List (Value × PyValue)

-- `row[name] = value`
unfoldable pub put : Value → PyValue → Row → Row
put n v [] = (n, v) ∷ []
put n v ((m, w) ∷ row) = if same_name m n then (m, v) ∷ row else (m, w) ∷ put n v row

-- A cell of the response; the API gives texts and null.
abbrev pub coerce_cell : Reading → Value → ColumnMeta → Result Exc PyValue
coerce_cell py null column = coerce_value py none column
coerce_cell py (str s) column = coerce_value py (some s) column
coerce_cell py _ column = err (request_error (codes "a cell is a text or null"))

-- The dict comprehension of `coerce_row`, with the dict so far.
unfoldable pub coerce_cells : Reading → List ColumnMeta → List Value → Row → Result Exc Row
unfolding coerce_value put
coerce_cells py [] cells row = ok row
coerce_cells py (c ∷ cs) [] row = ok row
coerce_cells py (c ∷ cs) (v ∷ vs) row = do
  value ← coerce_cell py v c
  coerce_cells py cs vs (put c.name value row)

abbrev pub no_row : ℕ → Exc
no_row n =
    request_error (codes "result row must be an array with " ++ (decimal n ++ codes " values"))

-- `coerce_row`
unfoldable pub coerce_row : Reading → List ColumnMeta → Value → Result Exc Row
unfolding coerce_cells
coerce_row py columns (arr items) =
    if length (to_list items) == length columns
    then coerce_cells py columns (to_list items) []
    else err (no_row (length columns))
coerce_row py columns _ = err (no_row (length columns))

-- `coerce_rows`
unfoldable pub coerce_rows : Reading → List ColumnMeta → List Value → Result Exc (List Row)
unfolding coerce_row
coerce_rows py columns rows = traverse (λ r. coerce_row py columns r) rows
