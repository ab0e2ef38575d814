-- ===== src/Testing/Registry.antt =====
-- The registrations of `FakeSnowflake`: the columns of the rows that are given, the wire rows, and
-- their split into partitions.
use snowflake_sql_api.Common.{
  ℕ, zero, suc, ◌+◌, ◌-◌, ◌/◌, Text, codes, true, Option, none, some, List, [], ◌∷◌, ◌++◌, map,
  length, get_elem?, take, drop, replicate, Result, ok, err, ◌>>=◌, traverse, if◌then◌else◌, ◌==◌,
  text_eq,
}
use snowflake_sql_api.Common.Int.{pos}
use snowflake_sql_api.Errors
use snowflake_sql_api.Errors.{
  Value, null, str, bool, obj, Fields, end, field, Exc, raised, plain, foreign,
}
use snowflake_sql_api.Bindings.{PyValue, none_value}
use snowflake_sql_api.Testing.Wire.{Writing, infer_type, encode_cell}
use snowflake_sql_api.Testing.Bodies.{array}

-- `FakeSnowflakeError`
abbrev pub fake_error : Text → Exc
fake_error m = raised (plain foreign m)

abbrev raises {ℓ} : {A : Type ℓ} → Text → Result Exc A
raises m = err (raised (plain foreign m))

-- A row that is given: a dict or a sequence.
pub data RowInput : Type 0 where
  named : List (Text × PyValue) → RowInput
  positional : List PyValue → RowInput

-- A column that is given: a name, or a dict with a name and maybe a type and a scale.
pub data ColumnSpec : Type 0 where
  bare : Text → ColumnSpec
  typed : Text → Option Text → Option ℕ → ColumnSpec

pub record Column : Type 0 where
  pub name : Text
  pub ctype : Text
  pub scale : Option ℕ

unfoldable pub find_cell : Text → List (Text × PyValue) → Result Exc PyValue
find_cell name [] = raises (codes "KeyError")
find_cell name ((n, v) ∷ row) = if text_eq n name then ok v else find_cell name row

abbrev or_out_of_range : Option PyValue → Result Exc PyValue
or_out_of_range none = raises (codes "IndexError")
or_out_of_range (some v) = ok v

-- `_cell`
unfoldable pub cell : RowInput → Text → ℕ → Result Exc PyValue
unfolding find_cell
cell (named row) name index = find_cell name row
cell (positional row) name index = or_out_of_range (get_elem? row index)

abbrev first_typed : Writing → Result Exc (Text × Option ℕ) → PyValue → Result Exc (Text × Option ℕ)
first_typed py rest none_value = rest
first_typed py rest v = ok (infer_type py v)

-- `_infer_column`: the type of the first value that is not None.
unfoldable pub infer_column : Writing → List RowInput → Text → ℕ → Result Exc (Text × Option ℕ)
unfolding cell infer_type
infer_column py [] name index = ok (codes "text", none)
infer_column py (r ∷ rows) name index =
    cell r name index >>= first_typed py (infer_column py rows name index)

abbrev column : Text → Text × Option ℕ → Column
column name (ctype, scale) = record { name = name; ctype = ctype; scale = scale }

abbrev inferred : Writing → List RowInput → Text → ℕ → Result Exc Column
inferred py rows name index = infer_column py rows name index >>= λ t. ok (column name t)

unfoldable pub resolve : Writing → List RowInput → ColumnSpec → ℕ → Result Exc Column
unfolding infer_column
resolve py rows (bare name) index = inferred py rows name index
resolve py rows (typed name none scale) index = inferred py rows name index
resolve py rows (typed name (some ctype) scale) index = ok (column name (ctype, scale))

unfoldable pub resolve_all :
    Writing → List RowInput → List ColumnSpec → ℕ → Result Exc (List Column)
unfolding resolve
resolve_all py rows [] index = ok []
resolve_all py rows (s ∷ specs) index = do
  c ← resolve py rows s index
  cs ← resolve_all py rows specs (index + 1)
  ok (c ∷ cs)

abbrev pub first_names : List RowInput → Result Exc (List ColumnSpec)
first_names [] = ok []
first_names (named row ∷ rows) = ok (map (λ e. bare e.0) row)
first_names (positional row ∷ rows) = err (
    fake_error (
      codes
        "positional rows require an explicit `columns=` spec; pass dict rows to infer column names"))

-- `_normalize_columns`
unfoldable pub normalize_columns :
    Writing → List RowInput → Option (List ColumnSpec) → Result Exc (List Column)
unfolding resolve_all
normalize_columns py rows (some specs) = resolve_all py rows specs 0
normalize_columns py rows none = first_names rows >>= λ specs. resolve_all py rows specs 0

unfoldable pub slices {ℓ} : {A : Type ℓ} → ℕ → ℕ → List A → List (List A)
slices zero size xs = []
slices (suc fuel) size [] = []
slices (suc fuel) size (x ∷ xs) = take size (x ∷ xs) ∷ slices fuel size (drop size (x ∷ xs))

-- `-(-n // d) or 1`
abbrev pub chunk_size : ℕ → ℕ → ℕ
chunk_size n d = if n == 0 then 1 else (n + d - 1) / d

-- `_split`; the slices take a step for each row at most.
unfoldable pub split_rows {ℓ} : {A : Type ℓ} → List A → ℕ → Result Exc (List (List A))
unfolding slices
split_rows rows zero = raises (codes "partitions must be >= 1")
split_rows rows (suc zero) = ok (rows ∷ [])
split_rows rows (suc (suc p)) =
    let chunks = slices (length rows) (chunk_size (length rows) (suc (suc p))) rows in
    ok (chunks ++ replicate (suc (suc p) - length chunks) [])

pub record ErrorSpec : Type 0 where
  pub status : ℕ
  pub message : Text
  pub code : Option Text
  pub sql_state : Option Text

-- `_Reg`; a chunk is a list of rows, as JSON.
pub record Registration : Type 0 where
  pub row_type : List Value
  pub chunks : List (List Value)
  pub polls_before_ready : ℕ
  pub stats : Option Fields
  pub error : Option ErrorSpec

abbrev pub scale_field : Option ℕ → Fields
scale_field none = end
scale_field (some n) = field (codes "scale") (Errors.int (pos n)) end

abbrev pub row_type_entry : Column → Value
row_type_entry c = obj (
    field (codes "name") (str c.name) (
      field (codes "type") (str c.ctype)
        (field (codes "nullable") (bool true) (scale_field c.scale))))

abbrev pub wire_value : Option Text → Value
wire_value none = null
wire_value (some s) = str s

unfoldable pub wire_cells : Writing → List Column → ℕ → RowInput → Result Exc (List Value)
unfolding cell encode_cell
wire_cells py [] index row = ok []
wire_cells py (c ∷ cs) index row = do
  v ← cell row c.name index
  w ← encode_cell py v c.ctype
  ws ← wire_cells py cs (index + 1) row
  ok (wire_value w ∷ ws)

-- `_build`
unfoldable pub build :
    Writing
    → List RowInput
    → Option (List ColumnSpec)
    → ℕ
    → ℕ
    → Option Fields
    → Result Exc Registration
unfolding normalize_columns wire_cells split_rows
build py rows columns partitions polls stats = do
  specs ← normalize_columns py rows columns
  wire ← traverse (λ r. wire_cells py specs 0 r) rows
  chunks ← split_rows (map array wire) partitions
  ok (record {
    row_type = map row_type_entry specs;
    chunks = chunks;
    polls_before_ready = polls;
    stats = stats;
    error = none;
  })
