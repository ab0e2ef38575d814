-- ===== src/Exports/Tests.antt =====
-- An export of a result of two rows, one in each partition.
use snowflake_sql_api.Common.{Text, codes, some, List, [], ◌∷◌, ok, traverse, ◌≡◌, refl}
use snowflake_sql_api.Errors.{Value}
use snowflake_sql_api.Types.Tests.{reading, columns}
use snowflake_sql_api.Pagination.Tests.{numbers, source, number_row, drained}
use snowflake_sql_api.Exports.{Formats, jsonl_row, export_rows}
use snowflake_sql_api.Exports.Lines.{export_rows-drain}

abbrev formats : Formats
formats = record {
  dumps = λ default v. ok [];
  dumps_row = λ default row. ok (codes "{\"n\": 42}");
  csv_line = λ vs. [];
  isoformat = λ v. [];
}

abbrev listed : List Value → Text
listed ns = []

abbrev text : Text
text = codes "{\"n\": 42}\n"

lines_ok :
    traverse (jsonl_row formats listed) (number_row ∷ number_row ∷ []) ≡ ok (text ∷ text ∷ [])
unfolding traverse jsonl_row
lines_ok = refl

export_rows-drain_example :
    export_rows formats listed numbers
      (codes "h")
      reading
      columns
      (jsonl_row formats listed)
      3
      []
      0
      source
      0
    ≡ some (ok 2, text ∷ text ∷ [], 1)
export_rows-drain_example =
    export_rows-drain formats listed numbers (codes "h") reading columns (jsonl_row formats listed)
      3 source 0 [] 0 drained lines_ok
