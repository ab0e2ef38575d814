-- ===== src/Types/Tests.antt =====
-- A column of integers, and the coercion of a row by it.
use snowflake_sql_api.Common.{Text, codes, true, text_eq, none, some, List, [], ◌∷◌, ok, ◌≡◌, refl}
use snowflake_sql_api.Common.Parsing.{parse_int}
use snowflake_sql_api.Common.Int.{pos}
use snowflake_sql_api.Errors
use snowflake_sql_api.Errors.{Value, null, item, nil, arr, to_list}
use snowflake_sql_api.Bindings.{PyValue, int}
use snowflake_sql_api.Types.{Reading, ColumnMeta}
use snowflake_sql_api.Types.Columns.{coerce_row, validate_column_names}
use snowflake_sql_api.Types.Rows.{Reads, entries, coerce_row-Reads}

abbrev json_text : Value → Text
json_text (Errors.str s) = s
json_text _ = []

abbrev pub reading : Reading
reading = record {
  read_float = λ s. some s;
  read_decimal = λ s. some s;
  loads = λ s. none;
  lower = λ s. s;
  shown = json_text;
  repr = λ s. s;
}

abbrev pub columns : List ColumnMeta
columns =
    record {
      name = Errors.str (codes "n");
      type = codes "fixed";
      scale = null;
      precision = null;
      nullable = true;
    }
    ∷ []

abbrev listed : List Value → Text
listed ns = []

valid : validate_column_names listed (codes "results") columns ≡ ok tt
unfolding validate_column_names
valid = refl

coerced :
    coerce_row reading columns (arr (item (Errors.str (codes "42")) nil))
    ≡ ok ((Errors.str (codes "n"), int (pos 42)) ∷ [])
unfolding coerce_row text_eq to_list parse_int
coerced = refl

coerce_row-Reads_example :
    (vs : List PyValue) × Reads reading columns (Errors.str (codes "42") ∷ []) vs
    × ((Errors.str (codes "n"), int (pos 42)) ∷ [] ≡ entries reading columns vs)
unfolding to_list
coerce_row-Reads_example =
    coerce_row-Reads reading listed (codes "results") columns (item (Errors.str (codes "42")) nil)
      valid coerced
