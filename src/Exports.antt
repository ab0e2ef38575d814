-- ===== src/Exports.antt =====
-- snowflake_sql_api/exports.py, and `_stream_result`, `export_csv` and `export_jsonl` of
-- client.py. The sink is the list of the texts that were written to it; one that raises is left
-- out.
pub mod Lines
pub mod Tests
use snowflake_sql_api.Common.{
  ℕ, zero, suc, ◌+◌, Text, codes, Bool, true, false, Option, none, some, List, [], ◌∷◌, ◌++◌, map,
  Result, ok, err, ◌>>=◌, traverse, if◌then◌else◌, ltb,
}
use snowflake_sql_api.Common.Int.{ℤ, pos, negsuc}
use snowflake_sql_api.Errors
use snowflake_sql_api.Errors.{Value, Fields, Exc, config_error}
use snowflake_sql_api.Bindings.{
  PyValue, none_value, bool, int, decimal_value, float, bytes, datetime, date, time, str, container,
  unsupported, hex,
}
use snowflake_sql_api.Transport.Send.{Environment}
use snowflake_sql_api.Types.{Reading, ColumnMeta, builtin}
use snowflake_sql_api.Types.Columns.{same_name, names_of, validate_column_names, Row}
use snowflake_sql_api.Pagination.Streaming.{
  Source, Step, yielded, exhausted, broken, resume, iter_result_rows,
}
use snowflake_sql_api.Client.Batching.{Session}
use snowflake_sql_api.Client.Payload.{Context}
use snowflake_sql_api.Client.Run.{run}
use snowflake_sql_api.Client.Results.{Ran, Prepared, prepare_result}

-- What the code takes from json, csv and datetime: the dump of a value with the default below, a
-- row of the csv writer, and `isoformat`.
pub record Formats : Type 0 where
  pub dumps : (PyValue → Result Exc Text) → PyValue → Result Exc Text
  pub dumps_row : (PyValue → Result Exc Text) → Row → Result Exc Text
  pub csv_line : List PyValue → Text
  pub isoformat : PyValue → Text

-- `validate_batch_size`
unfoldable pub validate_batch_size : PyValue → Result Exc ℕ
validate_batch_size (int (pos (suc n))) = ok (suc n)
validate_batch_size _ = err (config_error (codes "batch_size must be a positive integer"))

module _ (formats : Formats) (listed : List Value → Text) where
  -- `_json_default`
  unfoldable pub json_default : PyValue → Result Exc Text
  unfolding hex
  json_default (decimal_value s) = ok s
  json_default (datetime d) = ok (formats.isoformat (datetime d))
  json_default (date n) = ok (formats.isoformat (date n))
  json_default (time h m s u) = ok (formats.isoformat (time h m s u))
  json_default (bytes bs) = ok (hex bs)
  json_default _ = err (builtin (codes "TypeError"))

  abbrev as_text : Result Exc Text → Result Exc PyValue
  as_text r = r >>= λ t. ok (str t)

  -- `_csv_value`
  unfoldable pub csv_value : PyValue → Result Exc PyValue
  unfolding json_default
  csv_value none_value = ok (str [])
  csv_value (bool b) = as_text (formats.dumps json_default (bool b))
  csv_value (container s) = as_text (formats.dumps json_default (container s))
  csv_value (decimal_value s) = as_text (json_default (decimal_value s))
  csv_value (datetime d) = as_text (json_default (datetime d))
  csv_value (date n) = as_text (json_default (date n))
  csv_value (time h m s u) = as_text (json_default (time h m s u))
  csv_value (bytes bs) = as_text (json_default (bytes bs))
  csv_value v = ok v

  -- `row[name]`
  unfoldable pub row_value : Value → Row → Result Exc PyValue
  row_value name [] = err (builtin (codes "KeyError"))
  row_value name ((n, v) ∷ row) = if same_name n name then ok v else row_value name row

  -- `CSVWriter.write`, as the line that it writes
  unfoldable pub csv_row : List Value → Row → Result Exc Text
  unfolding csv_value row_value
  csv_row names row =
      traverse (λ n. row_value n row >>= csv_value) names >>= λ vs. ok (formats.csv_line vs)

  -- `write_jsonl`, as the line that it writes
  unfoldable pub jsonl_row : Row → Result Exc Text
  unfolding json_default
  jsonl_row row = formats.dumps_row json_default row >>= λ t. ok (t ++ codes "\n")

  abbrev pub name_value : Value → PyValue
  name_value (Errors.str s) = str s
  name_value _ = none_value

  -- `CSVWriter.__init__`: the header
  unfoldable pub csv_header : List ColumnMeta → Result Exc Text
  unfolding validate_column_names
  csv_header columns = validate_column_names listed (codes "exports") columns >>= λ valid.
      ok (formats.csv_line (map name_value (names_of columns)))

  module _ (env : Environment) (handle : Text) (py : Reading) (columns : List ColumnMeta)
      (line : Row → Result Exc Text) where
    -- What an export leaves: the count or an exception, what was written, and the world.
    abbrev pub Exported : Type 0
    Exported = Option (Result Exc ℕ × List Text × env.World)

    abbrev pub written :
        (List Text → ℕ → Source → env.World → Exported)
        → List Text
        → ℕ
        → Source
        → env.World
        → Result Exc Text
        → Exported
    written loop out count source w (err e) = some (err e, out, w)
    written loop out count source w (ok t) = loop (out ++ t ∷ []) (count + 1) source w

    abbrev pub stepped :
        (List Text → ℕ → Source → env.World → Exported)
        → List Text
        → ℕ
        → Step env handle py columns
        → Exported
    stepped loop out count (yielded row source w) = written loop out count source w (line row)
    stepped loop out count (exhausted w) = some (ok count, out, w)
    stepped loop out count (broken e w) = some (err e, out, w)

    -- `for row in rows`, on fuel for the rows
    unfoldable pub export_rows : ℕ → List Text → ℕ → Source → env.World → Exported
    export_rows zero out count source w = none
    export_rows (suc fuel) out count source w =
        stepped (export_rows fuel) out count (resume env handle py columns source w)

  module _ (env : Environment) (session : Session env) (context : Context)
      (canonical : Text → Option Text) (py : Reading) where
    abbrev Left : Type 0
    Left = Option (Result Exc ℕ × List Text × env.World)

    -- The rows behind what stands in the sink so far.
    abbrev pub begin_rows :
        ℕ
        → Prepared env session context canonical py listed
        → (Row → Result Exc Text)
        → List Text
        → env.World
        → Result Exc Source
        → Left
    begin_rows fuel p line out w (err e) = some (err e, out, w)
    begin_rows fuel p line out w (ok source) =
        export_rows env (session.waiting.handle_text p.handle) py p.columns line fuel out 0 source w

    abbrev pub stream_rows :
        ℕ
        → Prepared env session context canonical py listed
        → (Row → Result Exc Text)
        → List Text
        → env.World
        → Left
    stream_rows fuel p line out w =
        begin_rows fuel p line out w
          (iter_result_rows env (session.waiting.handle_text p.handle) py p.columns p.body)

    abbrev pub csv_body :
        ℕ → Prepared env session context canonical py listed → env.World → Result Exc Text → Left
    csv_body fuel p w (err e) = some (err e, [], w)
    csv_body fuel p w (ok header) =
        stream_rows fuel p (csv_row (names_of p.columns)) (header ∷ []) w

    abbrev pub jsonl_body :
        ℕ
        → Prepared env session context canonical py listed
        → env.World
        → Result Exc (Unit {0})
        → Left
    jsonl_body fuel p w (err e) = some (err e, [], w)
    jsonl_body fuel p w (ok valid) = stream_rows fuel p jsonl_row [] w

    abbrev pub prepared :
        (Prepared env session context canonical py listed → env.World → Left)
        → Ran env session context canonical py listed
            (Prepared env session context canonical py listed)
        → Left
    prepared next none = none
    prepared next (some (err e, w)) = some (err e, [], w)
    prepared next (some (ok p, w)) = next p w

    unfoldable pub export_csv : ℕ → ℕ → Text → List PyValue → env.World → Left
    unfolding prepare_result run csv_header csv_row export_rows iter_result_rows
    export_csv poll_fuel fuel sql params w =
        prepared (λ p v. csv_body fuel p v (csv_header p.columns))
          (prepare_result env session context canonical py listed poll_fuel session.limit true true
            (run env session context canonical sql params false w))

    unfoldable pub export_jsonl : ℕ → ℕ → Text → List PyValue → env.World → Left
    unfolding prepare_result run validate_column_names jsonl_row export_rows iter_result_rows
    export_jsonl poll_fuel fuel sql params w =
        prepared
          (λ p v. jsonl_body fuel p v (validate_column_names listed (codes "exports") p.columns))
          (prepare_result env session context canonical py listed poll_fuel session.limit true true
            (run env session context canonical sql params false w))
