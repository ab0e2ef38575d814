-- ===== src/Testing/Server/Registered.antt =====
-- A query of the client for rows that were registered with `FakeSnowflake`.
use snowflake_sql_api.Common.{
  ℕ, ◌+◌, ◌*◌, ◌<◌, ◌≤◌, Text, codes, Option, none, some, List, [], ◌∷◌, map, length, concat, ok,
  ok-injective, ◌>>=◌, ◌≡◌, refl, sym, ap, subst, ◌∙◌, arith, All, traverse,
}
use snowflake_sql_api.Common.Dict.{find, find-insert}
use snowflake_sql_api.Errors.{Value, Fields, Exc}
use snowflake_sql_api.Bindings.{PyValue}
use snowflake_sql_api.Transport.Send.{Environment}
use snowflake_sql_api.Types.{Reading}
use snowflake_sql_api.Types.Columns.{validate_column_names, coerce_rows}
use snowflake_sql_api.Types.Rows.{entries}
use snowflake_sql_api.Client.Poll.{wait_of}
use snowflake_sql_api.Client.Batching.{Session}
use snowflake_sql_api.Client.Payload.{Context, build_payload}
use snowflake_sql_api.Client.Results.{columns_of, query}
use snowflake_sql_api.Testing.Wire.{Writing}
use snowflake_sql_api.Testing.Bodies.{array}
use snowflake_sql_api.Testing.Registry.{
  RowInput, ColumnSpec, Column, Registration, normalize_columns, wire_cells, row_type_entry, build,
}
use snowflake_sql_api.Testing.Split.{split_rows-concat}
use snowflake_sql_api.Testing.State.{FakeSnowflake, register, registered}
use snowflake_sql_api.Testing.Server.{Codec}
use snowflake_sql_api.Testing.Server.Served.{IsServed}
use snowflake_sql_api.Testing.Server.Polling.{IsPaced}
use snowflake_sql_api.Testing.Server.Querying.{IsQuiet, query-served}
use snowflake_sql_api.Testing.RoundTrip.Values.{Agrees}
use snowflake_sql_api.Testing.RoundTrip.Table.{
  IsPlainType, meta, TableFits, table_back, columns_back,
}

-- What is built of rows that can be encoded: as many chunks as partitions were asked for, which
-- hold the wire rows in order.
build-chunks :
    (writing : Writing) (rows : List RowInput) (columns : Option (List ColumnSpec))
    (partitions polls : ℕ) (stats : Option Fields) {cs : List Column} {wire : List (List Value)}
    → normalize_columns writing rows columns ≡ ok cs
    → traverse (λ r. wire_cells writing cs 0 r) rows ≡ ok wire
    → 1 ≤ partitions
    → (reg : Registration) × (build writing rows columns partitions polls stats ≡ ok reg)
      × (reg.row_type ≡ map row_type_entry cs)
      × (concat reg.chunks ≡ map array wire)
      × (length reg.chunks ≡ partitions)
      × (reg.polls_before_ready ≡ polls)
      × (reg.error ≡ none)
unfolding build
build-chunks writing rows columns partitions polls stats {cs} {wire} resolved wired some_left =
    let (chunks, split, all, size) = split_rows-concat (map array wire) partitions some_left in
    (
      record {
        row_type = map row_type_entry cs;
        chunks = chunks;
        polls_before_ready = polls;
        stats = stats;
        error = none;
      },
      rw resolved (rw wired (rw split refl)),
      refl,
      all,
      size,
      refl,
      refl,
    )

some_chunk :
    (chunks : List (List Value)) (n : ℕ)
    → length chunks ≡ n
    → 1 ≤ n
    → (c : List Value) × (cs : List (List Value)) × (chunks ≡ c ∷ cs)
some_chunk [] n size le = let wrong : ⊥ = omega arith in absurd wrong
some_chunk (c ∷ cs) n size le = (c, cs, refl)

module _ (codec : Codec) (env : Environment) (session : Session env)
    (fake : env.World → FakeSnowflake) (now : env.World → ℕ) (step : ℕ)
    (served : IsServed codec env fake) (paced : IsPaced env session.waiting fake now step)
    (quiet : IsQuiet env session fake) (context : Context) (canonical : Text → Option Text)
    (reading : Reading) (writing : Writing) (agrees : Agrees reading writing)
    (listed : List Value → Text) where
  -- A query for a statement whose rows were just registered, with whatever partitions and polls,
  -- gives these rows back: as many, in order, each with its columns' names and values.
  pub query-registered :
      (fuel : ℕ) (sql : Text) (params : List PyValue) (rows : List RowInput)
      (columns : Option (List ColumnSpec)) (partitions polls : ℕ) (stats : Option Fields)
      (before : FakeSnowflake) (w : env.World) (table : List (List PyValue)) {payload : Fields}
      {cs : List Column}
      → register writing sql rows columns partitions polls stats before ≡ ok (fake w)
      → normalize_columns writing rows columns ≡ ok cs
      → TableFits reading writing cs rows table
      → validate_column_names listed (codes "results") (map (meta reading writing) cs) ≡ ok tt
      → All (λ c. IsPlainType reading writing c.ctype) cs
      → 1 ≤ partitions
      → build_payload context sql params ≡ ok payload
      → polls < fuel
      → step + polls * (4 * step) < wait_of session.limit
      → (w' : env.World) × (query env session context canonical reading listed fuel sql params w
          ≡ some (ok (map (entries reading (map (meta reading writing) cs)) table), w'))
  unfolding register
  query-registered fuel sql params rows columns partitions polls stats before w table {payload} {cs}
        done resolved fits valid plain some_left built enough early =
      let (wire, wired, back) = table_back reading writing agrees listed cs valid rows table fits in
      let (reg, builds, typed, all, size, asked, no_error) =
        build-chunks writing rows columns partitions polls stats resolved wired some_left in
      let (c, more, split) = some_chunk reg.chunks partitions size some_left in
      let same : registered sql before reg ≡ fake w =
        ok-injective {E = Exc}
          (sym (ap (λ b. b >>= λ r. ok (registered sql before r)) builds) ∙ done) in
      let known : find sql (fake w).exact ≡ some reg =
        ap (λ f. find sql f.exact) (sym same) ∙ find-insert sql reg before.exact in
      let (w', gives) =
        query-served codec env session fake now step served paced quiet context canonical reading
          listed fuel sql params w reg built known no_error split
          (ap (columns_of reading listed) typed
            ∙ columns_back reading writing agrees listed cs valid plain)
          (subst (λ n. n < fuel) (sym asked) enough)
          (subst (λ n. step + n * (4 * step) < wait_of session.limit) (sym asked) early) in
      (
        w',
        gives
            ∙ ap (λ r. some (r, w'))
                (ap (coerce_rows reading (map (meta reading writing) cs)) all ∙ back),
      )
