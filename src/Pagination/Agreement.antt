-- ===== src/Pagination/Agreement.antt =====
-- That streaming a result yields the rows that fetching all of it and coercing them gives.
use snowflake_sql_api.Common.{
  ℕ, zero, suc, ◌-◌, Text, codes, none, some, List, [], ◌∷◌, ◌++◌, Result, ok, err, traverse, ◌≡◌,
  refl, sym, ap, subst, ◌∙◌, append-nil, append_assoc, ok-injective, >>=-eq-ok, Result-cases, inl,
  inr,
}
use snowflake_sql_api.Errors.{Value, or_else, arr, nil, item, Fields, get, Exc}
use snowflake_sql_api.Transport.{StatementResponse}
use snowflake_sql_api.Transport.Send.{Environment, Sending}
use snowflake_sql_api.Transport.Calls.{get_statement}
use snowflake_sql_api.Types.{Reading, ColumnMeta}
use snowflake_sql_api.Types.Columns.{Row, coerce_row, coerce_rows}
use snowflake_sql_api.Pagination.{
  list_of, body_rows, partition_count, fetch_rest, fetch_all_partitions,
}
use snowflake_sql_api.Pagination.Streaming.{
  array_of, stream_data, Source, Step, yielded, exhausted, broken, coerced, answered, advance,
  resume, iter_result_rows, Drained, prepend, took, drain,
}

array_of-list_of :
    (v : Value) {rows : List Value} → array_of v ≡ ok rows → list_of (or_else v (arr nil)) ≡ ok rows
unfolding list_of
array_of-list_of (arr nil) h = h
array_of-list_of (arr (item x xs)) h = h
array_of-list_of _ h = cc

-- The array that streaming reads is what fetching reads.
pub stream_data-body_rows :
    (body : Fields) {rows : List Value} → stream_data body ≡ ok rows → body_rows body ≡ ok rows
unfolding stream_data body_rows
stream_data-body_rows body h = array_of-list_of (get (codes "data") body) h

module _ (env : Environment) (handle : Text) (py : Reading) (columns : List ColumnMeta) where
  -- The raw rows that are still to come from a place in the result, and the world behind them.
  abbrev pub Pending : ℕ → ℕ → List Value → env.World → List Value → env.World → Type 0
  Pending left index rows w raws w' =
      (pages : List Value) × ((acc : List Value)
        → fetch_rest env handle left index w acc ≡ (ok (acc ++ pages), w'))
      × (raws ≡ rows ++ pages)

  -- A partition more in front of what is pending.
  Pending-page :
      (left index : ℕ) (w : env.World) (r : StatementResponse) (s : Sending env) (page : List Value)
      (raws : List Value) (w' : env.World)
      → get_statement env handle (some index) w ≡ (ok r, s)
      → stream_data r.body ≡ ok page
      → Pending left (suc index) page s.world raws w'
      → Pending (suc left) index [] w raws w'
  unfolding fetch_rest
  Pending-page left index w r s page raws w' asked read (pages, fetched, same) = (
    page ++ pages,
    (λ acc. rw asked (
        rw (stream_data-body_rows r.body read)
          (fetched (acc ++ page) ∙ ap (λ rows. (ok rows, w')) (append_assoc acc page pages)))),
    same,
  )

  abbrev Yields : ℕ → ℕ → List Value → env.World → Step env handle py columns → Type 0
  Yields left index rows w (yielded row source w1) =
      (raws : List Value) (w' : env.World)
      → Pending source.left source.index source.data_rows w1 raws w'
      → (raw : Value) × (coerce_row py columns raw ≡ ok row)
        × Pending left index rows w (raw ∷ raws) w'
  Yields left index rows w (exhausted w1) = Pending left index rows w [] w1
  Yields left index rows w (broken e w1) = Unit

  -- What a later place in the result yields, it yields behind the partitions in between.
  page-Yields :
      (left index : ℕ) (w : env.World) (r : StatementResponse) (s : Sending env) (page : List Value)
      → get_statement env handle (some index) w ≡ (ok r, s)
      → stream_data r.body ≡ ok page
      → (step : Step env handle py columns) → Yields left (suc index) page s.world step
      → Yields (suc left) index [] w step
  page-Yields left index w r s page asked read (yielded row source w1) yields = (λ raws w' pending.
      let (raw, gives, rest) = yields raws w' pending in
      (raw, gives, Pending-page left index w r s page (raw ∷ raws) w' asked read rest))
  page-Yields left index w r s page asked read (exhausted w1) yields =
      Pending-page left index w r s page [] w1 asked read yields
  page-Yields left index w r s page asked read (broken e w1) yields = tt

  answered-Yields :
      (left index : ℕ) (w : env.World) (answer : Result Exc StatementResponse × Sending env)
      → get_statement env handle (some index) w ≡ answer
      → ((page : List Value) (w1 : env.World)
          → Yields left
              (suc index)
              page
              w1
              (advance env handle py columns left (suc index) page w1))
      → Yields
          (suc left)
          index
          []
          w
          (answered env handle py columns (advance env handle py columns left (suc index)) answer)
  answered-Yields left index w (err e, s) asked later = tt
  answered-Yields left index w (ok r, s) asked later = elim (Result-cases (stream_data r.body)) [
    | inl (page, read) ↦ rw read (
        page-Yields left index w r s page asked read
          (advance env handle py columns left (suc index) page s.world) (later page s.world))
    | inr (e, broke) ↦ rw broke tt
  ]

  advance-Yields :
      (left index : ℕ) (rows : List Value) (w : env.World)
      → Yields left index rows w (advance env handle py columns left index rows w)
  unfolding advance fetch_rest
  advance-Yields left index (raw ∷ rows) w = elim (Result-cases (coerce_row py columns raw)) [
    | inl (row, h) ↦
        rw h (λ raws w' pending. (raw, h, (pending.0, pending.1, ap (λ t. raw ∷ t) pending.2)))
    | inr (e, h) ↦ rw h tt
  ]
  advance-Yields zero index [] w =
      ([], (λ acc. ap (λ rows. (ok rows, w)) (sym (append-nil acc))), refl)
  advance-Yields (suc left) index [] w =
      answered-Yields left index w (get_statement env handle (some index) w) refl
        (λ page w1. advance-Yields left (suc index) page w1)

  Ahead : Source → env.World → List Row → env.World → Type 0
  Ahead source w rows w' =
      (raws : List Value) × Pending source.left source.index source.data_rows w raws w'
      × (coerce_rows py columns raws ≡ ok rows)

  coerce_rows-cons :
      (raw : Value) (raws : List Value) {row : Row} {rows : List Row}
      → coerce_row py columns raw ≡ ok row
      → coerce_rows py columns raws ≡ ok rows
      → coerce_rows py columns (raw ∷ raws) ≡ ok (row ∷ rows)
  unfolding coerce_rows traverse
  coerce_rows-cons raw raws first rest = rw first (rw rest refl)

  prepend-Ahead :
      (left index : ℕ) (data_rows : List Value) (w : env.World) (row : Row) (source : Source)
      (w1 : env.World) (drained : Drained env handle py columns) {rows : List Row} {w' : env.World}
      → Yields left index data_rows w (yielded row source w1)
      → ((rows1 : List Row) → drained ≡ some (ok rows1, w') → Ahead source w1 rows1 w')
      → prepend env handle py columns row drained ≡ some (ok rows, w')
      → Ahead (record { left = left; index = index; data_rows = data_rows }) w rows w'
  unfolding Ahead
  prepend-Ahead left index data_rows w row source w1 none yields later h = cc
  prepend-Ahead left index data_rows w row source w1 (some (err e, w2)) yields later h = cc
  prepend-Ahead left index data_rows w row source w1 (some (ok rows1, w2)) {rows} {w'} yields later
        h =
      let ends : w2 ≡ w' = cc in
      let same : row ∷ rows1 ≡ rows = cc in
      let (raws, pending, coerced_rest) = later rows1 (ap (λ v. some (ok rows1, v)) ends) in
      let (raw, coerced_first, all) = yields raws w' pending in
      (raw ∷ raws, all, coerce_rows-cons raw raws coerced_first coerced_rest ∙ ap ok same)

  took-Ahead :
      (left index : ℕ) (data_rows : List Value) (w : env.World)
      (loop : Source → env.World → Drained env handle py columns)
      (step : Step env handle py columns) {rows : List Row} {w' : env.World}
      → Yields left index data_rows w step
      → ((source : Source) (w1 : env.World) (rows1 : List Row)
          → loop source w1 ≡ some (ok rows1, w')
          → Ahead source w1 rows1 w')
      → took env handle py columns loop step ≡ some (ok rows, w')
      → Ahead (record { left = left; index = index; data_rows = data_rows }) w rows w'
  unfolding Ahead coerce_rows traverse
  took-Ahead left index data_rows w loop (yielded row source w1) yields later h =
      prepend-Ahead left index data_rows w row source w1 (loop source w1) yields (later source w1) h
  took-Ahead left index data_rows w loop (exhausted w1) {rows} {w'} yields later h =
      let ends : w1 ≡ w' = cc in
      let same : [] ≡ rows = cc in
      ([], subst (λ v. Pending left index data_rows w [] v) ends yields, ap ok same)
  took-Ahead left index data_rows w loop (broken e w1) yields later h = cc

  drain-Ahead :
      (fuel : ℕ) (source : Source) (w : env.World) {rows : List Row} {w' : env.World}
      → drain env handle py columns fuel source w ≡ some (ok rows, w')
      → Ahead source w rows w'
  unfolding drain
  drain-Ahead zero source w h = cc
  drain-Ahead (suc fuel) source w {rows} {w'} h =
      took-Ahead source.left source.index source.data_rows w (drain env handle py columns fuel)
        (resume env handle py columns source w)
        (advance-Yields source.left source.index source.data_rows w)
        (λ next w1 rows1. drain-Ahead fuel next w1) h

  -- When the generator of a result is used up without an exception, fetching all of its partitions
  -- from the same state succeeds and leaves the same state, and coercing what it fetches gives the
  -- rows that the generator yielded, in order.
  pub drain-fetch_all_partitions :
      (fuel : ℕ) (first_body : Fields) (source : Source) (w : env.World) {rows : List Row}
      {w' : env.World}
      → iter_result_rows env handle py columns first_body ≡ ok source
      → drain env handle py columns fuel source w ≡ some (ok rows, w')
      → (raws : List Value) × (fetch_all_partitions env handle first_body w ≡ (ok raws, w'))
        × (coerce_rows py columns raws ≡ ok rows)
  unfolding iter_result_rows fetch_all_partitions Ahead
  drain-fetch_all_partitions fuel first_body source w {rows} {w'} opened drained =
      let (count, counted, opened1) = >>=-eq-ok (partition_count first_body) _ opened in
      let (data_rows, read, opened2) = >>=-eq-ok (stream_data first_body) _ opened1 in
      let begun : Source = record { left = count - 1; index = 1; data_rows = data_rows } in
      let same : begun ≡ source = ok-injective {E = Exc} opened2 in
      let (raws, (pages, fetched, split), coerced) =
        drain-Ahead fuel begun w (ap (λ t. drain env handle py columns fuel t w) same ∙ drained) in
      (
        raws,
        rw counted (
            rw (stream_data-body_rows first_body read)
              (fetched data_rows ∙ ap (λ r. (ok r, w')) (sym split))),
        coerced,
      )
