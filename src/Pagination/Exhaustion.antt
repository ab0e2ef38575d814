-- ===== src/Pagination/Exhaustion.antt =====
-- That the generator of a result ends once its partitions can be fetched.
use snowflake_sql_api.Common.{
  ℕ, zero, suc, ◌+◌, ◌-◌, ◌<◌, Text, none, some, List, [], ◌∷◌, length, length-append, Result, ok,
  err, ◌≡◌, refl, sym, ap, subst, ◌∙◌, arith, ok-injective, >>=-eq-ok, Result-cases, inl, inr,
}
use snowflake_sql_api.Errors.{Value, Fields, Exc}
use snowflake_sql_api.Transport.Send.{Environment}
use snowflake_sql_api.Types.{Reading, ColumnMeta}
use snowflake_sql_api.Types.Columns.{Row, coerce_row}
use snowflake_sql_api.Pagination.{
  partition_count, fetch_all_partitions, Pages, fetch_all_partitions-Pages,
}
use snowflake_sql_api.Pagination.Streaming.{
  stream_data, Source, Step, yielded, exhausted, broken, advance, resume, iter_result_rows, Drained,
  prepend, took, drain,
}
use snowflake_sql_api.Pagination.Agreement.{stream_data-body_rows}

module _ (env : Environment) (handle : Text) (py : Reading) (columns : List ColumnMeta) where
  -- What is yielded was one of `n` rows to come, and the others are still to come.
  abbrev Uses : ℕ → Step env handle py columns → Type 0
  Uses n (yielded row source w) =
      (pages : List Value) × Pages env handle source.left source.index w pages
      × (n ≡ suc (length source.data_rows + length pages))
  Uses n (exhausted w) = Unit
  Uses n (broken e w) = Unit

  advance-Uses :
      (left index : ℕ) (rows : List Value) (w : env.World) (pages : List Value)
      → Pages env handle left index w pages
      → Uses (length rows + length pages) (advance env handle py columns left index rows w)
  unfolding advance
  advance-Uses left index (raw ∷ rows) w pages there =
      elim (Result-cases (coerce_row py columns raw)) [
        | inl (row, h) ↦ rw h (pages, there, omega arith)
        | inr (e, h) ↦ rw h tt
      ]
  advance-Uses zero index [] w pages there = tt
  advance-Uses (suc left) index [] w pages (r, s, page, rest, asked, read, split, there) =
      rw asked (elim (Result-cases (stream_data r.body)) [
        | inr (e, broke) ↦ rw broke tt
        | inl (rows, streamed) ↦
            let same : rows ≡ page =
              ok-injective {E = Exc} (sym (stream_data-body_rows r.body streamed) ∙ read) in
            let size : 0 + length pages ≡ length rows + length rest =
              omega (arith, ap length split, length-append page rest, ap length same) in
            rw streamed (
              subst (λ n. Uses n (advance env handle py columns left (suc index) rows s.world))
                (sym size) (advance-Uses left (suc index) rows s.world rest there))
      ])

  abbrev Ends : Drained env handle py columns → Type 0
  Ends d = (answer : Result Exc (List Row) × env.World) × (d ≡ some answer)

  prepend-Ends :
      (row : Row) (d : Drained env handle py columns)
      → Ends d
      → Ends (prepend env handle py columns row d)
  prepend-Ends row none (answer, h) = cc
  prepend-Ends row (some (err e, w)) ends = ((err e, w), refl)
  prepend-Ends row (some (ok rows, w)) ends = ((ok (row ∷ rows), w), refl)

  took-Ends :
      (n fuel : ℕ) (step : Step env handle py columns)
      → Uses n step
      → n < suc fuel
      → ((source : Source) (w : env.World) (pages : List Value)
          → Pages env handle source.left source.index w pages
          → length source.data_rows + length pages < fuel
          → Ends (drain env handle py columns fuel source w))
      → Ends (took env handle py columns (drain env handle py columns fuel) step)
  took-Ends n fuel (yielded row source w) (pages, there, size) few later =
      prepend-Ends row (drain env handle py columns fuel source w)
        (later source w pages there (omega arith))
  took-Ends n fuel (exhausted w) used few later = ((ok [], w), refl)
  took-Ends n fuel (broken e w) used few later = ((err e, w), refl)

  drain-Ends :
      (fuel : ℕ) (source : Source) (w : env.World) (pages : List Value)
      → Pages env handle source.left source.index w pages
      → length source.data_rows + length pages < fuel
      → Ends (drain env handle py columns fuel source w)
  unfolding drain
  drain-Ends zero source w pages there few = let wrong : ⊥ = omega arith in absurd wrong
  drain-Ends (suc fuel) source w pages there few =
      took-Ends (length source.data_rows + length pages) fuel
        (resume env handle py columns source w)
        (advance-Uses source.left source.index source.data_rows w pages there) few (drain-Ends fuel)

  -- When all partitions of a result can be fetched, its generator comes to its end, with the rows
  -- or an exception, within as many steps as there are rows and one more.
  pub drain-ends :
      (first_body : Fields) (source : Source) (w : env.World) {raws : List Value} {w' : env.World}
      (fuel : ℕ)
      → fetch_all_partitions env handle first_body w ≡ (ok raws, w')
      → iter_result_rows env handle py columns first_body ≡ ok source
      → length raws < fuel
      → (answer : Result Exc (List Row) × env.World) × (drain env handle py columns fuel source w
          ≡ some answer)
  unfolding iter_result_rows
  drain-ends first_body source w fuel fetched opened enough =
      let (rows, new, total, read, counted, split, there) =
        fetch_all_partitions-Pages env handle first_body w fetched in
      let (count, announced, opened1) = >>=-eq-ok (partition_count first_body) _ opened in
      let (data_rows, streamed, opened2) = >>=-eq-ok (stream_data first_body) _ opened1 in
      let begun : Source = record { left = count - 1; index = 1; data_rows = data_rows } in
      let same : begun ≡ source = ok-injective {E = Exc} opened2 in
      let one : total ≡ count = ok-injective {E = Exc} (sym counted ∙ announced) in
      let two : data_rows ≡ rows =
        ok-injective {E = Exc} (sym (stream_data-body_rows first_body streamed) ∙ read) in
      subst (λ t. Ends (drain env handle py columns fuel t w)) same
        (drain-Ends fuel begun w new (subst (λ n. Pages env handle (n - 1) 1 w new) one there)
          (omega (arith, enough, ap length two, ap length split, length-append rows new)))
