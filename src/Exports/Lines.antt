-- ===== src/Exports/Lines.antt =====
-- That an export writes a line for each row of the result and counts them.
use snowflake_sql_api.Common.{
  ℕ, zero, suc, ◌+◌, Text, none, some, List, [], ◌∷◌, ◌++◌, length, Result, ok, err, traverse,
  traverse-cons, ◌≡◌, refl, sym, ap, subst, ◌∙◌, arith, append-nil, append_assoc, ok-injective,
}
use snowflake_sql_api.Errors.{Value, Exc}
use snowflake_sql_api.Transport.Send.{Environment}
use snowflake_sql_api.Types.{Reading, ColumnMeta}
use snowflake_sql_api.Types.Columns.{Row}
use snowflake_sql_api.Pagination.Streaming.{
  Source, Step, yielded, exhausted, broken, resume, Drained, prepend, took, drain,
}
use snowflake_sql_api.Exports.{Formats, Exported, stepped, export_rows}

module _ (formats : Formats) (listed : List Value → Text) (env : Environment) (handle : Text)
    (py : Reading) (columns : List ColumnMeta) (line : Row → Result Exc Text) where
  abbrev Loop : Type 0
  Loop = List Text → ℕ → Source → env.World → Exported formats listed env handle py columns line

  -- From a place in the result, the loop writes the lines of the rows to come.
  abbrev Writes : Loop → List Row → Source → env.World → env.World → Type 0
  Writes loop rows source w w' =
      (out : List Text) (count : ℕ) (lines : List Text)
      → traverse line rows ≡ ok lines
      → loop out count source w ≡ some (ok (count + length rows), out ++ lines, w')

  prepend-Writes :
      (loop : Loop) (row : Row) (source : Source) (w : env.World)
      (drained : Drained env handle py columns) (out : List Text) (count : ℕ) (lines : List Text)
      {rows : List Row} {w' : env.World}
      → ((rows1 : List Row) (w1 : env.World)
          → drained ≡ some (ok rows1, w1)
          → Writes loop rows1 source w w1)
      → prepend env handle py columns row drained ≡ some (ok rows, w')
      → traverse line rows ≡ ok lines
      → stepped formats listed env handle py columns line loop out count (yielded row source w)
        ≡ some (ok (count + length rows), out ++ lines, w')
  prepend-Writes loop row source w none out count lines later h written = cc
  prepend-Writes loop row source w (some (err e, w2)) out count lines later h written = cc
  prepend-Writes loop row source w (some (ok rows1, w2)) out count lines {rows} {w'} later h
        written =
      let ends : w2 ≡ w' = cc in
      let same : row ∷ rows1 ≡ rows = cc in
      let (t, ts, first, rest, split) =
        traverse-cons line row rows1 (subst (λ r. traverse line r ≡ ok lines) (sym same) written) in
      let size : count + 1 + length rows1 ≡ count + length rows = omega (arith, ap length same) in
      rw first (
        later rows1 w2 refl (out ++ t ∷ []) (count + 1) ts rest
        ∙ ap (λ n. some (ok n, (out ++ t ∷ []) ++ ts, w2)) size
        ∙ ap (λ l. some (ok (count + length rows), l, w2))
            (append_assoc out (t ∷ []) ts ∙ ap (λ l. out ++ l) (sym split))
        ∙ ap (λ v. some (ok (count + length rows), out ++ lines, v)) ends)

  no_lines : traverse line [] ≡ ok []
  unfolding traverse
  no_lines = refl

  step-Writes :
      (fuel : ℕ) (step : Step env handle py columns) (out : List Text) (count : ℕ)
      (lines : List Text) {rows : List Row} {w' : env.World}
      → ((source : Source) (w : env.World) (rows1 : List Row) (w1 : env.World)
          → drain env handle py columns fuel source w ≡ some (ok rows1, w1)
          → Writes (export_rows formats listed env handle py columns line fuel) rows1 source w w1)
      → took env handle py columns (drain env handle py columns fuel) step ≡ some (ok rows, w')
      → traverse line rows ≡ ok lines
      → stepped formats listed env handle py columns line
          (export_rows formats listed env handle py columns line fuel)
          out
          count
          step
        ≡ some (ok (count + length rows), out ++ lines, w')
  step-Writes fuel (yielded row source w) out count lines later h written =
      prepend-Writes (export_rows formats listed env handle py columns line fuel) row source w
        (drain env handle py columns fuel source w) out count lines (later source w) h written
  step-Writes fuel (exhausted w) out count lines {rows} {w'} later h written =
      let ends : w ≡ w' = cc in
      let none_left : [] ≡ rows = cc in
      let blank : [] ≡ lines =
        ok-injective {E = Exc} (sym no_lines ∙ ap (traverse line) none_left ∙ written) in
      let size : count ≡ count + length rows = omega (arith, ap length none_left) in
      ap (λ n. some (ok n, out, w)) size
      ∙ ap (λ l. some (ok (count + length rows), l, w))
          (sym (append-nil out) ∙ ap (λ l. out ++ l) blank)
      ∙ ap (λ v. some (ok (count + length rows), out ++ lines, v)) ends
  step-Writes fuel (broken e w) out count lines later h written = cc

  -- When the generator of a result yields rows and ends, an export that can format each of them
  -- writes a line for each row, in order, behind what it wrote before, counts them, and leaves
  -- the same state.
  pub export_rows-drain :
      (fuel : ℕ) (source : Source) (w : env.World) {rows : List Row} {w' : env.World}
      (out : List Text) (count : ℕ) {lines : List Text}
      → drain env handle py columns fuel source w ≡ some (ok rows, w')
      → traverse line rows ≡ ok lines
      → export_rows formats listed env handle py columns line fuel out count source w
        ≡ some (ok (count + length rows), out ++ lines, w')
  unfolding export_rows drain
  export_rows-drain zero source w out count drained written = cc
  export_rows-drain (suc fuel) source w out count {lines} drained written =
      step-Writes fuel (resume env handle py columns source w) out count lines
        (λ source1 v rows1 v1 drained1 out1 count1 lines1 written1.
          export_rows-drain fuel source1 v out1 count1 drained1 written1)
        drained written
