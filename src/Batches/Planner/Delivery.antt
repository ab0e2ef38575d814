-- ===== src/Batches/Planner/Delivery.antt =====
-- What a call of `next_batch` delivers, and that a planner starts out ready for it.
use snowflake_sql_api.Common.{
  ℕ, zero, suc, ◌≤◌, ◌<◌, Text, codes, Option, none, some, List, [], ◌∷◌, ◌++◌, Result, ok,
  >>=-eq-ok, ok-injective, ◌≡◌, refl, sym, ap, subst, ◌∙◌, inl, inr, arith, length, All, All-append,
  replicate, join, traverse, then_branch, else_branch, Bool-cases, ltb, ltb_false→le,
}
use snowflake_sql_api.Errors.{Exc}
use snowflake_sql_api.Escaping.{quote_identifier, quote_name}
use snowflake_sql_api.Common.Int.{pos}
use snowflake_sql_api.Bindings.{PyValue, int}
use snowflake_sql_api.Batches.Encode.{Bytes}
use snowflake_sql_api.Batches.Encode.Plain.{IsPlain}
use snowflake_sql_api.Batches.Planner.{
  Next, Planner, PreparedBatch, placeholder_of, positive_limit, make_planner, initial, comma_space,
}
use snowflake_sql_api.Batches.Planner.Step.{
  Buffer, fill, finish, check_budget, next_batch, empty_buffer, statement,
}
use snowflake_sql_api.Batches.Planner.Order.{ahead}
use snowflake_sql_api.Batches.Planner.Conservation.{rows_of, flat, IsSound, Fed, LoopEnd, fill-Fed}
use snowflake_sql_api.Batches.Planner.Measured.{IsPlanned}

-- With a batch: its rows are the first ones ahead, their values are its parameters in order, its
-- statement has a placeholder for each, and the other rows are still ahead. With none: no row is
-- ahead.
abbrev pub Delivered : Planner → Planner × Option PreparedBatch → Type 0
Delivered p (q, none) = (ahead p ≡ []) × IsSound q
Delivered p (q, some batch) =
    (vs : List (List PyValue)) × (batch.params ≡ flat vs)
    × (batch.row_count ≡ length vs)
    × (batch.sql ≡ statement q (length vs))
    × All (λ v. length v ≡ p.width) vs
    × (ahead p ≡ rows_of vs ++ ahead q)
    × IsSound q

finish-none :
    (p : Planner) (b : Buffer) {q : Planner}
    → finish p b ≡ ok (q, none)
    → (q ≡ p) × (b.row_count ≡ 0)
unfolding finish check_budget
finish-none p b h = ground arith

finish-some :
    (p : Planner) (b : Buffer) {q : Planner} {batch : PreparedBatch}
    → finish p b ≡ ok (q, some batch)
    → (q ≡ p)
      × (batch.params ≡ b.params)
      × (batch.row_count ≡ b.row_count)
      × (batch.sql ≡ statement p b.row_count)
unfolding finish check_budget
finish-some p b h = ground arith

nil_of_length : (vs : List (List PyValue)) → length vs ≡ 0 → vs ≡ []
nil_of_length [] e = refl
nil_of_length (v ∷ vs) e = absurd (omega arith)

deliver :
    (p q : Planner) (b : Buffer) (vs : List (List PyValue)) {q' : Planner}
    (o : Option PreparedBatch)
    → 0 < p.max_rows
    → Fed p empty_buffer vs q b
    → LoopEnd p.max_rows vs q b
    → finish q b ≡ ok (q', o)
    → Delivered p (q', o)
deliver p q b vs {q'} none h0 fed end h =
    let (same, none_in) = finish-none q b h in
    let empty : vs ≡ [] = nil_of_length vs (omega (arith, fed.row_count)) in
    let used_up : ahead q ≡ [] = (ground (arith, fed.row_count)) in
    (
      fed.rows ∙ ap (λ xs. rows_of xs ++ ahead q) empty ∙ used_up,
      subst IsSound (sym same) fed.sound,
    )
deliver p q b vs {q'} (some batch) h0 fed end h =
    let (same, params, count, sql) = finish-some q b h in
    (
      vs,
      params ∙ fed.params,
      omega (arith, fed.row_count),
      sql
          ∙ ap (statement q) (omega (arith, fed.row_count))
          ∙ ap (λ x. statement x (length vs)) (sym same),
      fed.widths,
      fed.rows ∙ ap (λ x. rows_of vs ++ ahead x) (sym same),
      subst IsSound (sym same) fed.sound,
    )

-- From a sound planner `next_batch` delivers the rows of the source in order, none lost and none
-- twice, and stops only when no row is left.
pub next_batch-Delivered :
    (p : Planner) {out : Planner × Option PreparedBatch}
    → IsSound p
    → 0 < p.max_rows
    → next_batch p ≡ ok out
    → Delivered p out
unfolding next_batch
next_batch-Delivered p {out} s h0 h =
    let ((q, b), hf, h1) = >>=-eq-ok (fill p.max_rows p empty_buffer) _ h in
    let (vs, fed, end) = fill-Fed p.max_rows p empty_buffer s hf in
    deliver p q b vs out.1 h0 fed end h1

plain_marks : (n : ℕ) → All IsPlain (join comma_space (replicate n (codes "?")))
unfolding join
plain_marks zero = tt
plain_marks (suc zero) = omega arith
plain_marks (suc (suc n)) =
    All-append IsPlain (codes "?") (comma_space ++ join comma_space (replicate (suc n) (codes "?")))
      (omega arith)
      (All-append IsPlain comma_space (join comma_space (replicate (suc n) (codes "?")))
        (omega arith) (plain_marks (suc n)))

pub placeholder_of-IsPlain : (n : ℕ) → All IsPlain (placeholder_of n)
unfolding placeholder_of
placeholder_of-IsPlain n =
    All-append IsPlain (codes "(") (join comma_space (replicate n (codes "?")) ++ codes ")")
      (omega arith)
      (All-append IsPlain (join comma_space (replicate n (codes "?"))) (codes ")") (plain_marks n)
        (omega arith))

positive_limit-pos : (name : Text) (v : PyValue) {n : ℕ} → positive_limit name v ≡ ok n → 0 < n
unfolding positive_limit
positive_limit-pos name (int (pos (suc n))) h = ground arith
positive_limit-pos name _ h = cc

-- The state of a new planner: measured, sound, with every row of the source ahead.
abbrev pub IsReady : ℕ → List Next → Planner → Type 0
IsReady width rows p =
    IsPlanned p
    × IsSound p
    × (0 < p.max_rows)
    × (p.max_rows ≤ 200000)
    × (ahead p ≡ rows)
    × (p.width ≡ width)
    × (p.confirmed_rows ≡ 0)
    × (p.completed ≡ [])

initial-IsReady :
    (prefix : Text) (width mr mb : ℕ) (it : Option Exc) (rows : List Next) (bc : Result Exc Bytes)
    → 0 < mr
    → mr ≤ 200000
    → IsReady width rows (initial prefix width mr mb it rows bc)
initial-IsReady prefix width mr mb it rows bc h k = (
  record { plain = placeholder_of-IsPlain width; overhead = tt },
  record { drained = λ e. cc; kept = λ r e. cc },
  h,
  k,
  refl,
  refl,
  refl,
  refl,
)

-- A planner that the constructor accepts is ready: measured, sound, with a positive row limit of
-- at most 200000, every row of the source ahead, and nothing confirmed.
pub make_planner-IsReady :
    (table : Text) (columns : List Text) (iter_error : Option Exc) (rows : List Next)
    (max_rows max_bytes : PyValue) (build_context : Result Exc Bytes) {p : Planner}
    → make_planner table columns iter_error rows max_rows max_bytes build_context ≡ ok p
    → IsReady (length columns) rows p
unfolding make_planner
make_planner-IsReady table [] it rows mr mb bc h = cc
make_planner-IsReady table (c ∷ cs) it rows mr mb bc h =
    let (rl, hr, h1) = >>=-eq-ok (positive_limit (codes "max_rows") mr) _ h in
    let (bl, hb, h2) = >>=-eq-ok (positive_limit (codes "max_bytes") mb) _ h1 in
    elim (Bool-cases (ltb 200000 rl)) [
      | inl over ↦ cc (then_branch _ _ _ over h2)
      | inr fits ↦
          let (cols, hc, h3) =
            >>=-eq-ok (traverse quote_identifier (c ∷ cs)) _ (else_branch _ _ _ fits h2) in
          let (name, hn, h4) = >>=-eq-ok (quote_name table) _ h3 in
          subst (IsReady (length (c ∷ cs)) rows) (ok-injective {E = Exc} h4) (
            initial-IsReady _ _ rl bl it rows bc (positive_limit-pos (codes "max_rows") mr hr)
              (ltb_false→le _ _ fits))
    ]
