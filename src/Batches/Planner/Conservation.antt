-- ===== src/Batches/Planner/Conservation.antt =====
-- The loop of `next_batch` moves rows from the source into the batch: none is lost, none comes
-- twice, and the order stays.
use snowflake_sql_api.Common.{
  ℕ, zero, suc, ◌+◌, ◌<◌, Option, none, some, List, [], ◌∷◌, ◌++◌, ok, append_assoc, append-nil,
  >>=-eq-ok, ok-injective, ◌≡◌, refl, sym, ap, subst, ◌∙◌, ◌⊎◌, inl, inr, arith, length, All,
}
use snowflake_sql_api.Bindings.{PyValue}
use snowflake_sql_api.Batches.Planner.{Next, row, positional, Entry, Planner, Fault}
use snowflake_sql_api.Batches.Planner.Step.{
  Buffer, place, take_record, place_taken, round, go_on, fill,
}
use snowflake_sql_api.Batches.Planner.Round.{guarded-eq-ok}
use snowflake_sql_api.Batches.Planner.Order.{
  ahead, IsDrained, take_record-Took, take_record-Spent, place-PutBack, place-Joined,
}

-- The rows as the source gives them.
abbrev pub rows_of : List (List PyValue) → List Next
rows_of [] = []
rows_of (v ∷ vs) = row (positional v) ∷ rows_of vs

-- Their values, one row behind the other.
abbrev pub flat : List (List PyValue) → List PyValue
flat [] = []
flat (v ∷ vs) = v ++ flat vs

-- A planner whose kept row has a value for each column.
pub record IsSound (p : Planner) : Type 0 where
  pub drained : IsDrained p
  pub kept : (r : Entry) → p.pending ≡ some r → length r.values ≡ p.width

-- From `p` to `q` the rows `vs` went into the buffer.
pub record Fed (p : Planner) (b : Buffer) (vs : List (List PyValue)) (q : Planner) (b' : Buffer)
    : Type 0 where
  pub params : b'.params ≡ b.params ++ flat vs
  pub row_count : b'.row_count ≡ b.row_count + length vs
  pub rows : ahead p ≡ rows_of vs ++ ahead q
  pub widths : All (λ v. length v ≡ p.width) vs
  pub width : q.width ≡ p.width
  pub sound : IsSound q

round-Joined :
    (p : Planner) (b : Buffer) {q : Planner} {b' : Buffer}
    → IsSound p
    → round p b ≡ ok (q, some b')
    → (r : Entry) × Fed p b (r.values ∷ []) q b'
unfolding round
round-Joined p b {q} {b'} s h = let ((p', o), ht, h1) = >>=-eq-ok (take_record p) _ h in go o ht h1
  where
    go :
        {p' : Planner} (o : Option Entry)
        → take_record p ≡ ok (p', o)
        → place_taken b p' o ≡ ok (q, some b')
        → (r : Entry) × Fed p b (r.values ∷ []) q b'
    go none ht h1 = cc
    go {p'} (some r) ht h1 =
        let (a, w, e, d, v) = take_record-Took p s.drained s.kept ht in
        let (k, src, x, w', ps, n) = place-Joined p' b r (guarded-eq-ok p' (place p' b r) h1) in
        (
          r,
          record {
            params = ps ∙ ap (λ vs. b.params ++ vs) (sym (append-nil r.values));
            row_count = n;
            rows = ground arith;
            widths = (w, tt);
            width = w' ∙ v;
            sound = record { drained = ground arith; kept = λ r' e'. ground arith };
          },
        )

-- A round that breaks off: the buffer had rows, or there was nothing left to read.
round_breaks :
    (p : Planner) (b : Buffer) {q : Planner}
    → IsSound p
    → round p b ≡ ok (q, none)
    → (ahead p ≡ ahead q) × (q.width ≡ p.width) × IsSound q × ((0 < b.row_count) ⊎ (ahead q ≡ []))
unfolding round
round_breaks p b {q} s h = let ((p', o), ht, h1) = >>=-eq-ok (take_record p) _ h in go o ht h1
  where
    go :
        {p' : Planner} (o : Option Entry)
        → take_record p ≡ ok (p', o)
        → place_taken b p' o ≡ ok (q, none)
        → (ahead p ≡ ahead q)
          × (q.width ≡ p.width)
          × IsSound q
          × ((0 < b.row_count) ⊎ (ahead q ≡ []))
    go {p'} none ht h1 =
        let (a, a', d, w) = take_record-Spent p s.drained ht in
        let same : p' ≡ q = (ground arith) in
        subst
          (λ q.
            (ahead p ≡ ahead q)
            × (q.width ≡ p.width)
            × IsSound q
            × ((0 < b.row_count) ⊎ (ahead q ≡ [])))
          same (a ∙ sym a', w, record { drained = d; kept = λ r e. ground arith }, inr a')
    go {p'} (some r) ht h1 =
        let (a, w, e, d, v) = take_record-Took p s.drained s.kept ht in
        let ((k, src, x, w'), some_rows) =
          place-PutBack p' b r (guarded-eq-ok p' (place p' b r) h1) in
        (
          ground arith,
          w' ∙ v,
          record { drained = ground arith; kept = λ r' e'. ground arith },
          inl some_rows,
        )

-- The rounds of the loop, one behind the other.
Fed-trans :
    {p p' q : Planner} {b b' c : Buffer} (v : List PyValue) (vs : List (List PyValue))
    → Fed p b (v ∷ []) p' b'
    → Fed p' b' vs q c
    → Fed p b (v ∷ vs) q c
Fed-trans {p} {p'} {q} {b} {b'} {c} v vs f g = record {
  params = g.params ∙ ap (λ xs. xs ++ flat vs) f.params ∙ simp (append_assoc, append-nil);
  row_count = omega (arith, f.row_count, g.row_count);
  rows = f.rows ∙ ap (λ xs. row (positional v) ∷ xs) g.rows;
  widths = (f.widths.0, subst (λ w. All (λ xs. length xs ≡ w) vs) f.width g.widths);
  width = g.width ∙ f.width;
  sound = g.sound;
}

-- What the loop leaves: it used all its rounds, or the buffer has rows, or the source has none.
abbrev pub LoopEnd : ℕ → List (List PyValue) → Planner → Buffer → Type 0
LoopEnd left vs q b' = (left ≡ length vs) ⊎ (0 < b'.row_count) ⊎ (ahead q ≡ [])

Fed-nil :
    {p q : Planner} {b : Buffer}
    → ahead p ≡ ahead q
    → q.width ≡ p.width
    → IsSound q
    → Fed p b [] q b
Fed-nil {b = b} a w s = record {
  params = sym (append-nil b.params);
  row_count = omega arith;
  rows = a;
  widths = tt;
  width = w;
  sound = s;
}

pub fill-Fed :
    (left : ℕ) (p : Planner) (b : Buffer) {q : Planner} {b' : Buffer}
    → IsSound p
    → fill left p b ≡ ok (q, b')
    → (vs : List (List PyValue)) × Fed p b vs q b' × LoopEnd left vs q b'
unfolding fill
fill-Fed zero p b {q} {b'} s h =
    subst
      (λ (t : Planner × Buffer).
        (vs : List (List PyValue)) × Fed p b vs t.0 t.1 × LoopEnd 0 vs t.0 t.1)
      (ok-injective {E = Fault} h) ([], Fed-nil refl refl s, inl refl)
fill-Fed (suc left) p b {q} {b'} s h =
    let ((p', o), hr, h1) = >>=-eq-ok (round p b) _ h in
    go o hr h1 (λ c sc hc. fill-Fed left p' c sc hc)
  where
    go :
        {p' : Planner} (o : Option Buffer)
        → round p b ≡ ok (p', o)
        → go_on (fill left) b p' o ≡ ok (q, b')
        → ((c : Buffer)
            → IsSound p'
            → fill left p' c ≡ ok (q, b')
            → (vs : List (List PyValue)) × Fed p' c vs q b' × LoopEnd left vs q b')
        → (vs : List (List PyValue)) × Fed p b vs q b' × LoopEnd (suc left) vs q b'
    go {p'} none hr h1 rec =
        let (a, w, sound, end) = round_breaks p b s hr in
        subst
          (λ (t : Planner × Buffer).
            (vs : List (List PyValue)) × Fed p b vs t.0 t.1 × LoopEnd (suc left) vs t.0 t.1)
          (ok-injective {E = Fault} h1) ([], Fed-nil a w sound, inr end)
    go {p'} (some c) hr h1 rec =
        let (r, f) = round-Joined p b s hr in
        let (vs, g, end) = rec c f.sound h1 in
        (r.values ∷ vs, Fed-trans r.values vs f g, omega (arith, g.row_count, f.row_count))
