-- ===== src/Batches/Planner/Budget.antt =====
-- The size that `next_batch` keeps while it fills a batch is the size of the body that it sends.
use snowflake_sql_api.Common.{
  ℕ, zero, suc, ◌+◌, ◌≤◌, Option, none, some, List, [], ◌∷◌, Result, Result-cases, ok, err,
  >>=-eq-ok, ok-injective, ◌≡◌, ◌≢◌, refl, sym, subst, ◌∙◌, inl, inr, arith, length, join,
}
use snowflake_sql_api.Errors.{Exc}
use snowflake_sql_api.Batches.Encode.{Bytes}
use snowflake_sql_api.Batches.Planner.{
  Next, row, fails, pull, read_record, Entry, Planner, PreparedBatch, Fault, escaped,
}
use snowflake_sql_api.Batches.Planner.Step.{
  Buffer, comma, body_with, body, place, take_record, place_taken, round, go_on, fill, statement,
  check_budget, finish, next_batch, empty_buffer,
}
use snowflake_sql_api.Batches.Planner.Frame.{SameSettings, SameSettings-refl, SameSettings-trans}
use snowflake_sql_api.Batches.Planner.Measured.{IsPlanned, IsSized, IsMeasured, Went}
use snowflake_sql_api.Batches.Planner.Round.{round-Leaves}

-- What the loop leaves: a planned planner, and a measured buffer of at most `left` rows more.
abbrev pub Filled : ℕ → Planner → Buffer → Planner × Buffer → Type 0
Filled left p b (q, b') =
    IsPlanned q × SameSettings p q × IsMeasured q b' × (b'.row_count ≤ b.row_count + left)

Filled-suc :
    (left : ℕ) (p p' : Planner) (b b' : Buffer) (t : Planner × Buffer)
    → SameSettings p p'
    → b'.row_count ≡ b.row_count + 1
    → Filled left p' b' t
    → Filled (suc left) p b t
Filled-suc left p p' b b' (q, c) s e (planned, s', m, le) =
    (planned, SameSettings-trans s s', m, omega arith)

pub fill-IsMeasured :
    (left : ℕ) (p : Planner) (b : Buffer) {out : Planner × Buffer}
    → IsPlanned p
    → IsMeasured p b
    → fill left p b ≡ ok out
    → Filled left p b out
unfolding fill
fill-IsMeasured zero p b planned m h =
    subst (Filled zero p b) (ok-injective {E = Fault} h)
      (planned, SameSettings-refl p, m, omega arith)
fill-IsMeasured (suc left) p b {out} planned m h =
    let ((p', o), hr, h1) = >>=-eq-ok (round p b) _ h in
    let (planned', s, went) = round-Leaves p b planned m hr in
    go o planned' s went h1 (λ b' s' hb. fill-IsMeasured left p' b' planned' (inr s') hb)
  where
    go :
        {p' : Planner} (o : Option Buffer)
        → IsPlanned p'
        → SameSettings p p'
        → Went p' b o
        → go_on (fill left) b p' o ≡ ok out
        → ((b' : Buffer) → IsSized p' b' → fill left p' b' ≡ ok out → Filled left p' b' out)
        → Filled (suc left) p b out
    go {p'} none planned' s went h1 rec =
        subst (Filled (suc left) p b) (ok-injective {E = Fault} h1) (planned', s, went, omega arith)
    go {p'} (some b') planned' s (sized, e) h1 rec =
        Filled-suc left p p' b b' out s e (rec b' sized h1)

finish-empty : (p : Planner) (b : Buffer) → b.row_count ≡ 0 → finish p b ≡ ok (p, none)
unfolding finish
finish-empty p b e = ground arith

-- The body that is sent has the size that was counted, so the check on the finished body passes.
finish-sized :
    (p : Planner) (b : Buffer)
    → IsSized p b
    → (content : Bytes) × (length content ≡ b.size)
      × (finish p b
          ≡ ok (
            p,
            some (record {
              sql = statement p b.row_count;
              params = b.params;
              content = content;
              row_count = b.row_count;
            }),
          ))
unfolding finish check_budget body
finish-sized p b s =
    let built : body_with s.context (statement p b.row_count) (join comma b.fragments)
        ≡ ok s.content =
      rw s.row_count s.built in
    (s.content, s.size, ground (arith, s.is_set, built, s.size, s.within, s.row_count))

finish_ok : (p : Planner) (b : Buffer) {f : Fault} → IsMeasured p b → finish p b ≢ err f
finish_ok p b (inl (e, _)) h = cc (finish-empty p b e, h)
finish_ok p b (inr sized) h = let (content, size, done) = finish-sized p b sized in cc (done, h)

pull_stops : (p : Planner) (items : List Next) (e : Exc) → pull p items ≢ err (escaped e)
unfolding pull
pull_stops p [] e h = cc
pull_stops p (fails x ∷ rest) e h = cc
pull_stops p (row r ∷ rest) e h = ground arith

take_record_stops : (p : Planner) (e : Exc) → take_record p ≢ err (escaped e)
unfolding take_record read_record
take_record_stops p e h = ground (arith, pull_stops p p.source e)

place_taken_stops :
    (b : Buffer) (p : Planner) (o : Option Entry) (e : Exc) → place_taken b p o ≢ err (escaped e)
place_taken_stops b p none e h = cc
place_taken_stops b p (some r) e h = elim (Result-cases (place p b r)) [
  | inl (a, ha) ↦ cc (rw ha at h)
  | inr (x, hx) ↦ cc (rw hx at h)
]

-- Every exception of the loop is a `BatchWriteError`.
fill_stops : (left : ℕ) (p : Planner) (b : Buffer) (e : Exc) → fill left p b ≢ err (escaped e)
unfolding fill round
fill_stops zero p b e h = cc
fill_stops (suc left) p b e h = elim (Result-cases (take_record p)) [
  | inl ((q, o), ht) ↦ elim (Result-cases (place_taken b q o)) [
    | inl ((q', o'), hp) ↦ go_on_stops q' o' (λ b'. fill_stops left q' b' e) (rw (ht, hp) at h)
    | inr (x, hx) ↦ place_taken_stops b q o e (hx ∙ cc (rw (ht, hx) at h))
  ]
  | inr (x, hx) ↦ take_record_stops p e (hx ∙ cc (rw hx at h))
]
  where
    go_on_stops :
        (q' : Planner) (o : Option Buffer)
        → ((b' : Buffer) → fill left q' b' ≢ err (escaped e))
        → go_on (fill left) b q' o ≡ err (escaped e)
        → ⊥
    go_on_stops q' none rec h = cc
    go_on_stops q' (some b') rec h = rec b' h

-- What `next_batch` promises of a batch and of the planner behind it.
abbrev pub Sendable : Planner → Planner × Option PreparedBatch → Type 0
Sendable p (q, none) = IsPlanned q × SameSettings p q
Sendable p (q, some batch) =
    (length batch.content ≤ p.max_bytes)
    × (1 ≤ batch.row_count)
    × (batch.row_count ≤ p.max_rows)
    × IsPlanned q
    × SameSettings p q

finish-Sendable :
    (p q : Planner) (b : Buffer) {out : Planner × Option PreparedBatch}
    → IsPlanned q
    → SameSettings p q
    → IsMeasured q b
    → b.row_count ≤ p.max_rows
    → finish q b ≡ ok out
    → Sendable p out
finish-Sendable p q b {out} planned s (inl (e, _)) le h =
    subst (Sendable p) (ok-injective {E = Fault} (sym (finish-empty q b e) ∙ h)) (planned, s)
finish-Sendable p q b {out} planned s (inr sized) le h =
    let (content, size, done) = finish-sized q b sized in
    subst (Sendable p) (ok-injective {E = Fault} (sym done ∙ h)) (
      omega (arith, size, sized.within, s.max_bytes),
      omega (arith, sized.row_count),
      le,
      planned,
      s,
    )

-- From a planned planner, a batch that `next_batch` gives has a body of at most `max_bytes`, at
-- least one row and at most `max_rows`; the planner behind it is planned, with the same settings.
pub next_batch-Sendable :
    (p : Planner) {out : Planner × Option PreparedBatch}
    → IsPlanned p
    → next_batch p ≡ ok out
    → Sendable p out
unfolding next_batch
next_batch-Sendable p {out} planned h =
    let ((q, b), hf, h1) = >>=-eq-ok (fill p.max_rows p empty_buffer) _ h in
    let (planned', s, m, le) =
      fill-IsMeasured p.max_rows p empty_buffer planned (inl (refl, refl)) hf in
    finish-Sendable p q b planned' s m (omega arith) h1

-- From a planned planner, when `next_batch` fails it is the loop that failed, with a
-- `BatchWriteError`: the check of the finished body against the counted size never fails, and no
-- other exception escapes.
pub next_batch_stops :
    (p : Planner) {f : Fault}
    → IsPlanned p
    → next_batch p ≡ err f
    → (fill p.max_rows p empty_buffer ≡ err f) × ((e : Exc) → f ≢ escaped e)
unfolding next_batch
next_batch_stops p {f} planned h = elim (Result-cases (fill p.max_rows p empty_buffer)) [
  | inl ((q, b), hf) ↦
      let (planned', s, m, le) =
        fill-IsMeasured p.max_rows p empty_buffer planned (inl (refl, refl)) hf in
      let h1 : finish q b ≡ err f = (rw hf at h) in absurd (finish_ok q b m h1)
  | inr (g, hg) ↦
      let e : ◌≡◌ {A = Result Fault (Planner × Option PreparedBatch)} (err g) (err f) =
        (rw hg at h) in
      (hg ∙ cc e, λ x hx. fill_stops p.max_rows p empty_buffer x (hg ∙ cc (e, hx)))
]
