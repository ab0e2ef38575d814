-- ===== src/Batches/Planner/Stops.antt =====
-- What a `BatchWriteError` of the planner says of the progress.
use snowflake_sql_api.Common.{
  zero, suc, ℕ, Option, none, some, List, [], ◌∷◌, err, Result-cases, ◌≡◌, refl, ◌∙◌, inl, inr,
  arith,
}
use snowflake_sql_api.Batches.Progress.{not_executed}
use snowflake_sql_api.Batches.Planner.{
  Next, row, fails, Entry, Planner, Fault, stopped, escaped, pull, read_record, error, check_row,
}
use snowflake_sql_api.Batches.Planner.Step.{
  Buffer, place, take_record, place_taken, round, go_on, fill, empty_buffer, next_batch,
}
use snowflake_sql_api.Batches.Planner.Frame.{SameSettings, take_record-SameContext}
use snowflake_sql_api.Batches.Planner.Measured.{IsPlanned, IsMeasured, IsSized, Went}
use snowflake_sql_api.Batches.Planner.Round.{round-Leaves}
use snowflake_sql_api.Batches.Planner.Budget.{next_batch_stops}

-- The error stands at the planner's confirmed progress, with nothing executed.
abbrev pub StopsAt : Planner → Fault → Type 0
StopsAt p (escaped e) = Unit
StopsAt p (stopped e) =
    (e.completed ≡ p.completed)
    × (e.next_row_index ≡ p.confirmed_rows)
    × (e.outcome ≡ not_executed)
    × (e.failed_batch ≡ none)

StopsAt-SameSettings : {p q : Planner} (f : Fault) → SameSettings p q → StopsAt q f → StopsAt p f
StopsAt-SameSettings (escaped e) s h = tt
StopsAt-SameSettings (stopped e) s (a, b, c, d) = (a ∙ s.completed, b ∙ s.confirmed_rows, c, d)

pull-StopsAt : (p : Planner) (items : List Next) (f : Fault) → pull p items ≡ err f → StopsAt p f
unfolding pull error
pull-StopsAt p items (escaped e) h = tt
pull-StopsAt p [] (stopped e) h = cc
pull-StopsAt p (fails x ∷ rest) (stopped e) h = ground arith
pull-StopsAt p (row r ∷ rest) (stopped e) h = elim (Result-cases (check_row p.width r)) [
  | inl (a, ha) ↦ cc (rw ha at h)
  | inr (x, hx) ↦ let h1 = (rw hx at h) in ground (arith, h1)
]

take_record-StopsAt : (p : Planner) (f : Fault) → take_record p ≡ err f → StopsAt p f
unfolding take_record read_record error
take_record-StopsAt p (escaped e) h = tt
take_record-StopsAt p (stopped e) h = ground (arith, pull-StopsAt p p.source (stopped e))

place_taken-StopsAt :
    (b : Buffer) (p : Planner) (o : Option Entry) (f : Fault)
    → place_taken b p o ≡ err f
    → StopsAt p f
unfolding error
place_taken-StopsAt b p o (escaped e) h = tt
place_taken-StopsAt b p none (stopped e) h = cc
place_taken-StopsAt b p (some r) (stopped e) h = elim (Result-cases (place p b r)) [
  | inl (a, ha) ↦ cc (rw ha at h)
  | inr (x, hx) ↦ let h1 = (rw hx at h) in ground (arith, h1)
]

round-StopsAt : (p : Planner) (b : Buffer) (f : Fault) → round p b ≡ err f → StopsAt p f
unfolding round
round-StopsAt p b f h = elim (Result-cases (take_record p)) [
  | inl ((q, o), ht) ↦
      StopsAt-SameSettings f (take_record-SameContext p ht).settings
        (place_taken-StopsAt b q o f (rw ht at h))
  | inr (x, hx) ↦ take_record-StopsAt p f (hx ∙ cc (rw hx at h))
]

fill-StopsAt :
    (left : ℕ) (p : Planner) (b : Buffer) (f : Fault)
    → IsPlanned p
    → IsMeasured p b
    → fill left p b ≡ err f
    → StopsAt p f
unfolding fill
fill-StopsAt zero p b f planned m h = cc
fill-StopsAt (suc left) p b f planned m h = elim (Result-cases (round p b)) [
  | inl ((q, o), hr) ↦
      let (planned', s, went) = round-Leaves p b planned m hr in
      StopsAt-SameSettings f s
        (go o went (rw hr at h) (λ b' s' hb. fill-StopsAt left q b' f planned' (inr s') hb))
  | inr (x, hx) ↦ round-StopsAt p b f (hx ∙ cc (rw hx at h))
]
  where
    go :
        {q : Planner} (o : Option Buffer)
        → Went q b o
        → go_on (fill left) b q o ≡ err f
        → ((b' : Buffer) → IsSized q b' → fill left q b' ≡ err f → StopsAt q f)
        → StopsAt q f
    go none went h1 rec = cc
    go (some b') (sized, e) h1 rec = rec b' sized h1

pub next_batch-StopsAt :
    (p : Planner) (f : Fault) → IsPlanned p → next_batch p ≡ err f → StopsAt p f
next_batch-StopsAt p f planned h =
    fill-StopsAt p.max_rows p empty_buffer f planned (inl (refl, refl))
      (next_batch_stops p planned h).0
