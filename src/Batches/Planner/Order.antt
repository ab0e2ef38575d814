-- ===== src/Batches/Planner/Order.antt =====
-- Batches take the rows of the source in order, each once.
use snowflake_sql_api.Common.{
  ℕ, ◌+◌, ◌<◌, Text, true, false, Option, none, some, List, [], ◌∷◌, ◌++◌, ok, >>=-eq-ok,
  ok-injective, Result-cases, ◌≡◌, refl, sym, ap, ◌∙◌, inl, inr, arith, Option-cases, Bool-cases,
  then_branch, length, ◌==◌, ==_iff, traverse,
}
use snowflake_sql_api.Errors.{Exc}
use snowflake_sql_api.Bindings.{BindingValue, to_bindings}
use snowflake_sql_api.Batches.Encode.{Bytes, encode_binding}
use snowflake_sql_api.Batches.Planner.{
  Next, row, fails, PyRow, positional, not_positional, Entry, Planner, check_row, pull, read_record,
}
use snowflake_sql_api.Batches.Planner.Step.{
  Buffer, fragment, ensure_in, ensure_context, place_fragment, place, take_record,
}

-- What the planner still has to give out: the row that it kept, and the rest of the source.
abbrev pub ahead_of : Option Entry → List Next → List Next
ahead_of none items = items
ahead_of (some r) items = row (positional r.values) ∷ items

abbrev pub ahead : Planner → List Next
ahead p = ahead_of p.pending p.source

-- Only a source that is used up is marked so.
abbrev pub IsDrained : Planner → Type 0
IsDrained p = p.exhausted ≡ true → p.source ≡ []

-- A record that passes the checks holds the values of its row, one for each column.
pub check_row_values :
    (width : ℕ) (r : PyRow) {e : Entry}
    → check_row width r ≡ ok e
    → (r ≡ positional e.values) × (length e.values ≡ width)
unfolding check_row
check_row_values width not_positional h = cc
check_row_values width (positional vs) {e} h = elim (Bool-cases (length vs == width)) [
  | inl fits ↦
      let (bs, hb, h1) = >>=-eq-ok (to_bindings vs) _ (then_branch _ _ _ fits h) in
      let (es, he, h2) =
        >>=-eq-ok (traverse (λ (b : Text × BindingValue). encode_binding b.1) bs) _ h1 in
      let same = ok-injective {E = Exc} h2 in
      (
        ap (λ (x : Entry). positional x.values) same,
        ap (λ (x : Entry). length x.values) (sym same) ∙ (==_iff _ _).0 fits,
      )
  | inr off ↦ cc (rw off at h)
]

-- Reading a record takes the first row ahead.
abbrev pub Took : Planner → Planner → Entry → Type 0
Took p q r =
    (ahead p ≡ row (positional r.values) ∷ ahead q)
    × (length r.values ≡ p.width)
    × (q.pending ≡ none)
    × IsDrained q
    × (q.width ≡ p.width)

-- There is none to read.
abbrev pub Spent : Planner → Planner → Type 0
Spent p q = (ahead p ≡ []) × (ahead q ≡ []) × IsDrained q × (q.width ≡ p.width)

pull-Took :
    (p : Planner) (items : List Next) {q : Planner} {r : Entry}
    → p.pending ≡ none
    → p.source ≡ items
    → p.exhausted ≡ false
    → pull p items ≡ ok (q, some r)
    → Took p q r
unfolding pull
pull-Took p [] e s x h = cc
pull-Took p (fails x ∷ rest) e s n h = cc
pull-Took p (row r ∷ rest) e s n h = elim (Result-cases (check_row p.width r)) [
  | inl (entry, hc) ↦ ground (arith, check_row_values p.width r hc)
  | inr (x, hx) ↦ cc (rw hx at h)
]

pull-Spent :
    (p : Planner) (items : List Next) {q : Planner}
    → p.pending ≡ none
    → p.source ≡ items
    → pull p items ≡ ok (q, none)
    → Spent p q
unfolding pull
pull-Spent p [] e s h = ground arith
pull-Spent p (fails x ∷ rest) e s h = cc
pull-Spent p (row r ∷ rest) e s h = ground arith

pub take_record-Took :
    (p : Planner) {q : Planner} {r : Entry}
    → IsDrained p
    → ((r : Entry) → p.pending ≡ some r → length r.values ≡ p.width)
    → take_record p ≡ ok (q, some r)
    → Took p q r
unfolding take_record read_record
take_record-Took p d w h = elim (Option-cases p.pending) [
  | inl e ↦ ground (arith, pull-Took p p.source e refl)
  | inr (r, e) ↦ ground (arith, w r e)
]

pub take_record-Spent :
    (p : Planner) {q : Planner} → IsDrained p → take_record p ≡ ok (q, none) → Spent p q
unfolding take_record read_record
take_record-Spent p d h = elim (Option-cases p.pending) [
  | inl e ↦ ground (arith, pull-Spent p p.source e refl)
  | inr (r, e) ↦ ground arith
]

-- A row that does not fit is the next one of the planner that is left.
abbrev pub PutBack : Planner → Planner → Entry → Type 0
PutBack p q r =
    (q.pending ≡ some r) × (q.source ≡ p.source) × (q.exhausted ≡ p.exhausted) × (q.width ≡ p.width)

-- A row that fits is the last one of the buffer.
abbrev pub Joined : Planner → Planner → Buffer → Entry → Buffer → Type 0
Joined p q b r b' =
    (q.pending ≡ p.pending)
    × (q.source ≡ p.source)
    × (q.exhausted ≡ p.exhausted)
    × (q.width ≡ p.width)
    × (b'.params ≡ b.params ++ r.values)
    × (b'.row_count ≡ b.row_count + 1)

place_fragment-PutBack :
    (p : Planner) (b : Buffer) (r : Entry) (first : Bytes) {q : Planner}
    → place_fragment p b r first ≡ ok (q, none)
    → PutBack p q r × (0 < b.row_count)
unfolding place_fragment
place_fragment-PutBack p b r first h = ground arith

place_fragment-Joined :
    (p : Planner) (b : Buffer) (r : Entry) (first : Bytes) {q : Planner} {b' : Buffer}
    → place_fragment p b r first ≡ ok (q, some b')
    → Joined p q b r b'
unfolding place_fragment
place_fragment-Joined p b r first h = ground arith

-- Setting the context leaves the rows alone.
ensure-rows :
    (p : Planner) (o : Option Bytes) {q : Planner}
    → ensure_in p o ≡ ok q
    → (q.pending ≡ p.pending)
      × (q.source ≡ p.source)
      × (q.exhausted ≡ p.exhausted)
      × (q.width ≡ p.width)
ensure-rows p (some c) h = ground arith
ensure-rows p none h = ground arith

pub place-PutBack :
    (p : Planner) (b : Buffer) (r : Entry) {q : Planner}
    → place p b r ≡ ok (q, none)
    → PutBack p q r × (0 < b.row_count)
unfolding place
place-PutBack p b r h =
    let (p', hp, h1) = >>=-eq-ok (ensure_context p) _ h in
    let (first, hf, h2) = >>=-eq-ok (fragment r.encoded 0) _ h1 in
    ground (arith, ensure-rows p p.context hp, place_fragment-PutBack p' b r first h2)

pub place-Joined :
    (p : Planner) (b : Buffer) (r : Entry) {q : Planner} {b' : Buffer}
    → place p b r ≡ ok (q, some b')
    → Joined p q b r b'
unfolding place
place-Joined p b r h =
    let (p', hp, h1) = >>=-eq-ok (ensure_context p) _ h in
    let (first, hf, h2) = >>=-eq-ok (fragment r.encoded 0) _ h1 in
    ground (arith, ensure-rows p p.context hp, place_fragment-Joined p' b r first h2)
