-- ===== src/Batches/Planner/Round.antt =====
-- One round of the loop of `next_batch` keeps what is measured.
use snowflake_sql_api.Common.{
  ℕ, suc, ◌+◌, true, false, Option, none, some, [], ◌++◌, Result, ok, err, >>=-eq-ok, ok-injective,
  ◌≡◌, refl, subst, inl, inr, arith, Bool-cases, then_branch, else_branch, ltb, length, ◌==◌,
}
use snowflake_sql_api.Errors.{Exc}
use snowflake_sql_api.Batches.Encode.{Bytes}
use snowflake_sql_api.Batches.Progress.{validation}
use snowflake_sql_api.Batches.Planner.{Entry, Planner, Fault, guarded}
use snowflake_sql_api.Batches.Planner.Step.{
  Buffer, body_with, ensure_in, ensure_context, decide, fragment, place_fragment, place,
  take_record, place_taken, round, with_comma,
}
use snowflake_sql_api.Batches.Planner.Frame.{
  SameSettings, SameSettings-refl, SameSettings-trans, SameContext, take_record-SameContext,
}
use snowflake_sql_api.Batches.Planner.Measured.{
  IsPlanned, IsEmpty, IsMeasured, Leaves, grown_first, grown_more, decide-Leaves,
  IsPlanned-SameContext, IsMeasured-SameContext,
}

place_first :
    (p : Planner) (b : Buffer) (r : Entry) (first : Bytes) {out : Planner × Option Buffer}
    → IsEmpty b
    → ltb p.max_bytes (p.single_overhead + length first) ≡ false
    → place_fragment p b r first ≡ ok out
    → decide p b r (p.single_overhead + length first) first ≡ out
unfolding place_fragment
place_first p b r first (none_yet, _) fits h =
    let now : (b.row_count == 0) ≡ true = ground arith in
    ok-injective {E = Exc} (then_branch _ _ _ now (else_branch _ _ _ fits h))

place_next :
    (p : Planner) (b : Buffer) (r : Entry) (first : Bytes) {n : ℕ} {out : Planner × Option Buffer}
    → b.row_count ≡ suc n
    → ltb p.max_bytes (p.single_overhead + length first) ≡ false
    → place_fragment p b r first ≡ ok out
    → (piece : Bytes) × (fragment r.encoded (length b.params) ≡ ok piece)
      × (decide p b r (b.size + 2 + length p.placeholder + 1 + length piece) piece ≡ out)
unfolding place_fragment
place_next p b r first later fits h =
    let then_more : (b.row_count == 0) ≡ false = ground arith in
    let (piece, hp, e) =
      >>=-eq-ok (fragment r.encoded (length b.params)) _
        (else_branch _ _ _ then_more (else_branch _ _ _ fits h)) in
    (piece, hp, ok-injective {E = Exc} e)

place_refused :
    (p : Planner) (b : Buffer) (r : Entry) (first : Bytes) {out : Planner × Option Buffer}
    → place_fragment p b r first ≡ ok out
    → ltb p.max_bytes (p.single_overhead + length first) ≡ false
unfolding place_fragment
place_refused p b r first h =
    elim (Bool-cases (ltb p.max_bytes (p.single_overhead + length first))) [
      | inl over ↦ cc (rw over at h)
      | inr fits ↦ fits
    ]

-- With the context at hand the record is kept, refused, or joins a buffer that stays measured.
place_fragment-Leaves :
    (p : Planner) (b : Buffer) (r : Entry) (first : Bytes) {out : Planner × Option Buffer}
    → IsPlanned p
    → (c : Bytes) → p.context ≡ some c
    → IsMeasured p b
    → place_fragment p b r first ≡ ok out
    → Leaves p b out
place_fragment-Leaves p b r first planned c hc (inl empty) h =
    let fits = place_refused p b r first h in
    subst (Leaves p b) (place_first p b r first empty fits h)
      (decide-Leaves p b r _ first planned (inl empty) (grown_first p b r first planned c hc empty))
place_fragment-Leaves p b r first planned c hc (inr sized) h =
    let fits = place_refused p b r first h in
    let (piece, hp, e) = place_next p b r first sized.row_count fits h in
    subst (Leaves p b) e
      (decide-Leaves p b r _ piece planned (inr sized) (grown_more p b r piece planned sized))

new-SameSettings :
    (p : Planner) (c : Bytes) (n : ℕ)
    → SameSettings p (record p { context = some c; single_overhead = n })
new-SameSettings p c n = record {
  prefix = refl;
  placeholder = refl;
  width = refl;
  max_rows = refl;
  max_bytes = refl;
  confirmed_rows = refl;
  completed = refl;
}

unset-IsMeasured :
    (p : Planner) {q : Planner} → p.context ≡ none → (b : Buffer) → IsMeasured p b → IsMeasured q b
unset-IsMeasured p e b (inl empty) = inl empty
unset-IsMeasured p e b (inr s) = cc (e, s.is_set)

-- Once the context is set, it is kept, and with it what was measured.
ensure-Leaves :
    (p : Planner) (o : Option Bytes) {q : Planner}
    → p.context ≡ o
    → IsPlanned p
    → ensure_in p o ≡ ok q
    → IsPlanned q
      × SameSettings p q
      × ((c : Bytes) × (q.context ≡ some c))
      × ((b : Buffer) → IsMeasured p b → IsMeasured q b)
ensure-Leaves p (some c) {q} e planned h =
    let same : p ≡ q = ok-injective {E = Exc} h in
    subst
      (λ q.
        IsPlanned q
        × SameSettings p q
        × ((c : Bytes) × (q.context ≡ some c))
        × ((b : Buffer) → IsMeasured p b → IsMeasured q b))
      same (planned, SameSettings-refl p, (c, e), λ b m. m)
ensure-Leaves p none {q} e planned h =
    let (c, hc, h1) = >>=-eq-ok p.build_context _ h in
    let (content, hb, h2) =
      >>=-eq-ok (body_with (with_comma c) (p.prefix ++ p.placeholder) []) _ h1 in
    subst
      (λ q.
        IsPlanned q
        × SameSettings p q
        × ((c : Bytes) × (q.context ≡ some c))
        × ((b : Buffer) → IsMeasured p b → IsMeasured q b))
      (ok-injective {E = Exc} h2)
      (
        record { plain = planned.plain; overhead = (content, hb, refl) },
        new-SameSettings p (with_comma c) (length content),
        (with_comma c, refl),
        unset-IsMeasured p e,
      )

place-Leaves :
    (p : Planner) (b : Buffer) (r : Entry) {out : Planner × Option Buffer}
    → IsPlanned p
    → IsMeasured p b
    → place p b r ≡ ok out
    → Leaves p b out
unfolding place
place-Leaves p b r {out} planned m h =
    let (q, hq, h1) = >>=-eq-ok (ensure_context p) _ h in
    let (first, hf, h2) = >>=-eq-ok (fragment r.encoded 0) _ h1 in
    let (planned', s, (c, hc), keep) = ensure-Leaves p p.context refl planned hq in
    let (planned'', s', went) = place_fragment-Leaves q b r first planned' c hc (keep b m) h2 in
    (planned'', SameSettings-trans s s', went)

pub guarded-eq-ok {ℓ} :
    {A : Type ℓ} (p : Planner) (m : Result Exc A) {a : A} → guarded p validation m ≡ ok a → m ≡ ok a
guarded-eq-ok p (ok a) h = cc
guarded-eq-ok p (err e) h = cc

pub round-Leaves :
    (p : Planner) (b : Buffer) {out : Planner × Option Buffer}
    → IsPlanned p
    → IsMeasured p b
    → round p b ≡ ok out
    → Leaves p b out
unfolding round
round-Leaves p b {out} planned m h =
    let ((q, o), ht, h1) = >>=-eq-ok (take_record p) _ h in
    let s = take_record-SameContext p ht in taken o q s h1
  where
    taken :
        (o : Option Entry) (q : Planner)
        → SameContext p q
        → place_taken b q o ≡ ok out
        → Leaves p b out
    taken none q s h1 =
        subst (Leaves p b) (ok-injective {E = Fault} h1)
          (IsPlanned-SameContext s planned, s.settings, IsMeasured-SameContext s m)
    taken (some r) q s h1 =
        let (planned', s', went) =
          place-Leaves q b r (IsPlanned-SameContext s planned) (IsMeasured-SameContext s m)
            (guarded-eq-ok q (place q b r) h1) in
        (planned', SameSettings-trans s.settings s', went)
