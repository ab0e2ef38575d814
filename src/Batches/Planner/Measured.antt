-- ===== src/Batches/Planner/Measured.antt =====
-- What a batch in the making has measured, and how a row adds to it.
use snowflake_sql_api.Common.{
  ℕ, suc, ◌+◌, ◌≤◌, Text, Option, none, some, List, [], ◌∷◌, ◌++◌, ok, ◌≡◌, ◌≢◌, refl, sym, ap,
  subst, ◌∙◌, ◌⊎◌, inl, inr, arith, Bool-cases, ltb, length, length-append, join, join-snoc,
  append-nil, All, All-append, ltb_false→le,
}
use mathlib.Core.List.{concat-ne-nil}
use snowflake_sql_api.Batches.Encode.{Bytes}
use snowflake_sql_api.Batches.Encode.Plain.{IsPlain}
use snowflake_sql_api.Batches.Planner.{Entry, Planner, comma_space}
use snowflake_sql_api.Batches.Planner.Step.{Buffer, grown, comma, body_with, decide, statement}
use snowflake_sql_api.Batches.Planner.Size.{body_with_grow, statement-suc, statement-one}
use snowflake_sql_api.Batches.Planner.Frame.{
  SameSettings, SameSettings-refl, SameContext, statement-SameSettings,
}

-- The measured overhead is the size of a body with one placeholder and no bindings.
abbrev pub Overhead : Text → Text → ℕ → Option Bytes → Type 0
Overhead prefix placeholder overhead none = Unit {0}
Overhead prefix placeholder overhead (some c) =
    (e : Bytes) × (body_with c (prefix ++ placeholder) [] ≡ ok e) × (length e ≡ overhead)

pub record IsPlanned (p : Planner) : Type 0 where
  pub plain : All IsPlain p.placeholder
  pub overhead : Overhead p.prefix p.placeholder p.single_overhead p.context

-- The buffer holds rows, and its size is that of their body, which fits.
pub record IsSized (p : Planner) (b : Buffer) : Type 0 where
  pub context : Bytes
  pub is_set : p.context ≡ some context
  pub rows : ℕ
  pub row_count : b.row_count ≡ suc rows
  pub fragments : b.fragments ≢ []
  pub content : Bytes
  pub built : body_with context (statement p (suc rows)) (join comma b.fragments) ≡ ok content
  pub size : length content ≡ b.size
  pub within : b.size ≤ p.max_bytes

abbrev pub IsEmpty : Buffer → Type 0
IsEmpty b = (b.row_count ≡ 0) × (b.fragments ≡ [])

abbrev pub IsMeasured : Planner → Buffer → Type 0
IsMeasured p b = IsEmpty b ⊎ IsSized p b

abbrev pub Went : Planner → Buffer → Option Buffer → Type 0
Went p b none = IsMeasured p b
Went p b (some b') = IsSized p b' × (b'.row_count ≡ b.row_count + 1)

join-only : (ps : List Bytes) (x : Bytes) → ps ≡ [] → join comma (ps ++ x ∷ []) ≡ x
unfolding join
join-only ps x e = ap (λ qs. join comma (qs ++ x ∷ [])) e

comma_space_plain : (s : Text) → All IsPlain s → All IsPlain (comma_space ++ s)
comma_space_plain s h = All-append IsPlain comma_space s (omega arith) h

pub grown_first :
    (p : Planner) (b : Buffer) (r : Entry) (first : Bytes)
    → IsPlanned p
    → (c : Bytes) → p.context ≡ some c
    → IsEmpty b
    → p.single_overhead + length first ≤ p.max_bytes
    → IsSized p (grown b r (p.single_overhead + length first) first)
grown_first p b r first planned c hc (none_yet, no_fragments) fits =
    let (e, he, le) =
      subst (Overhead p.prefix p.placeholder p.single_overhead) hc planned.overhead in
    let (content, hcontent, size) =
      body_with_grow c (p.prefix ++ p.placeholder) [] [] first tt he in
    record {
      context = c;
      is_set = hc;
      rows = 0;
      row_count = omega arith;
      fragments = concat-ne-nil first b.fragments;
      content = content;
      built =
          rw
            (
              join-only b.fragments first no_fragments,
              statement-one p,
              ← append-nil (p.prefix ++ p.placeholder),
            )
            hcontent;
      size = omega arith;
      within = fits;
    }

grown_length :
    (ps : List Bytes) (x : Bytes)
    → ps ≢ []
    → length (join comma (ps ++ x ∷ [])) ≡ length (join comma ps) + 1 + length x
grown_length ps x h =
    ap length (join-snoc comma ps x h) ∙ length-append (join comma ps) (comma ++ x) ∙ omega arith

pub grown_more :
    (p : Planner) (b : Buffer) (r : Entry) (piece : Bytes)
    → IsPlanned p
    → IsSized p b
    → b.size + 2 + length p.placeholder + 1 + length piece ≤ p.max_bytes
    → IsSized p (grown b r (b.size + 2 + length p.placeholder + 1 + length piece) piece)
grown_more p b r piece planned s fits =
    let (content, hcontent, size) =
      body_with_grow s.context (statement p (suc s.rows)) (comma_space ++ p.placeholder)
        (join comma b.fragments) (join comma (b.fragments ++ piece ∷ []))
        (comma_space_plain p.placeholder planned.plain) s.built in
    record {
      context = s.context;
      is_set = s.is_set;
      rows = suc s.rows;
      row_count = omega (arith, s.row_count);
      fragments = concat-ne-nil piece b.fragments;
      content = content;
      built = rw statement-suc hcontent;
      size = omega (
        arith,
        grown_length b.fragments piece s.fragments,
        length-append comma_space p.placeholder,
        s.size,
      );
      within = fits;
    }

pub IsPlanned-SameContext : {p q : Planner} → SameContext p q → IsPlanned p → IsPlanned q
IsPlanned-SameContext {p} {q} s h = record {
  plain = subst (All IsPlain) (sym s.settings.placeholder) h.plain;
  overhead =
      rw (s.settings.prefix, s.settings.placeholder, s.single_overhead, s.context) h.overhead;
}

pub IsSized-SameContext : {p q : Planner} {b : Buffer} → SameContext p q → IsSized p b → IsSized q b
IsSized-SameContext {p} {q} s h = record {
  context = h.context;
  is_set = s.context ∙ h.is_set;
  rows = h.rows;
  row_count = h.row_count;
  fragments = h.fragments;
  content = h.content;
  built = rw (statement-SameSettings (suc h.rows) s.settings) h.built;
  size = h.size;
  within = rw s.settings.max_bytes h.within;
}

pub IsMeasured-SameContext :
    {p q : Planner} {b : Buffer} → SameContext p q → IsMeasured p b → IsMeasured q b
IsMeasured-SameContext s (inl e) = inl e
IsMeasured-SameContext s (inr h) = inr (IsSized-SameContext s h)

kept-SameContext : (p : Planner) (o : Option Entry) → SameContext p (record p { pending = o })
kept-SameContext p o = record {
  settings = record {
    prefix = refl;
    placeholder = refl;
    width = refl;
    max_rows = refl;
    max_bytes = refl;
    confirmed_rows = refl;
    completed = refl;
  };
  context = refl;
  single_overhead = refl;
}

-- What a round leaves: the planner, still planned and with its settings, and the buffer.
abbrev pub Leaves : Planner → Buffer → Planner × Option Buffer → Type 0
Leaves p b (q, o) = IsPlanned q × SameSettings p q × Went q b o

pub decide-Leaves :
    (p : Planner) (b : Buffer) (r : Entry) (candidate : ℕ) (piece : Bytes)
    → IsPlanned p
    → IsMeasured p b
    → (candidate ≤ p.max_bytes → IsSized p (grown b r candidate piece))
    → Leaves p b (decide p b r candidate piece)
decide-Leaves p b r candidate piece planned m h = elim (Bool-cases (ltb p.max_bytes candidate)) [
  | inl over ↦ rw over (
      let s = kept-SameContext p (some r) in
      (IsPlanned-SameContext s planned, s.settings, IsMeasured-SameContext s m))
  | inr fits ↦ rw fits (planned, SameSettings-refl p, (h (ltb_false→le _ _ fits), refl))
]
