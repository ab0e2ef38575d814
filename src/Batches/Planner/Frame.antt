-- ===== src/Batches/Planner/Frame.antt =====
-- What the steps of `next_batch` leave as it was.
use snowflake_sql_api.Common.{ℕ, Option, List, [], ◌∷◌, ok, ◌≡◌, refl, ◌∙◌, arith}
use snowflake_sql_api.Batches.Planner.{Next, row, fails, Entry, Planner, pull, read_record}
use snowflake_sql_api.Batches.Planner.Step.{take_record, statement}

-- The parts of a planner that planning leaves alone; `confirm` changes the last two.
pub record SameSettings (p q : Planner) : Type 0 where
  pub prefix : q.prefix ≡ p.prefix
  pub placeholder : q.placeholder ≡ p.placeholder
  pub width : q.width ≡ p.width
  pub max_rows : q.max_rows ≡ p.max_rows
  pub max_bytes : q.max_bytes ≡ p.max_bytes
  pub confirmed_rows : q.confirmed_rows ≡ p.confirmed_rows
  pub completed : q.completed ≡ p.completed

-- Reading the source leaves the measured context alone too.
pub record SameContext (p q : Planner) : Type 0 where
  pub settings : SameSettings p q
  pub context : q.context ≡ p.context
  pub single_overhead : q.single_overhead ≡ p.single_overhead

pub SameSettings-refl : (p : Planner) → SameSettings p p
SameSettings-refl p = record {
  prefix = refl;
  placeholder = refl;
  width = refl;
  max_rows = refl;
  max_bytes = refl;
  confirmed_rows = refl;
  completed = refl;
}

pub SameSettings-trans : {p q r : Planner} → SameSettings p q → SameSettings q r → SameSettings p r
SameSettings-trans h k = record {
  prefix = k.prefix ∙ h.prefix;
  placeholder = k.placeholder ∙ h.placeholder;
  width = k.width ∙ h.width;
  max_rows = k.max_rows ∙ h.max_rows;
  max_bytes = k.max_bytes ∙ h.max_bytes;
  confirmed_rows = k.confirmed_rows ∙ h.confirmed_rows;
  completed = k.completed ∙ h.completed;
}

pub pull-SameContext :
    (p : Planner) (items : List Next) {q : Planner} {o : Option Entry}
    → pull p items ≡ ok (q, o)
    → SameContext p q
unfolding pull
pull-SameContext p [] h = ground arith
pull-SameContext p (fails e ∷ rest) h = cc
pull-SameContext p (row r ∷ rest) h = ground arith

pub take_record-SameContext :
    (p : Planner) {q : Planner} {o : Option Entry} → take_record p ≡ ok (q, o) → SameContext p q
unfolding take_record read_record
take_record-SameContext p h = ground (arith, pull-SameContext p p.source)

pub SameContext-refl : (p : Planner) → SameContext p p
SameContext-refl p = record {
  settings = SameSettings-refl p;
  context = refl;
  single_overhead = refl;
}

pub statement-SameSettings :
    {p q : Planner} (n : ℕ) → SameSettings p q → statement q n ≡ statement p n
unfolding statement
statement-SameSettings n h = cc (h.prefix, h.placeholder)
