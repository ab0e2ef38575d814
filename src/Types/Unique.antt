-- ===== src/Types/Unique.antt =====
-- Column names that `_validate_column_names` accepts: no two of them are the same.
use snowflake_sql_api.Common.{
  Text, Bool, true, false, ◌||◌, List, [], ◌∷◌, ◌++◌, map, ok, ◌≡◌, refl, ap, inl, inr, arith,
  Bool-cases, text_eq,
}
use mathlib.Core.List.{cons-ne-nil}
use snowflake_sql_api.Errors.{Value, str}
use snowflake_sql_api.Bindings.{PyValue}
use snowflake_sql_api.Types.{ColumnMeta}
use snowflake_sql_api.Types.Columns.{
  same_name, counts, repeated, names_of, refuse, validate_column_names, Row, put,
}

text_eq_comm : (s t : Text) → text_eq s t ≡ text_eq t s
unfolding text_eq
text_eq_comm [] [] = refl
text_eq_comm [] (d ∷ t) = refl
text_eq_comm (c ∷ s) [] = refl
text_eq_comm (c ∷ s) (d ∷ t) = ground (arith, text_eq_comm s t)

pub same_name_comm : (a b : Value) → same_name a b ≡ same_name b a
same_name_comm (str s) (str t) = text_eq_comm s t
same_name_comm _ (str t) = refl
same_name_comm _ _ = refl

pub neither : (a b : Bool) → a || b ≡ false → (a ≡ false) × (b ≡ false)
neither true b h = cc
neither false b h = (refl, h)

-- The keys of a row.
abbrev pub keys_of : Row → List Value
keys_of row = map (λ e. e.0) row

-- A key that is new stands last.
pub put-new :
    (n : Value) (v : PyValue) (row : Row)
    → counts n (keys_of row) ≡ false
    → put n v row ≡ row ++ (n, v) ∷ []
unfolding put
put-new n v [] new = refl
put-new n v ((m, w) ∷ row) new =
    let (differs, later) = neither (same_name n m) (counts n (keys_of row)) new in
    rw (same_name_comm m n) (rw differs (ap (λ r. (m, w) ∷ r) (put-new n v row later)))

-- Distinct names.
abbrev pub IsUnique : List Value → Type 0
IsUnique [] = Unit
IsUnique (n ∷ ns) = (counts n ns ≡ false) × IsUnique ns

repeated-IsUnique : (ns : List Value) → repeated ns ≡ [] → IsUnique ns
unfolding repeated
repeated-IsUnique [] h = tt
repeated-IsUnique (n ∷ ns) h = elim (Bool-cases (counts n ns)) [
  | inl twice ↦ absurd (cons-ne-nil n (repeated ns) (rw twice at h))
  | inr once ↦ (once, repeated-IsUnique ns (rw once at h))
]

-- Names that pass the validation are distinct.
pub validate_column_names-IsUnique :
    (listed : List Value → Text) (context : Text) (columns : List ColumnMeta)
    → validate_column_names listed context columns ≡ ok tt
    → IsUnique (names_of columns)
unfolding validate_column_names
validate_column_names-IsUnique listed context columns h =
    repeated-IsUnique (names_of columns) (go (repeated (names_of columns)) h)
  where
    go : (ns : List Value) → refuse listed context ns ≡ ok tt → ns ≡ []
    go [] h = refl
    go (m ∷ ms) h = cc
