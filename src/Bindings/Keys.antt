-- ===== src/Bindings/Keys.antt =====
-- The keys of `to_bindings` are the positions from 1, each bound to its own parameter.
use snowflake_sql_api.Common.{
  ℕ, zero, suc, ◌+◌, Text, false, Option, none, some, List, [], ◌∷◌, ◌≡◌, ◌≢◌, arith, ok, length,
  get_elem?, >>=-eq-ok, text_eq, text_eq_refl, text_eq_sound, if◌then◌else◌, Bool-cases, inl, inr,
}
use snowflake_sql_api.Common.Decimal.{decimal, decimal-injective}
use snowflake_sql_api.Bindings.{PyValue, BindingValue, bind_one, bind_from, to_bindings}

-- The entry of a `bindings` map under a key.
unfoldable pub find_binding : Text → List (Text × BindingValue) → Option BindingValue
find_binding k [] = none
find_binding k ((j, b) ∷ es) = if text_eq j k then some b else find_binding k es

text_eq-decimal_ne : (i j : ℕ) → i ≢ j → text_eq (decimal i) (decimal j) ≡ false
text_eq-decimal_ne i j h = elim (Bool-cases (text_eq (decimal i) (decimal j))) [
  | inl same ↦ absurd (h (decimal-injective i j (text_eq_sound _ _ same)))
  | inr other ↦ other
]

bind_from-cons :
    (i : ℕ) (v : PyValue) (vs : List PyValue) {es : List (Text × BindingValue)}
    → bind_from i (v ∷ vs) ≡ ok es
    → (b : BindingValue) × (rest : List (Text × BindingValue)) × (bind_one v ≡ ok b)
      × (bind_from (i + 1) vs ≡ ok rest)
      × (es ≡ (decimal i, b) ∷ rest)
unfolding bind_from
bind_from-cons i v vs h =
    let (b, hb, h1) = >>=-eq-ok (bind_one v) _ h in
    let (rest, hr, h2) = >>=-eq-ok (bind_from (i + 1) vs) _ h1 in (b, rest, hb, hr, cc)

find_binding_self :
    (i : ℕ) (b : BindingValue) (es : List (Text × BindingValue))
    → find_binding (decimal i) ((decimal i, b) ∷ es) ≡ some b
unfolding find_binding
find_binding_self i b es = rw (text_eq_refl (decimal i))

find_binding-ne :
    (i j : ℕ) (b : BindingValue) (es : List (Text × BindingValue))
    → i ≢ j
    → find_binding (decimal j) ((decimal i, b) ∷ es) ≡ find_binding (decimal j) es
unfolding find_binding
find_binding-ne i j b es h = rw (text_eq-decimal_ne i j h)

find_binding-bind_from :
    (i : ℕ) (vs : List PyValue) (k : ℕ) {es : List (Text × BindingValue)} {v : PyValue}
    → bind_from i vs ≡ ok es
    → get_elem? vs k ≡ some v
    → (b : BindingValue) × (bind_one v ≡ ok b) × (find_binding (decimal (i + k)) es ≡ some b)
find_binding-bind_from i [] k h g = cc
find_binding-bind_from i (w ∷ vs) zero h g =
    let (b, rest, hb, hr, e) = bind_from-cons i w vs h in
    (b, cc, ground (arith, find_binding_self i b rest))
find_binding-bind_from i (w ∷ vs) (suc k) h g =
    let (b, rest, hb, hr, e) = bind_from-cons i w vs h in
    let (b', hb', found) = find_binding-bind_from (i + 1) vs k hr g in
    (b', hb', ground (arith, find_binding-ne i (i + 1 + k) b rest))

-- When the parameters can be bound, the map has at key `str(k + 1)` the binding of the k-th
-- parameter: no position is lost to another one that is spelled alike.
pub find_binding-to_bindings :
    (vs : List PyValue) (k : ℕ) {es : List (Text × BindingValue)} {v : PyValue}
    → to_bindings vs ≡ ok es
    → get_elem? vs k ≡ some v
    → (b : BindingValue) × (bind_one v ≡ ok b) × (find_binding (decimal (1 + k)) es ≡ some b)
unfolding to_bindings
find_binding-to_bindings vs k h g = find_binding-bind_from 1 vs k h g

length-bind_from :
    (i : ℕ) (vs : List PyValue) {es : List (Text × BindingValue)}
    → bind_from i vs ≡ ok es
    → length es ≡ length vs
unfolding bind_from
length-bind_from i [] h = ground arith
length-bind_from i (v ∷ vs) h =
    let (b, rest, hb, hr, e) = bind_from-cons i v vs h in
    rw e (omega (arith, length-bind_from (i + 1) vs hr))

-- There are as many bindings as parameters.
pub length-to_bindings :
    (vs : List PyValue) {es : List (Text × BindingValue)}
    → to_bindings vs ≡ ok es
    → length es ≡ length vs
unfolding to_bindings
length-to_bindings vs h = length-bind_from 1 vs h
