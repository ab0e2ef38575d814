-- ===== src/Common/Results.antt =====
-- Fallible code: a value, or the exception that was raised.
use mathlib.Core.Path.{◌≡◌, refl}
use mathlib.Core.Logic.{◌⊎◌, inl, inr}
use mathlib.Core.List.{List, [], ◌∷◌}

pub data Result {ℓ κ} (E : Type ℓ) (A : Type κ) : Type (ℓ ⊔ κ) where
  ok : A → Result E A
  err : E → Result E A

infixl 5 ◌>>=◌
abbrev pub ◌>>=◌ {ℓ κ μ} :
    {E : Type ℓ} {A : Type κ} {B : Type μ} → Result E A → (A → Result E B) → Result E B
err raised >>= next = err raised
ok value >>= next = next value

pub Result-cases {ℓ κ} :
    {E : Type ℓ} {A : Type κ} (r : Result E A) → ((a : A) × (r ≡ ok a)) ⊎ ((e : E) × (r ≡ err e))
Result-cases (ok a) = inl (a, refl)
Result-cases (err e) = inr (e, refl)

pub ok-injective {ℓ κ} :
    {E : Type ℓ} {A : Type κ} {a b : A} → ◌≡◌ {A = Result E A} (ok a) (ok b) → a ≡ b
ok-injective h = cc

-- Where a chain gives a value, its first step gave one, and the rest goes on from that.
pub >>=-eq-ok {ℓ κ μ} :
    {E : Type ℓ} {A : Type κ} {B : Type μ} (first : Result E A) (next : A → Result E B) {out : B}
    → ◌≡◌ {A = Result E B} (first >>= next) (ok out)
    → (mid : A) × (first ≡ ok mid) × (next mid ≡ ok out)
>>=-eq-ok (err e) next gives = cc
>>=-eq-ok (ok mid) next gives = (mid, refl, gives)

-- `[f(x) for x in xs]` with an `f` that may raise: the first exception ends it.
module _ {ℓ κ μ} {E : Type ℓ} {A : Type κ} {B : Type μ} (f : A → Result E B) where
  unfoldable pub traverse : List A → Result E (List B)
  traverse [] = ok []
  traverse (x ∷ xs) = do y ← f x; ys ← traverse xs; ok (y ∷ ys)

  -- A successful comprehension has the results of the elements, in order.
  pub traverse-cons :
      (x : A) (xs : List A) {out : List B}
      → traverse (x ∷ xs) ≡ ok out
      → (y : B) × (ys : List B) × (f x ≡ ok y) × (traverse xs ≡ ok ys) × (out ≡ y ∷ ys)
  unfolding traverse
  traverse-cons x xs h =
      let (y, hy, h1) = >>=-eq-ok (f x) _ h in
      let (ys, hys, h2) = >>=-eq-ok (traverse xs) _ h1 in (y, ys, hy, hys, cc)
