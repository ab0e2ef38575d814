-- ===== src/Testing/Split.antt =====
-- The partitions that `_split` of testing.py makes.
use snowflake_sql_api.Common.{
  ℕ, zero, suc, ◌+◌, ◌-◌, ◌*◌, ◌/◌, ◌%◌, ◌<◌, ◌≤◌, List, [], ◌∷◌, ◌++◌, length, take, drop,
  replicate, ok, ◌≡◌, refl, ap, ◌∙◌, arith, append-nil, length-append, length-replicate,
  length-drop, take-append-drop, concat, concat-append, concat-replicate, ◌==◌, Bool-cases, inl,
  inr, ==_iff,
}
use native.Mathlib.Nat.{mod-add-div', mod-lt, mul-suc}
use snowflake_sql_api.Testing.Registry.{slices, chunk_size, split_rows}

quotient_pos : (q r d k : ℕ) → r + q * d ≡ k → r < d → d ≤ k → 1 ≤ q
quotient_pos zero r d k whole part le = omega arith
quotient_pos (suc q) r d k whole part le = omega arith

chunk_size-large : (n d : ℕ) → 1 ≤ d → (1 ≤ chunk_size n d) × (n ≤ chunk_size n d * d)
chunk_size-large n zero le = omega arith
chunk_size-large n (suc d) le = elim (Bool-cases (n == 0)) [
  | inl none_left ↦ rw none_left (omega arith, omega (arith, (==_iff n 0).0 none_left))
  | inr some_left ↦
      let k = n + suc d - 1 in
      let whole = mod-add-div' k (suc d) in
      let part = mod-lt k {m = suc d} (omega arith) in
      let one =
        quotient_pos (k / suc d) (k % suc d) (suc d) k whole part (ground (arith, some_left)) in
      rw some_left (one, omega (arith, whole, part))
]

module _ {ℓ} {A : Type ℓ} where
  concat-slices :
      (fuel size : ℕ) (xs : List A)
      → 1 ≤ size
      → length xs ≤ fuel
      → concat (slices fuel size xs) ≡ xs
  unfolding slices
  concat-slices zero size [] pos le = refl
  concat-slices zero size (x ∷ xs) pos le = let none_left : ⊥ = omega arith in absurd none_left
  concat-slices (suc fuel) size [] pos le = refl
  concat-slices (suc fuel) size (x ∷ xs) pos le =
      ap (λ t. take size (x ∷ xs) ++ t)
        (concat-slices fuel size (drop size (x ∷ xs)) pos
          (omega (arith, length-drop size (x ∷ xs))))
      ∙ take-append-drop size (x ∷ xs)

  length-slices :
      (fuel size p : ℕ) (xs : List A) → length xs ≤ size * p → length (slices fuel size xs) ≤ p
  unfolding slices
  length-slices zero size p xs le = omega arith
  length-slices (suc fuel) size p [] le = omega arith
  length-slices (suc fuel) size zero (x ∷ xs) le = omega arith
  length-slices (suc fuel) size (suc p) (x ∷ xs) le =
      let rest : length (slices fuel size (drop size (x ∷ xs))) ≤ p =
        length-slices fuel size p (drop size (x ∷ xs))
          (omega (arith, length-drop size (x ∷ xs), mul-suc size p)) in
      omega (arith, rest)

  -- With at least one partition, `_split` makes just that many, which hold the rows in order.
  pub split_rows-concat :
      (rows : List A) (partitions : ℕ)
      → 1 ≤ partitions
      → (chunks : List (List A)) × (split_rows rows partitions ≡ ok chunks)
        × (concat chunks ≡ rows)
        × (length chunks ≡ partitions)
  unfolding split_rows
  split_rows-concat rows zero le = let none_left : ⊥ = omega arith in absurd none_left
  split_rows-concat rows (suc zero) le = (rows ∷ [], refl, append-nil rows, refl)
  split_rows-concat rows (suc (suc p)) le =
      let d = suc (suc p) in
      let size = chunk_size (length rows) d in
      let chunks = slices (length rows) size rows in
      let large = chunk_size-large (length rows) d (omega arith) in
      let few : length chunks ≤ d = length-slices (length rows) size d rows large.1 in
      (
        chunks ++ replicate (d - length chunks) [],
        refl,
        concat-append chunks (replicate (d - length chunks) [])
            ∙ ap (λ t. concat chunks ++ t) (concat-replicate {A = A} (d - length chunks))
            ∙ append-nil (concat chunks)
            ∙ concat-slices (length rows) size rows large.0 (omega arith),
        omega (
          arith,
          few,
          length-append chunks (replicate (d - length chunks) []),
          length-replicate {A = List A} (d - length chunks) [],
        ),
      )
