-- ===== src/Client/Chunks.antt =====
-- `query_batches` of client.py, over the rows that its stream yields and with a valid size.
use snowflake_sql_api.Common.{
  ℕ, ◌≤◌, ◌<◌, List, [], ◌∷◌, ◌++◌, length, length-append, append_assoc, All, concat, if◌then◌else◌,
  ◌==◌, Bool-cases, ◌≡◌, refl, ap, ◌∙◌, inl, inr, arith, ==_iff,
}

module _ {ℓ} {A : Type ℓ} where
  abbrev last_batch : List A → List (List A)
  last_batch [] = []
  last_batch (r ∷ rs) = (r ∷ rs) ∷ []

  -- The loop with the rows of the current batch.
  unfoldable pub gather : ℕ → List A → List A → List (List A)
  gather n batch [] = last_batch batch
  gather n batch (r ∷ rows) =
      let flushed = gather n [] rows in
      let waiting = gather n (batch ++ r ∷ []) rows in
      if length (batch ++ r ∷ []) == n then (batch ++ r ∷ []) ∷ flushed else waiting

  unfoldable pub query_batches : ℕ → List A → List (List A)
  unfolding gather
  query_batches n rows = gather n [] rows

  -- The batches hold the rows in order, each of them at least one and at most `n`.
  abbrev pub IsSplit : ℕ → List A → List (List A) → Type ℓ
  IsSplit n rows bs = (concat bs ≡ rows) × All (λ b. (1 ≤ length b) × (length b ≤ n)) bs

  last_batch-IsSplit :
      (n : ℕ) (batch : List A) → length batch < n → IsSplit n (batch ++ []) (last_batch batch)
  last_batch-IsSplit n [] h = (refl, tt)
  last_batch-IsSplit n (r ∷ rs) h = (refl, ((omega arith, omega (arith, h)), tt))

  gather-IsSplit :
      (n : ℕ) (batch rows : List A)
      → length batch < n
      → IsSplit n (batch ++ rows) (gather n batch rows)
  unfolding gather
  gather-IsSplit n batch [] h = last_batch-IsSplit n batch h
  gather-IsSplit n batch (r ∷ rows) h = elim (Bool-cases (length (batch ++ r ∷ []) == n)) [
    | inl full ↦
        let size = (==_iff (length (batch ++ r ∷ [])) n).0 full in
        let (same, sizes) = gather-IsSplit n [] rows (omega (arith, h)) in
        rw full (
          ap (λ xs. (batch ++ r ∷ []) ++ xs) same ∙ append_assoc batch (r ∷ []) rows,
          ((omega (arith, size, h), omega (arith, size)), sizes),
        )
    | inr short ↦
        let size = length-append batch (r ∷ []) in
        let (same, sizes) =
          gather-IsSplit n (batch ++ r ∷ []) rows (ground (arith, h, short, size)) in
        rw short (same ∙ append_assoc batch (r ∷ []) rows, sizes)
  ]

  -- With a positive size the batches of a query hold its rows in order, none lost and none twice,
  -- and each batch has at least one row and at most that many.
  pub query_batches-IsSplit :
      (n : ℕ) (rows : List A) → 0 < n → IsSplit n rows (query_batches n rows)
  unfolding query_batches
  query_batches-IsSplit n rows h = gather-IsSplit n [] rows h
