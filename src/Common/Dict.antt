-- ===== src/Common/Dict.antt =====
-- A dict with texts for its keys: an association list, the new key last.
use mathlib.Core.Path.{◌≡◌, refl, sym, ap, ap₂, subst, ◌∙◌}
use mathlib.Core.Logic.{◌≢◌, inl, inr}
use mathlib.Core.Bool.{false}
use mathlib.Core.Option.{Option, none, some, some-injective}
use mathlib.Core.List.{List, [], ◌∷◌}
use snowflake_sql_api.Common.Tests.{if◌then◌else◌, Bool-cases}
use snowflake_sql_api.Common.Lists.{All}
use snowflake_sql_api.Common.Texts.{Text, text_eq, text_eq_sound, text_eq_refl}

text_eq-false : (j k : Text) → j ≢ k → text_eq j k ≡ false
text_eq-false j k ne = elim (Bool-cases (text_eq j k)) [
  | inl same ↦ absurd (ne (text_eq_sound j k same))
  | inr other ↦ other
]

module _ {ℓ} {A : Type ℓ} where
  -- `d.get(key)`
  unfoldable pub find : Text → List (Text × A) → Option A
  find k [] = none
  find k ((j, v) ∷ d) = if text_eq j k then some v else find k d

  -- `d[key] = value`
  unfoldable pub insert : Text → A → List (Text × A) → List (Text × A)
  insert k v [] = (k, v) ∷ []
  insert k v ((j, w) ∷ d) = if text_eq j k then (j, v) ∷ d else (j, w) ∷ insert k v d

  pub find-insert : (k : Text) (v : A) (d : List (Text × A)) → find k (insert k v d) ≡ some v
  unfolding find insert
  find-insert k v [] = rw (text_eq_refl k) refl
  find-insert k v ((j, w) ∷ d) = elim (Bool-cases (text_eq j k)) [
    | inl same ↦ rw same (rw same refl)
    | inr other ↦ rw other (rw other (find-insert k v d))
  ]

  pub find-insert_other :
      (k j : Text) (v : A) (d : List (Text × A)) → k ≢ j → find j (insert k v d) ≡ find j d
  unfolding find insert
  find-insert_other k j v [] ne = rw (text_eq-false k j ne) refl
  find-insert_other k j v ((i, w) ∷ d) ne = elim (Bool-cases (text_eq i k)) [
    | inl same ↦ rw (text_eq_sound i k same) (rw (text_eq_refl k) (rw (text_eq-false k j ne) refl))
    | inr other ↦ rw other (elim (Bool-cases (text_eq i j)) [
      | inl found ↦ rw found refl
      | inr next ↦ rw next (find-insert_other k j v d ne)
    ])
  ]

module _ {ℓ κ} {A : Type ℓ} (P : Text × A → Type κ) where
  -- What holds of all entries holds of the one that is found, and of them when one is inserted.
  pub All-find : (k : Text) (d : List (Text × A)) {v : A} → All P d → find k d ≡ some v → P (k, v)
  unfolding find
  All-find k [] h found = cc
  All-find k ((j, w) ∷ d) {v} (p, h) found = elim (Bool-cases (text_eq j k)) [
    | inl same ↦
        let hit : w ≡ v =
          some-injective w v (sym (ap (λ b. if b then some w else find k d) same) ∙ found) in
        subst (λ e. P e) (ap₂ (λ a b. (a, b)) (text_eq_sound j k same) hit) p
    | inr other ↦ All-find k d h (sym (ap (λ b. if b then some w else find k d) other) ∙ found)
  ]

  pub All-insert :
      (k : Text) (v : A) (d : List (Text × A)) → P (k, v) → All P d → All P (insert k v d)
  unfolding insert
  All-insert k v [] new h = (new, tt)
  All-insert k v ((j, w) ∷ d) new (p, h) = elim (Bool-cases (text_eq j k)) [
    | inl same ↦ rw same (subst (λ i. P (i, v)) (sym (text_eq_sound j k same)) new, h)
    | inr other ↦ rw other (p, All-insert k v d new h)
  ]
