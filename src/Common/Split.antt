-- ===== src/Common/Split.antt =====
-- `str.split(sep)` and `sep.join(parts)` for a separator of one character and of any length.
use Prim.Native.Nat.{ℕ}
use mathlib.Core.Path.{◌≡◌, refl}
use mathlib.Core.Logic.{◌≢◌}
use mathlib.Core.List.{List, [], ◌∷◌, ◌++◌, append_assoc, cons-ne-nil}
use native.Mathlib.Omega.{arith}
use snowflake_sql_api.Common.Tests.{◌==◌, if◌then◌else◌}
use snowflake_sql_api.Common.Texts.{Text}

-- A character in front of the first part.
abbrev pub grow : ℕ → List Text → List Text
grow c [] = (c ∷ []) ∷ []
grow c (p ∷ ps) = (c ∷ p) ∷ ps

unfoldable pub split : ℕ → Text → List Text
split sep [] = [] ∷ []
split sep (c ∷ s) = let rest = split sep s in if c == sep then [] ∷ rest else grow c rest

unfoldable pub join : Text → List Text → Text
join sep [] = []
join sep (p ∷ []) = p
join sep (p ∷ q ∷ ps) = p ++ (sep ++ join sep (q ∷ ps))

pub split-ne-nil : (sep : ℕ) (s : Text) → split sep s ≢ []
unfolding split
split-ne-nil sep [] = cc
split-ne-nil sep (c ∷ s) = ground (arith, split-ne-nil sep s)

join-grow : (sep : Text) (c : ℕ) (ps : List Text) → ps ≢ [] → join sep (grow c ps) ≡ c ∷ join sep ps
unfolding join
join-grow sep c [] h = absurd (h refl)
join-grow sep c (p ∷ []) h = refl
join-grow sep c (p ∷ q ∷ ps) h = refl

join-cons_nil : (sep : Text) (ps : List Text) → ps ≢ [] → join sep ([] ∷ ps) ≡ sep ++ join sep ps
unfolding join
join-cons_nil sep [] h = absurd (h refl)
join-cons_nil sep (p ∷ ps) h = refl

-- Joining the parts of a split gives the text back.
pub join-split : (sep : ℕ) (s : Text) → join (sep ∷ []) (split sep s) ≡ s
unfolding split
join-split sep [] = unfold join in refl
join-split sep (c ∷ s) = ground (
  arith,
  join-split sep s,
  split-ne-nil sep s,
  join-grow (sep ∷ []) c (split sep s),
  join-cons_nil (sep ∷ []) (split sep s),
)

-- The clause of `join` for two parts and more.
pub join-cons :
    (sep p q : Text) (ps : List Text) → join sep (p ∷ q ∷ ps) ≡ p ++ (sep ++ join sep (q ∷ ps))
unfolding join
join-cons sep p q ps = refl

-- One more part at the end.
pub join-snoc :
    (sep : Text) (ps : List Text) (x : Text)
    → ps ≢ []
    → join sep (ps ++ x ∷ []) ≡ join sep ps ++ (sep ++ x)
join-snoc sep [] x h = absurd (h refl)
join-snoc sep (p ∷ []) x h = unfold join in refl
join-snoc sep (p ∷ q ∷ ps) x h =
    rw (join-cons, join-cons, join-snoc sep (q ∷ ps) x (cons-ne-nil q ps))
      (joined p sep (join sep (q ∷ ps)) x)
  where
    joined : (a s m x : Text) → a ++ (s ++ (m ++ (s ++ x))) ≡ a ++ (s ++ m) ++ (s ++ x)
    joined a s m x = simp append_assoc
