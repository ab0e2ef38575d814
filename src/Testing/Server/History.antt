-- ===== src/Testing/Server/History.antt =====
-- The states of `FakeSnowflake` over a sequence of requests.
use snowflake_sql_api.Common.{
  ◌+◌, ◌≤◌, Text, Option, none, some, List, [], ◌∷◌, ◌≡◌, ◌≢◌, refl, sym, ap, subst, ◌∙◌, inl, inr,
  arith, All, Bool-cases, text_eq, text_eq_sound, text_eq_refl,
}
use mathlib.Core.Option.{some-injective}
use snowflake_sql_api.Common.Dict.{
  find, insert, find-insert, find-insert_other, All-find, All-insert,
}
use snowflake_sql_api.Transport.Send.{Request}
use snowflake_sql_api.Testing.State.{State, FakeSnowflake, handle_name}
use snowflake_sql_api.Testing.Server.{Codec, handle, polled}
use snowflake_sql_api.Testing.Server.Handles.{
  IsGiven, IsValid, IsGiven-later, next-new, Change, untouched, begun, looked, handle-Change,
}

module _ (codec : Codec) where
  -- The fake behind a sequence of requests.
  abbrev pub serve : List Request → FakeSnowflake → FakeSnowflake
  serve [] f = f
  serve (r ∷ rs) f = serve rs (handle codec r f).1

Change-IsValid : (f g : FakeSnowflake) → Change f g → IsValid f → IsValid g
Change-IsValid f g (untouched same le) valid =
    subst (λ states. All (λ e. IsGiven g.counter e.0) states) (sym same)
      (IsGiven-later f.states le valid)
Change-IsValid f g (begun reg counted added) valid =
    subst (λ states. All (λ e. IsGiven g.counter e.0) states) (sym added)
      (All-insert (λ e. IsGiven g.counter e.0) (handle_name (f.counter + 1)) _ f.states
        (f.counter + 1, refl, omega (arith, counted))
        (IsGiven-later f.states (omega (arith, counted)) valid))
Change-IsValid f g (looked name state left found polls counted changed) valid =
    subst (λ states. All (λ e. IsGiven g.counter e.0) states) (sym changed)
      (subst
        (λ n.
          All (λ e. IsGiven n e.0) (insert name (record state { remaining_polls = left }) f.states))
        (sym counted)
        (All-insert (λ e. IsGiven f.counter e.0) name _ f.states
          (All-find (λ e. IsGiven f.counter e.0) name f.states valid found) valid))

-- A later state of a statement: the same result, and no more polls to go.
abbrev pub Later : State → Option State → Type 0
Later state known =
    (after : State) × (known ≡ some after)
    × (after.reg ≡ state.reg)
    × (after.remaining_polls ≤ state.remaining_polls)

Change-Later :
    (f g : FakeSnowflake) (name : Text) (state : State)
    → Change f g
    → IsValid f
    → find name f.states ≡ some state
    → Later state (find name g.states)
Change-Later f g name state (untouched same le) valid found =
    (state, ap (find name) same ∙ found, refl, omega arith)
Change-Later f g name state (begun reg counted added) valid found =
    let other : handle_name (f.counter + 1) ≢ name = (λ e.
      let clash : some state ≡ none =
        sym found ∙ ap (λ n. find n f.states) (sym e) ∙ next-new f valid in
      cc) in
    (
      state,
      ap (find name) added
          ∙ find-insert_other (handle_name (f.counter + 1)) name _ f.states other
          ∙ found,
      refl,
      omega arith,
    )
Change-Later f g name state (looked polled before left known polls counted changed) valid found =
    elim (Bool-cases (text_eq polled name)) [
      | inl hit ↦
          let same : polled ≡ name = text_eq_sound polled name hit in
          let one : before ≡ state =
            some-injective before state (sym known ∙ ap (λ n. find n f.states) same ∙ found) in
          (
            record before { remaining_polls = left },
            ap (find name) changed
                ∙ ap (λ n. find name (insert n (record before { remaining_polls = left }) f.states))
                    same
                ∙ find-insert name (record before { remaining_polls = left }) f.states,
            ap (λ t. t.reg) one,
            omega (arith, polls, ap (λ t. t.remaining_polls) one),
          )
      | inr miss ↦
          let other : polled ≢ name =
            (λ e. let clash = sym miss ∙ ap (λ n. text_eq n name) e ∙ text_eq_refl name in cc) in
          (
            state,
            ap (find name) changed ∙ find-insert_other polled name _ f.states other ∙ found,
            refl,
            omega arith,
          )
    ]

module _ (codec : Codec) where
  -- Whatever is asked of the fake: a statement keeps its result, and its polls to go never grow.
  pub serve-Later :
      (rs : List Request) (f : FakeSnowflake) (name : Text) (state : State)
      → IsValid f
      → find name f.states ≡ some state
      → IsValid (serve codec rs f) × Later state (find name (serve codec rs f).states)
  serve-Later [] f name state valid found = (valid, (state, found, refl, omega arith))
  serve-Later (r ∷ rs) f name state valid found =
      let g = (handle codec r f).1 in
      let change = (handle-Change codec r f).0 in
      let (next, known, same, fewer) = Change-Later f g name state change valid found in
      let (good, (last, there, kept, less)) =
        serve-Later rs g name next (Change-IsValid f g change valid) known in
      (good, (last, there, kept ∙ same, omega (arith, fewer, less)))
