-- ===== src/Testing/Server/Handles.antt =====
-- The statement handles of `FakeSnowflake`, and what a request does to the states behind them.
use snowflake_sql_api.Common.{
  ℕ, zero, suc, ◌+◌, ◌≤◌, Text, codes, ◌&&◌, ◌||◌, Option, none, some, List, [], ◌∷◌, ◌++◌, Result,
  ok, err, ◌≡◌, refl, ap, inl, inr, arith, All, drop, Bool-cases, Result-cases, Option-cases,
  text_eq, ltb,
}
use snowflake_sql_api.Common.Decimal.{decimal-injective}
use snowflake_sql_api.Common.Dict.{find, insert, All-find}
use snowflake_sql_api.Errors.{Value, Exc}
use snowflake_sql_api.Transport.Send.{Request}
use snowflake_sql_api.Transport.Calls.{statements_path}
use snowflake_sql_api.Testing.Registry.{ErrorSpec, Registration}
use snowflake_sql_api.Testing.Paths.{starts_with, ends_with, last_segment}
use snowflake_sql_api.Testing.State.{State, FakeSnowflake, handle_name, next_handle, lookup}
use snowflake_sql_api.Testing.Server.Served.{logged}
use snowflake_sql_api.Testing.Server.{
  Codec, handle, routed, on_submit, on_get, known_get, answer_get, polled, submit_known,
  answer_submit, statement_of, is_post, is_get, is_async, param_of,
}

-- A handle that was given out: a number up to the counter.
abbrev pub IsGiven : ℕ → Text → Type 0
IsGiven counter name = (n : ℕ) × (name ≡ handle_name n) × (n ≤ counter)

-- Every state belongs to a handle that was given out.
abbrev pub IsValid : FakeSnowflake → Type 0
IsValid f = All (λ e. IsGiven f.counter e.0) f.states

pub IsGiven-later :
    {m n : ℕ} (states : List (Text × State))
    → m ≤ n
    → All (λ e. IsGiven m e.0) states
    → All (λ e. IsGiven n e.0) states
IsGiven-later [] le h = tt
IsGiven-later (e ∷ states) le ((k, name, small), h) =
    ((k, name, omega arith), IsGiven-later states le h)

handle_name-injective : (m n : ℕ) → handle_name m ≡ handle_name n → m ≡ n
handle_name-injective m n h = decimal-injective m n (ap (drop 5) h)

-- The handle that comes next has no state yet.
pub next-new : (f : FakeSnowflake) → IsValid f → find (handle_name (f.counter + 1)) f.states ≡ none
next-new f valid = elim (Option-cases (find (handle_name (f.counter + 1)) f.states)) [
  | inl new ↦ new
  | inr (state, found) ↦
      let (n, same, small) =
        All-find (λ e. IsGiven f.counter e.0) (handle_name (f.counter + 1)) f.states valid found in
      let e = handle_name-injective (f.counter + 1) n same in
      let wrong : ⊥ = omega arith in absurd wrong
]

-- What one request may do to the states: nothing, a new handle with a state, or one poll less to
-- go for a known handle.
pub data Change (f g : FakeSnowflake) : Type 0 where
  untouched : g.states ≡ f.states → f.counter ≤ g.counter → Change f g
  begun :
      (reg : Registration)
      → g.counter ≡ f.counter + 1
      → g.states
        ≡ insert
            (handle_name (f.counter + 1))
            (record { reg = reg; remaining_polls = reg.polls_before_ready })
            f.states
      → Change f g
  looked :
      (name : Text) (state : State) (left : ℕ)
      → find name f.states ≡ some state
      → state.remaining_polls ≡ suc left
      → g.counter ≡ f.counter
      → g.states ≡ insert name (record state { remaining_polls = left }) f.states
      → Change f g

-- The log and the registrations are as they were.
abbrev pub Same : FakeSnowflake → FakeSnowflake → Type 0
Same f g = (g.requests ≡ f.requests) × (g.exact ≡ f.exact) × (g.predicates ≡ f.predicates)

abbrev Moves : FakeSnowflake → FakeSnowflake → Type 0
Moves f g = Change f g × Same f g

abbrev still : (f : FakeSnowflake) → Moves f f
still f = (untouched refl (omega arith), (refl, refl, refl))

-- The change of the state behind the log's entry is one of the state.
from_logged : {f g : FakeSnowflake} (r : Request) → Change (logged r f) g → Change f g
from_logged r (untouched same le) = untouched same le
from_logged r (begun reg counted added) = begun reg counted added
from_logged r (looked name state left found polls counted changed) =
    looked name state left found polls counted changed

module _ (codec : Codec) where
  submit_known-Moves :
      (r : Request) (reg : Registration) (error : Option ErrorSpec) (f : FakeSnowflake)
      → Moves f (submit_known codec r reg error (next_handle f)).1
  unfolding next_handle
  submit_known-Moves r reg (some error) f = (untouched refl (omega arith), (refl, refl, refl))
  submit_known-Moves r reg none f =
      elim (Bool-cases (is_async codec r || ltb 0 reg.polls_before_ready)) [
        | inl later ↦ rw later (begun reg refl refl, (refl, refl, refl))
        | inr now ↦ rw now (begun reg refl refl, (refl, refl, refl))
      ]

  answer_submit-Moves :
      (r : Request) (f : FakeSnowflake) (sql : Value) (found : Result Exc (Option Registration))
      → Moves f (answer_submit codec r f sql found).1
  answer_submit-Moves r f sql (err e) = still f
  answer_submit-Moves r f sql (ok none) = still f
  answer_submit-Moves r f sql (ok (some reg)) = submit_known-Moves r reg reg.error f

  on_submit-Moves : (r : Request) (f : FakeSnowflake) → Moves f (on_submit codec r f).1
  unfolding on_submit
  on_submit-Moves r f = elim (Result-cases (statement_of codec r.payload)) [
    | inr (e, h) ↦ rw h (still f)
    | inl (sql, h) ↦ rw h (answer_submit-Moves r f sql (lookup sql f))
  ]

  polled-Moves :
      (name : Text) (state : State) (n : ℕ) (f : FakeSnowflake)
      → find name f.states ≡ some state
      → state.remaining_polls ≡ n
      → Moves f (polled codec name state f n).1
  polled-Moves name state zero f found left = still f
  polled-Moves name state (suc n) f found left =
      (looked name state n found left refl refl, (refl, refl, refl))

  answer_get-Moves :
      (name : Text) (state : State) (f : FakeSnowflake) (partition : Option Text)
      → find name f.states ≡ some state
      → Moves f (answer_get codec name f state partition).1
  answer_get-Moves name state f (some partition) found = still f
  answer_get-Moves name state f none found =
      polled-Moves name state state.remaining_polls f found refl

  known_get-Moves :
      (r : Request) (name : Text) (f : FakeSnowflake) (known : Option State)
      → find name f.states ≡ known
      → Moves f (known_get codec r name f known).1
  known_get-Moves r name f none found = still f
  known_get-Moves r name f (some state) found =
      answer_get-Moves name state f (param_of (codes "partition") r.params) found

  on_get-Moves : (r : Request) (f : FakeSnowflake) → Moves f (on_get codec r f).1
  unfolding on_get
  on_get-Moves r f =
      known_get-Moves r (last_segment [] r.path) f (find (last_segment [] r.path) f.states) refl

  routed-Moves : (r : Request) (f : FakeSnowflake) → Moves f (routed codec r f).1
  unfolding routed
  routed-Moves r f = elim (Bool-cases (is_post codec r && text_eq r.path statements_path)) [
    | inl submits ↦ rw submits (on_submit-Moves r f)
    | inr other ↦
        rw other (elim (Bool-cases (is_post codec r && ends_with (codes "/cancel") r.path)) [
          | inl cancels ↦ rw cancels (still f)
          | inr neither ↦
              rw neither
                (elim (Bool-cases
                  (is_get codec r && starts_with (statements_path ++ codes "/") r.path)) [
                    | inl gets ↦ rw gets (on_get-Moves r f)
                    | inr unknown ↦ rw unknown (still f)
                  ])
        ])
  ]

  -- A request is added to the log and leaves the registrations. Of the states it changes nothing,
  -- or adds the one of a new handle, which has the next number, or counts one poll of a known
  -- handle down that has polls left; the counter never goes back.
  pub handle-Change :
      (r : Request) (f : FakeSnowflake)
      → let g = (handle codec r f).1 in
        Change f g
        × (g.requests ≡ f.requests ++ r ∷ [])
        × (g.exact ≡ f.exact)
        × (g.predicates ≡ f.predicates)
  unfolding handle
  handle-Change r f =
      let (change, same) = routed-Moves r (logged r f) in
      (from_logged r change, same.0, same.1, same.2)
