-- ===== src/Client/Affected.antt =====
-- `_affected_count` and `_rows_affected` of client.py.
use snowflake_sql_api.Common.{
  Text, codes, Bool, true, false, not, ◌&&◌, Option, none, some, List, [], ◌∷◌, Result, ok, err,
  ◌>>=◌, ◌≡◌, refl, arith, Result-cases, Bool-cases, then_branch, else_branch, subst, ok-injective,
  >>=-eq-ok, inl, inr, if◌then◌else◌,
}
use snowflake_sql_api.Common.Int.{ℤ, pos, negsuc, ◌+ℤ◌}
use snowflake_sql_api.Errors.{
  Value, null, bool, int, float, str, arr, obj, Fields, field, item, truthy, get, has_key, Exc,
  raised, plain, foreign,
}

abbrev pub value_error : Text → Exc
value_error m = raised (plain foreign m)

abbrev pub is_negative : ℤ → Bool
is_negative (pos n) = false
is_negative (negsuc n) = true

-- `int(value)`: texts go through `parse`, which is `int` on a text and refuses what is no number.
-- A refusal says whether it is a ValueError or TypeError, which `_rows_affected` may catch.
pub data Refusal : Type 0 where
  caught : Exc → Refusal
  uncaught : Exc → Refusal

module _ (parse : Text → Option ℤ) where
  unfoldable pub int_of : Value → Result Refusal ℤ
  int_of null = err (caught (value_error (codes "TypeError")))
  int_of (bool b) = ok (pos (if b then 1 else 0))
  int_of (int n) = ok n
  int_of (float z (some n)) = ok n
  int_of (float z none) = err (uncaught (value_error (codes "OverflowError")))
  int_of (str s) = elim (parse s) [
    | none ↦ err (caught (value_error (codes "ValueError")))
    | some n ↦ ok n
  ]
  int_of (arr vs) = err (caught (value_error (codes "TypeError")))
  int_of (obj fs) = err (caught (value_error (codes "TypeError")))

  abbrev is_count : Value → Bool
  is_count (int n) = true
  is_count (str s) = true
  is_count _ = false

  unfoldable pub affected_count : Value → Bool → Result Refusal ℤ
  unfolding int_of
  affected_count value strict =
      if strict && not (is_count value)
      then err (caught (value_error (codes "rows-affected count must be an integer")))
      else int_of value >>= λ count.
          if strict && is_negative count
          then err (caught (value_error (codes "rows-affected count must be nonnegative")))
          else ok count

  abbrev exception : Refusal → Exc
  exception (caught e) = e
  exception (uncaught e) = e

  abbrev raise_in {ℓ} : {A : Type ℓ} → Result Refusal A → Result Exc A
  raise_in (ok a) = ok a
  raise_in (err r) = err (exception r)

  -- The keys of `stats`, with the total so far and whether one was found.
  unfoldable pub sum_stats : List Text → Fields → Bool → ℤ → Bool → Result Exc (ℤ × Bool)
  unfolding affected_count
  sum_stats [] stats strict total found = ok (total, found)
  sum_stats (k ∷ ks) stats strict total found =
      if has_key k stats
      then (raise_in (affected_count (get k stats) strict) >>= λ n.
          sum_stats ks stats strict (total +ℤ n) true)
      else sum_stats ks stats strict total found

  abbrev pub stat_keys : List Text
  stat_keys = codes "numRowsInserted" ∷ codes "numRowsUpdated" ∷ codes "numRowsDeleted" ∷ []

  -- `data[0]` of data that is not indexed by numbers raises outside the `try` block.
  abbrev key_error : Refusal
  key_error = uncaught (value_error (codes "KeyError"))

  -- `data[0][0]`, inside the `try` block, where `data[0]` is true; none where it is not.
  abbrev pub cell_of : Value → Result Refusal (Option Value)
  cell_of (arr (item v vs)) = ok (some v)
  cell_of (str (c ∷ s)) = ok (some (str (c ∷ [])))
  cell_of (obj (field k v fs)) = err key_error
  cell_of row = if truthy row then err (caught (value_error (codes "TypeError"))) else ok none

  -- `data[0][0]` where `data and data[0]` holds, none where it does not.
  abbrev pub first_cell : Value → Result Refusal (Option Value)
  first_cell (arr (item row rows)) = cell_of row
  first_cell (str (c ∷ s)) = ok (some (str (c ∷ [])))
  first_cell (obj (field k v fs)) = err key_error
  first_cell other =
      if truthy other then err (uncaught (value_error (codes "TypeError"))) else ok none

  abbrev no_count : Bool → Result Exc ℤ
  no_count strict =
      if strict then err (value_error (codes "response has no rows-affected count")) else ok (pos 0)

  abbrev or_fail : Bool → Result Refusal ℤ → Result Exc ℤ
  or_fail strict (ok n) = ok n
  or_fail strict (err (uncaught e)) = err e
  or_fail strict (err (caught e)) = if strict then err e else no_count strict

  unfoldable pub from_data : Result Refusal (Option Value) → Bool → Result Exc ℤ
  unfolding affected_count
  from_data (err r) strict = or_fail strict (err r)
  from_data (ok none) strict = no_count strict
  from_data (ok (some v)) strict = or_fail strict (affected_count v strict)

  unfoldable pub from_stats : Value → Fields → Bool → Result Exc ℤ
  unfolding sum_stats from_data
  from_stats (obj stats) body strict = sum_stats stat_keys stats strict (pos 0) false >>= λ t.
      if t.1 then ok t.0 else from_data (first_cell (get (codes "data") body)) strict
  from_stats _ body strict = from_data (first_cell (get (codes "data") body)) strict

  -- `_rows_affected`
  unfoldable pub rows_affected : Fields → Bool → Result Exc ℤ
  unfolding from_stats
  rows_affected body strict = from_stats (get (codes "stats") body) body strict

module _ (parse : Text → Option ℤ) where
  affected_count_strict :
      (v : Value) {n : ℤ} → affected_count parse v true ≡ ok n → is_negative n ≡ false
  unfolding affected_count
  affected_count_strict v h = elim (Result-cases (int_of parse v)) [
    | inl (n, hn) ↦ ground (arith, hn)
    | inr (e, he) ↦ ground (arith, he)
  ]

  add_nonneg :
      (a b : ℤ) → is_negative a ≡ false → is_negative b ≡ false → is_negative (a +ℤ b) ≡ false
  unfolding ◌+ℤ◌
  add_nonneg (pos a) (pos b) h k = ground arith
  add_nonneg (pos a) (negsuc b) h k = cc
  add_nonneg (negsuc a) b h k = cc

  raise_in-ok : (r : Result Refusal ℤ) {n : ℤ} → raise_in parse r ≡ ok n → r ≡ ok n
  raise_in-ok (ok a) h = cc
  raise_in-ok (err e) h = cc

  sum_stats_strict :
      (ks : List Text) (stats : Fields) (total : ℤ) (found : Bool) {t : ℤ × Bool}
      → is_negative total ≡ false
      → sum_stats parse ks stats true total found ≡ ok t
      → is_negative t.0 ≡ false
  unfolding sum_stats
  sum_stats_strict [] stats total found z h = ground arith
  sum_stats_strict (k ∷ ks) stats total found z h = elim (Bool-cases (has_key k stats)) [
    | inl here ↦
        let (n, hn, h1) =
          >>=-eq-ok (raise_in parse (affected_count parse (get k stats) true)) _
            (then_branch _ _ _ here h) in
        sum_stats_strict ks stats (total +ℤ n) true
          (add_nonneg total n z (affected_count_strict (get k stats) (raise_in-ok _ hn))) h1
    | inr gone ↦ sum_stats_strict ks stats total found z (else_branch _ _ _ gone h)
  ]

  from_data_strict :
      (o : Result Refusal (Option Value)) {n : ℤ}
      → from_data parse o true ≡ ok n
      → is_negative n ≡ false
  unfolding from_data
  from_data_strict (err (caught e)) h = cc
  from_data_strict (err (uncaught e)) h = cc
  from_data_strict (ok none) h = cc
  from_data_strict (ok (some v)) h = elim (Result-cases (affected_count parse v true)) [
    | inl (n, hn) ↦ ground (arith, affected_count_strict v hn, hn)
    | inr (caught e, he) ↦ cc (rw he at h)
    | inr (uncaught e, he) ↦ cc (rw he at h)
  ]

  from_stats_strict :
      (v : Value) (body : Fields) {n : ℤ}
      → from_stats parse v body true ≡ ok n
      → is_negative n ≡ false
  unfolding from_stats
  from_stats_strict (obj stats) body {n} h =
      let (t, ht, h1) =
        >>=-eq-ok (sum_stats parse (stat_keys parse) stats true (pos 0) false) _ h in
      elim (Bool-cases t.1) [
        | inl found ↦
            subst (λ m. is_negative m ≡ false) (ok-injective {E = Exc} (then_branch _ _ _ found h1))
              (sum_stats_strict (stat_keys parse) stats (pos 0) false refl ht)
        | inr missing ↦
            from_data_strict (first_cell parse (get (codes "data") body))
              (else_branch _ _ _ missing h1)
      ]
  from_stats_strict _ body h = from_data_strict (first_cell parse (get (codes "data") body)) h

  -- The count that a batch insert accepts is never negative.
  pub rows_affected_strict :
      (body : Fields) {n : ℤ} → rows_affected parse body true ≡ ok n → is_negative n ≡ false
  unfolding rows_affected
  rows_affected_strict body h = from_stats_strict (get (codes "stats") body) body h
