-- ===== src/Pagination.antt =====
-- snowflake_sql_api/pagination.py: the partitions of a result, fetched in order.
pub mod Streaming
pub mod Agreement
pub mod Exhaustion
pub mod Tests
use snowflake_sql_api.Common.{
  ℕ, zero, suc, ◌+◌, ◌-◌, Text, codes, Option, none, some, List, [], ◌∷◌, ◌++◌, map, Result, ok,
  err, ◌>>=◌, length, >>=-eq-ok, ok-injective, ◌≡◌, refl, sym, ap, ◌∙◌, inl, inr, arith, append-nil,
  append_assoc,
}
use snowflake_sql_api.Errors.{
  Value, null, str, arr, obj, Items, nil, item, Fields, end, field, get, or_else, to_list, Exc,
  raised, plain, foreign,
}
use snowflake_sql_api.Transport.{StatementResponse}
use snowflake_sql_api.Transport.Send.{Environment, Sending}
use snowflake_sql_api.Transport.Calls.{get_statement}

abbrev pub type_error : Exc
type_error = raised (plain foreign (codes "TypeError"))

-- The keys of a dict, which is what `list` gives of it.
abbrev keys : Fields → List Value
keys end = []
keys (field k v fs) = str k ∷ keys fs

-- `list(v)`
unfoldable pub list_of : Value → Result Exc (List Value)
list_of (arr items) = ok (to_list items)
list_of (obj fs) = ok (keys fs)
list_of (str s) = ok (map (λ c. str (c ∷ [])) s)
list_of _ = err type_error

-- `partition_count`; metadata that is truthy and no object has no `get`.
abbrev pub count_in : Value → Result Exc ℕ
count_in (obj metadata) = do
  partitions ← list_of (or_else (get (codes "partitionInfo") metadata) (arr nil))
  ok (length partitions)
count_in _ = err (raised (plain foreign (codes "AttributeError")))

unfoldable pub partition_count : Fields → Result Exc ℕ
unfolding list_of
partition_count body = count_in (or_else (get (codes "resultSetMetaData") body) (obj end))

-- `_rows`
unfoldable pub body_rows : Fields → Result Exc (List Value)
unfolding list_of
body_rows body = list_of (or_else (get (codes "data") body) (arr nil))

module _ (env : Environment) (handle : Text) where
  abbrev pub Fetched : Type 0
  Fetched = Result Exc (List Value) × env.World

  abbrev pub extend :
      (env.World → List Value → Fetched)
      → List Value
      → env.World
      → Result Exc (List Value)
      → Fetched
  extend loop rows w (err e) = (err e, w)
  extend loop rows w (ok page) = loop w (rows ++ page)

  abbrev pub fetched :
      (env.World → List Value → Fetched)
      → List Value
      → Result Exc StatementResponse × Sending env
      → Fetched
  fetched loop rows (err e, s) = (err e, s.world)
  fetched loop rows (ok r, s) = extend loop rows s.world (body_rows r.body)

  -- The loop with `left` partitions to go, from `index` on.
  unfoldable pub fetch_rest : ℕ → ℕ → env.World → List Value → Fetched
  unfolding get_statement body_rows
  fetch_rest zero index w rows = (ok rows, w)
  fetch_rest (suc left) index w rows =
      fetched (fetch_rest left (suc index)) rows (get_statement env handle (some index) w)

  abbrev pub fetch_from : Result Exc (List Value × ℕ) → env.World → Fetched
  fetch_from (err e) w = (err e, w)
  fetch_from (ok (rows, count)) w = fetch_rest (count - 1) 1 w rows

  -- `fetch_all_partitions`
  unfoldable pub fetch_all_partitions : Fields → env.World → Fetched
  unfolding fetch_rest partition_count body_rows
  fetch_all_partitions first_body w =
      fetch_from
        (do rows ← body_rows first_body; count ← partition_count first_body; ok (rows, count)) w

  -- The rows of `left` partitions from `index` on, as the successive answers hold them.
  abbrev pub Pages : ℕ → ℕ → env.World → List Value → Type 0
  Pages zero index w rows = rows ≡ []
  Pages (suc left) index w rows =
      (r : StatementResponse) × (s : Sending env) × (page rest : List Value) × (get_statement env
          handle (some index) w
        ≡ (ok r, s))
      × (body_rows r.body ≡ ok page)
      × (rows ≡ page ++ rest)
      × Pages left (suc index) s.world rest

  pub fetch_rest-Pages :
      (left index : ℕ) (w : env.World) (rows : List Value) {out : List Value} {w' : env.World}
      → fetch_rest left index w rows ≡ (ok out, w')
      → (new : List Value) × (out ≡ rows ++ new) × Pages left index w new
  unfolding fetch_rest
  fetch_rest-Pages zero index w rows {out} h = ([], done ∙ sym (append-nil rows), refl)
    where
      done : out ≡ rows
      done = sym (ok-injective {E = Exc} (ap (λ p. p.0) h))
  fetch_rest-Pages (suc left) index w rows {out} {w'} h =
      go (get_statement env handle (some index) w) refl h
        (λ w1 rows1 h1. fetch_rest-Pages left (suc index) w1 rows1 h1)
    where
      Rec : Type 0
      Rec =
          (w1 : env.World) (rows1 : List Value)
          → fetch_rest left (suc index) w1 rows1 ≡ (ok out, w')
          → (new : List Value) × (out ≡ rows1 ++ new) × Pages left (suc index) w1 new

      go :
          (answer : Result Exc StatementResponse × Sending env)
          → get_statement env handle (some index) w ≡ answer
          → fetched (fetch_rest left (suc index)) rows answer ≡ (ok out, w')
          → Rec
          → (new : List Value) × (out ≡ rows ++ new) × Pages (suc left) index w new
      go (err e, s) asked h rec = cc (ap (λ p. p.0) h)
      go (ok r, s) asked h rec = page (body_rows r.body) refl h
        where
          page :
              (read : Result Exc (List Value))
              → body_rows r.body ≡ read
              → extend (fetch_rest left (suc index)) rows s.world read ≡ (ok out, w')
              → (new : List Value) × (out ≡ rows ++ new) × Pages (suc left) index w new
          page (err e) read h1 = cc (ap (λ p. p.0) h1)
          page (ok rows1) read h1 =
              let (new, eq, pages) = rec s.world (rows ++ rows1) h1 in
              (
                rows1 ++ new,
                eq ∙ append_assoc rows rows1 new,
                (r, s, rows1, new, asked, read, refl, pages),
              )

  -- When all partitions are fetched, the rows are those of the first body, followed by those of the
  -- answers for the partitions 1, 2, … in order, one for each further partition that is announced.
  pub fetch_all_partitions-Pages :
      (first_body : Fields) (w : env.World) {out : List Value} {w' : env.World}
      → fetch_all_partitions first_body w ≡ (ok out, w')
      → (rows new : List Value) × (count : ℕ) × (body_rows first_body ≡ ok rows)
        × (partition_count first_body ≡ ok count)
        × (out ≡ rows ++ new)
        × Pages (count - 1) 1 w new
  unfolding fetch_all_partitions
  fetch_all_partitions-Pages first_body w {out} {w'} h =
      go (body_rows first_body) (partition_count first_body) refl refl h
    where
      go :
          (a : Result Exc (List Value)) (b : Result Exc ℕ)
          → body_rows first_body ≡ a
          → partition_count first_body ≡ b
          → fetch_from (a >>= λ rows. b >>= λ count. ok (rows, count)) w ≡ (ok out, w')
          → (rows new : List Value) × (count : ℕ) × (body_rows first_body ≡ ok rows)
            × (partition_count first_body ≡ ok count)
            × (out ≡ rows ++ new)
            × Pages (count - 1) 1 w new
      go (err e) b ha hb h = cc (ap (λ p. p.0) h)
      go (ok rows) (err e) ha hb h = cc (ap (λ p. p.0) h)
      go (ok rows) (ok count) ha hb h =
          let (new, eq, pages) = fetch_rest-Pages (count - 1) 1 w rows h in
          (rows, new, count, ha, hb, eq, pages)
