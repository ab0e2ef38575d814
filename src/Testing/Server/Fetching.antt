-- ===== src/Testing/Server/Fetching.antt =====
-- `fetch_all_partitions` of pagination.py over `FakeSnowflake`.
use snowflake_sql_api.Common.{
  ℕ, zero, suc, ◌-◌, Text, codes, Option, some, List, [], ◌∷◌, ◌++◌, ◌>>=◌, length, replicate,
  get_elem?, concat, Result, ok, ok-injective, ◌≡◌, refl, sym, ap, subst, ◌∙◌, inl, arith, Lacks,
  text_eq, append-nil, append_assoc, length-append, length-replicate,
}
use snowflake_sql_api.Common.Parsing.{parse_int-decimal}
use snowflake_sql_api.Common.Dict.{find}
use snowflake_sql_api.Errors.{Value, arr, or_else, nil, Fields, end, field, get_or, to_list, Exc}
use snowflake_sql_api.Transport.Send.{Environment, get_param}
use snowflake_sql_api.Pagination.{
  list_of, body_rows, partition_count, fetch_rest, fetch_all_partitions,
}
use snowflake_sql_api.Testing.Bodies.{row_count, to_items, array, ok_body}
use snowflake_sql_api.Testing.State.{State, FakeSnowflake}
use snowflake_sql_api.Testing.Server.{Codec, respond, handle, result_body, or_missing}
use snowflake_sql_api.Testing.Server.Served.{
  IsServed, asks, logged, handle-asks, get_statement-served,
}

pub to_list-to_items : (vs : List Value) → to_list (to_items vs) ≡ vs
unfolding to_list to_items
to_list-to_items [] = refl
to_list-to_items (v ∷ vs) = ap (λ ws. v ∷ ws) (to_list-to_items vs)

pub list_of-array : (vs : List Value) → list_of (or_else (array vs) (arr nil)) ≡ ok vs
unfolding list_of to_items to_list
list_of-array [] = refl
list_of-array (v ∷ vs) = ap (λ ws. ok (v ∷ ws)) (to_list-to_items vs)

-- The rows of a page are read back.
pub body_rows-page :
    (rows : List Value) → body_rows (field (codes "data") (array rows) end) ≡ ok rows
unfolding body_rows get_or text_eq
body_rows-page rows = list_of-array rows

pub get_elem?-append :
    {A : Type 0} (pre : List A) (x : A) (xs : List A)
    → get_elem? (pre ++ x ∷ xs) (length pre) ≡ some x
get_elem?-append [] x xs = refl
get_elem?-append (y ∷ pre) x xs = get_elem?-append pre x xs

-- A partition that exists is answered with its rows, and the states stay.
handle-partition :
    (codec : Codec) (name : Text) (index : ℕ) (f : FakeSnowflake) (state : State)
    (rows : List Value)
    → Lacks 47 name
    → find name f.states ≡ some state
    → get_elem? state.reg.chunks index ≡ some rows
    → handle codec (asks name (some index)) f ≡ (
      respond codec 200 (field (codes "data") (array rows) end),
      logged (asks name (some index)) f,
    )
unfolding get_param text_eq
handle-partition codec name index f state rows plain_name found there =
    handle-asks codec name (some index) f plain_name
    ∙ rw found (rw (parse_int-decimal index) (rw there refl))

-- The body of a result announces its partitions and holds the rows of the first.
body_rows-ok_body :
    (row_type rows : List Value) (partitions : ℕ) (name : Text) (stats : Option Fields)
    {body : Fields}
    → ok_body row_type rows partitions name stats ≡ ok body
    → body_rows body ≡ ok rows
unfolding ok_body body_rows get_or text_eq
body_rows-ok_body row_type rows zero name stats h = cc
body_rows-ok_body row_type rows (suc more) name stats h =
    ap body_rows (sym (ok-injective h)) ∙ list_of-array rows

partition_count-ok_body :
    (row_type rows : List Value) (partitions : ℕ) (name : Text) (stats : Option Fields)
    {body : Fields}
    → ok_body row_type rows partitions name stats ≡ ok body
    → partition_count body ≡ ok partitions
unfolding ok_body partition_count get_or text_eq to_items
partition_count-ok_body row_type rows zero name stats h = cc
partition_count-ok_body row_type rows (suc more) name stats h =
    ap partition_count (sym (ok-injective h))
    ∙ ap ok (
        ap length (to_list-to_items (row_count (length rows) ∷ replicate more (row_count 0)))
        ∙ ap suc (length-replicate more (row_count 0)))

module _ (codec : Codec) (env : Environment) (fake : env.World → FakeSnowflake)
    (served : IsServed codec env fake) (name : Text) (plain_name : Lacks 47 name)
    (state : State) where
  abbrev Fetches : Result Exc (List Value) × env.World → List Value → List (Text × State) → Type 0
  Fetches answer rows states =
      (w' : env.World) × (answer ≡ (ok rows, w')) × ((fake w').states ≡ states)

  fetch_rest-served :
      (pre more : List (List Value)) (w : env.World) (rows : List Value)
      → find name (fake w).states ≡ some state
      → state.reg.chunks ≡ pre ++ more
      → Fetches
          (fetch_rest env name (length more) (length pre) w rows)
          (rows ++ concat more)
          (fake w).states
  unfolding fetch_rest
  fetch_rest-served pre [] w rows found split =
      (w, ap (λ r. (ok r, w)) (sym (append-nil rows)), refl)
  fetch_rest-served pre (c ∷ more) w rows found split =
      let there : get_elem? state.reg.chunks (length pre) ≡ some c =
        ap (λ cs. get_elem? cs (length pre)) split ∙ get_elem?-append pre c more in
      let (s, gives, _, moved) =
        get_statement-served codec env fake served name (some (length pre)) w 200
          (field (codes "data") (array c) end) (inl refl)
          (handle-partition codec name (length pre) (fake w) state c plain_name found there) in
      let next : suc (length pre) ≡ length (pre ++ c ∷ []) =
        omega (arith, length-append pre (c ∷ [])) in
      let (w', out, kept) =
        fetch_rest-served (pre ++ c ∷ []) more s.world (rows ++ c)
          (ap (λ f. find name f.states) moved ∙ found)
          (split ∙ sym (append_assoc pre (c ∷ []) more)) in
      (
        w',
        rw gives (
            rw (body_rows-page c) (
              ap (λ i. fetch_rest env name (length more) i s.world (rows ++ c)) next
              ∙ out
              ∙ ap (λ r. (ok r, w')) (append_assoc rows c (concat more)))),
        kept ∙ ap (λ f. f.states) moved,
      )

  -- Once a result of the fake is in hand, fetching all partitions gives all rows that the fake
  -- holds for the statement, in order, and leaves the states of the statements as they are.
  pub fetch_all_partitions-served :
      (w : env.World) (body : Fields)
      → find name (fake w).states ≡ some state
      → result_body codec name (fake w) ≡ ok body
      → Fetches (fetch_all_partitions env name body w) (concat state.reg.chunks) (fake w).states
  unfolding fetch_all_partitions result_body
  fetch_all_partitions-served w body found given =
      go state.reg.chunks refl (sym (rw found refl) ∙ given)
    where
      go :
          (chunks : List (List Value))
          → state.reg.chunks ≡ chunks
          → (or_missing codec (codes "IndexError") (get_elem? chunks 0) >>= λ first.
              ok_body state.reg.row_type first (length chunks) name state.reg.stats)
            ≡ ok body
          → Fetches (fetch_all_partitions env name body w) (concat chunks) (fake w).states
      go [] same given = cc
      go (c ∷ cs) same given =
          rw (body_rows-ok_body state.reg.row_type c (suc (length cs)) name state.reg.stats given) (
            rw
              (partition_count-ok_body state.reg.row_type c (suc (length cs)) name state.reg.stats
                given)
              (let less : length cs ≡ suc (length cs) - 1 = omega arith in
                subst (λ n. Fetches (fetch_rest env name n 1 w c) (c ++ concat cs) (fake w).states)
                  less (fetch_rest-served (c ∷ []) cs w c found same)))
