-- ===== src/Client/Insert.antt =====
-- `_insert_statement` of _client_base.py, the statement of `insert_many`, and that the statements
-- of the batch planner are the same.
use snowflake_sql_api.Common.{
  ℕ, ◌*◌, Text, codes, Option, none, some, List, [], ◌∷◌, ◌++◌, Result, ok, err, ◌>>=◌, traverse,
  if◌then◌else◌, ◌==◌, length, replicate, join, Bool-cases, then_branch, else_branch, >>=-eq-ok,
  ok-injective, ltb, ◌≡◌, sym, ap, ◌∙◌, subst, inl, inr, arith, length-append, ==_iff, append_assoc,
}
use snowflake_sql_api.Common.Decimal.{decimal}
use snowflake_sql_api.Errors.{Exc, config_error}
use snowflake_sql_api.Escaping.{quote_identifier, quote_name}
use snowflake_sql_api.Bindings.{PyValue}
use snowflake_sql_api.Batches.Encode.{Bytes}
use snowflake_sql_api.Batches.Planner.{
  Next, Planner, placeholder_of, positive_limit, make_planner, comma_space,
}
use snowflake_sql_api.Batches.Planner.Step.{statement}

-- `flat.extend(row)` for each row, of the width given
unfoldable pub flatten : ℕ → List (List PyValue) → Result Exc (List PyValue)
flatten width [] = ok []
flatten width (v ∷ vs) =
    if length v == width
    then (flatten width vs >>= λ rest. ok (v ++ rest))
    else err (
        config_error (
          codes "each row must have "
          ++ (decimal width ++ (codes " values, got " ++ decimal (length v)))))

abbrev insert_text : Text → List Text → Text → ℕ → Text
insert_text name cols placeholder n =
    codes "INSERT INTO "
    ++ (name
        ++ (codes " ("
            ++ (join comma_space cols
                ++ (codes ") VALUES " ++ join comma_space (replicate n placeholder)))))

-- `_insert_statement`
unfoldable pub insert_statement :
    Text → List Text → List (List PyValue) → Result Exc (Option (Text × List PyValue))
unfolding flatten
insert_statement table [] rows =
    err (config_error (codes "insert_many requires at least one column"))
insert_statement table (c ∷ cs) [] = ok none
insert_statement table (c ∷ cs) (v ∷ vs) = do
  flat ← flatten (length (c ∷ cs)) (v ∷ vs)
  cols ← traverse quote_identifier (c ∷ cs)
  name ← quote_name table
  ok (some (insert_text name cols (placeholder_of (length (c ∷ cs))) (length (v ∷ vs)), flat))

length-flatten :
    (width : ℕ) (vs : List (List PyValue)) {flat : List PyValue}
    → flatten width vs ≡ ok flat
    → length flat ≡ width * length vs
unfolding flatten
length-flatten width [] h = ground arith
length-flatten width (v ∷ vs) h = elim (Bool-cases (length v == width)) [
  | inl fits ↦
      let (rest, hr, h1) = >>=-eq-ok (flatten width vs) _ (then_branch _ _ _ fits h) in
      ap length (sym (ok-injective {E = Exc} h1))
      ∙ length-append v rest
      ∙ (grind (arith, length-flatten width vs hr, (==_iff (length v) width).0 fits))
  | inr other ↦ cc (else_branch _ _ _ other h)
]

plan-prefix :
    (table : Text) (columns : List Text) (iter_error : Option Exc) (rows : List Next)
    (max_rows max_bytes : PyValue) (build_context : Result Exc Bytes) {p : Planner}
    → make_planner table columns iter_error rows max_rows max_bytes build_context ≡ ok p
    → (cols : List Text) × (name : Text) × (traverse quote_identifier columns ≡ ok cols)
      × (quote_name table ≡ ok name)
      × ((n : ℕ) → statement p n ≡ insert_text name cols (placeholder_of (length columns)) n)
unfolding make_planner statement
plan-prefix table [] it rows mr mb bc h = cc
plan-prefix table (c ∷ cs) it rows mr mb bc {p} h =
    let (rl, hr, h1) = >>=-eq-ok (positive_limit (codes "max_rows") mr) _ h in
    let (bl, hb, h2) = >>=-eq-ok (positive_limit (codes "max_bytes") mb) _ h1 in
    elim (Bool-cases (ltb 200000 rl)) [
      | inl over ↦ cc (then_branch _ _ _ over h2)
      | inr fits ↦
          let (cols, hc, h3) =
            >>=-eq-ok (traverse quote_identifier (c ∷ cs)) _ (else_branch _ _ _ fits h2) in
          let (name, hn, h4) = >>=-eq-ok (quote_name table) _ h3 in
          (
            cols,
            name,
            hc,
            hn,
            subst
                (λ q.
                  (n : ℕ)
                  → q.prefix ++ join comma_space (replicate n q.placeholder)
                    ≡ insert_text name cols (placeholder_of (length (c ∷ cs))) n)
                (ok-injective {E = Exc} h4)
                (λ n.
                  same_text name (join comma_space cols)
                    (join comma_space (replicate n (placeholder_of (length (c ∷ cs)))))),
          )
    ]
  where
    same_text :
        (a b d : Text)
        → (codes "INSERT INTO " ++ (a ++ (codes " (" ++ (b ++ codes ") VALUES ")))) ++ d
          ≡ codes "INSERT INTO " ++ (a ++ (codes " (" ++ (b ++ (codes ") VALUES " ++ d))))
    same_text a b d =
        append_assoc (codes "INSERT INTO ") (a ++ (codes " (" ++ (b ++ codes ") VALUES "))) d
        ∙ ap (λ x. codes "INSERT INTO " ++ x)
            (append_assoc a (codes " (" ++ (b ++ codes ") VALUES ")) d
              ∙ ap (λ x. a ++ x)
                  (append_assoc (codes " (") (b ++ codes ") VALUES ") d
                    ∙ ap (λ x. codes " (" ++ x) (append_assoc b (codes ") VALUES ") d)))

some_pair :
    {a b : Text} {x y : List PyValue}
    → ◌≡◌ {A = Option (Text × List PyValue)} (some (a, x)) (some (b, y))
    → (a ≡ b) × (x ≡ y)
some_pair h = ground (arith, h)

-- `insert_many` and `insert_batches` send the same statement for the same number of rows, with a
-- parameter for each placeholder: where the planner accepts the table and the columns and
-- `insert_many` has a statement, this is the planner's for as many rows, and its parameters are as
-- many as the rows times the columns.
pub insert_statement-statement :
    (table : Text) (columns : List Text) (values : List (List PyValue)) (iter_error : Option Exc)
    (rows : List Next) (max_rows max_bytes : PyValue) (build_context : Result Exc Bytes)
    {p : Planner} {sql : Text} {flat : List PyValue}
    → make_planner table columns iter_error rows max_rows max_bytes build_context ≡ ok p
    → insert_statement table columns values ≡ ok (some (sql, flat))
    → (sql ≡ statement p (length values)) × (length flat ≡ length columns * length values)
unfolding insert_statement
insert_statement-statement table [] vs it rows mr mb bc hp h = cc
insert_statement-statement table (c ∷ cs) [] it rows mr mb bc hp h = cc
insert_statement-statement table (c ∷ cs) (v ∷ vs) it rows mr mb bc {p} {sql} {flat} hp h =
    let (cols, name, hc, hn, same) = plan-prefix table (c ∷ cs) it rows mr mb bc hp in
    let (flat1, hf, h1) = >>=-eq-ok (flatten (length (c ∷ cs)) (v ∷ vs)) _ h in
    let (cols1, hc1, h2) = >>=-eq-ok (traverse quote_identifier (c ∷ cs)) _ h1 in
    let (name1, hn1, h3) = >>=-eq-ok (quote_name table) _ h2 in
    let cols_same : cols1 ≡ cols = ok-injective {E = Exc} (sym hc1 ∙ hc) in
    let name_same : name1 ≡ name = ok-injective {E = Exc} (sym hn1 ∙ hn) in
    let parts : ◌≡◌ {A = Option (Text × List PyValue)}
        (some (insert_text name1 cols1 (placeholder_of (length (c ∷ cs))) (length (v ∷ vs)), flat1))
        (some (sql, flat)) =
      ok-injective {E = Exc} h3 in
    let (text, params) = some_pair parts in
    (
      sym text
          ∙ ap (λ n. insert_text n cols1 (placeholder_of (length (c ∷ cs))) (length (v ∷ vs)))
              name_same
          ∙ ap (λ xs. insert_text name xs (placeholder_of (length (c ∷ cs))) (length (v ∷ vs)))
              cols_same
          ∙ sym (same (length (v ∷ vs))),
      ap length (sym params) ∙ length-flatten (length (c ∷ cs)) (v ∷ vs) hf,
    )
