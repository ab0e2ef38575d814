-- ===== src/Types/Rows.antt =====
-- `coerce_row` under distinct column names: each column's value stands in the row, in order.
use snowflake_sql_api.Common.{
  suc, Text, false, List, [], ◌∷◌, ◌++◌, length, ok, ◌≡◌, refl, sym, ap, ◌∙◌, inl, inr, arith, All,
  append_assoc, append-nil, >>=-eq-ok, ok-injective, ◌==◌, ==_iff, Bool-cases,
}
use snowflake_sql_api.Errors.{Value, arr, Items, to_list, Exc}
use snowflake_sql_api.Bindings.{PyValue}
use snowflake_sql_api.Types.{Reading, ColumnMeta}
use snowflake_sql_api.Types.Columns.{
  same_name, counts, names_of, validate_column_names, Row, put, coerce_cell, coerce_cells,
  coerce_row,
}
use snowflake_sql_api.Types.Unique.{
  same_name_comm, neither, keys_of, put-new, IsUnique, validate_column_names-IsUnique,
}

module _ (py : Reading) where
  -- Each cell is coerced to the value of its column.
  abbrev pub Reads : List ColumnMeta → List Value → List PyValue → Type 0
  Reads [] [] [] = Unit
  Reads (c ∷ cs) (cell ∷ cells) (v ∷ vs) = (coerce_cell py cell c ≡ ok v) × Reads cs cells vs
  Reads _ _ _ = ⊥

  -- The entries of the columns, in order.
  abbrev pub entries : List ColumnMeta → List PyValue → Row
  entries (c ∷ cs) (v ∷ vs) = (c.name, v) ∷ entries cs vs
  entries _ _ = []

  -- No column has a key of the row for its name.
  abbrev Apart : List ColumnMeta → Row → Type 0
  Apart cs row = All (λ c. counts c.name (keys_of row) ≡ false) cs

  counts-snoc :
      (n : Value) (row : Row) (m : Value) (v : PyValue)
      → counts n (keys_of row) ≡ false
      → same_name n m ≡ false
      → counts n (keys_of (row ++ (m, v) ∷ [])) ≡ false
  counts-snoc n [] m v new differs = rw differs refl
  counts-snoc n ((k, w) ∷ row) m v new differs =
      let (first, later) = neither (same_name n k) (counts n (keys_of row)) new in
      rw first (counts-snoc n row m v later differs)

  Apart-snoc :
      (c : ColumnMeta) (cs : List ColumnMeta) (row : Row) (v : PyValue)
      → counts c.name (names_of cs) ≡ false
      → Apart cs row
      → Apart cs (row ++ (c.name, v) ∷ [])
  Apart-snoc c [] row v new h = tt
  Apart-snoc c (d ∷ cs) row v new (apart, h) =
      let (first, later) = neither (same_name c.name d.name) (counts c.name (names_of cs)) new in
      (
        counts-snoc d.name row c.name v apart (same_name_comm d.name c.name ∙ first),
        Apart-snoc c cs row v later h,
      )

  coerce_cells-entries :
      (cs : List ColumnMeta) (cells : List Value) (vs : List PyValue) (row : Row)
      → IsUnique (names_of cs)
      → Apart cs row
      → Reads cs cells vs
      → coerce_cells py cs cells row ≡ ok (row ++ entries cs vs)
  unfolding coerce_cells
  coerce_cells-entries [] [] [] row unique apart reads = ap ok (sym (append-nil row))
  coerce_cells-entries (c ∷ cs) (cell ∷ cells) (v ∷ vs) row (once, unique) (new, apart)
        (read, reads) =
      rw read (
        rw (put-new c.name v row new) (
          coerce_cells-entries cs cells vs (row ++ (c.name, v) ∷ []) unique
            (Apart-snoc c cs row v once apart) reads
          ∙ ap ok (append_assoc row ((c.name, v) ∷ []) (entries cs vs))))
  coerce_cells-entries _ _ _ row unique apart reads = absurd reads

  Apart-nil : (cs : List ColumnMeta) → Apart cs []
  Apart-nil [] = tt
  Apart-nil (c ∷ cs) = (refl, Apart-nil cs)

  Reads-length :
      (cs : List ColumnMeta) (cells : List Value) (vs : List PyValue)
      → Reads cs cells vs
      → length cells ≡ length cs
  Reads-length [] [] [] reads = refl
  Reads-length (c ∷ cs) (cell ∷ cells) (v ∷ vs) (read, reads) =
      ap suc (Reads-length cs cells vs reads)
  Reads-length _ _ _ reads = absurd reads

  -- The values of a row that is read.
  coerce_cells-Reads :
      (cs : List ColumnMeta) (cells : List Value) (row : Row) {out : Row}
      → length cells ≡ length cs
      → coerce_cells py cs cells row ≡ ok out
      → (vs : List PyValue) × Reads cs cells vs
  unfolding coerce_cells
  coerce_cells-Reads [] [] row size h = ([], tt)
  coerce_cells-Reads [] (cell ∷ cells) row size h = let wrong : ⊥ = omega arith in absurd wrong
  coerce_cells-Reads (c ∷ cs) [] row size h = let wrong : ⊥ = omega arith in absurd wrong
  coerce_cells-Reads (c ∷ cs) (cell ∷ cells) row size h =
      let (v, read, rest) = >>=-eq-ok (coerce_cell py cell c) _ h in
      let (vs, reads) = coerce_cells-Reads cs cells (put c.name v row) (omega arith) rest in
      (v ∷ vs, (read, reads))

  -- Where the cells of a row are coerced and the names of the columns are valid, the row has an
  -- entry for each column, in order, with the value of its cell.
  pub coerce_row-entries :
      (listed : List Value → Text) (context : Text) (columns : List ColumnMeta) (cells : Items)
      (vs : List PyValue)
      → validate_column_names listed context columns ≡ ok tt
      → Reads columns (to_list cells) vs
      → coerce_row py columns (arr cells) ≡ ok (entries columns vs)
  unfolding coerce_row
  coerce_row-entries listed context columns cells vs valid reads =
      let same =
        (==_iff (length (to_list cells)) (length columns)).1
          (Reads-length columns (to_list cells) vs reads) in
      rw same (
        coerce_cells-entries columns (to_list cells) vs []
          (validate_column_names-IsUnique listed context columns valid) (Apart-nil columns) reads)

  -- A row that is coerced under valid column names has an entry for each column, in order, with
  -- the value that the column's cell is coerced to.
  pub coerce_row-Reads :
      (listed : List Value → Text) (context : Text) (columns : List ColumnMeta) (cells : Items)
      {row : Row}
      → validate_column_names listed context columns ≡ ok tt
      → coerce_row py columns (arr cells) ≡ ok row
      → (vs : List PyValue) × Reads columns (to_list cells) vs × (row ≡ entries columns vs)
  unfolding coerce_row
  coerce_row-Reads listed context columns cells valid h =
      elim (Bool-cases (length (to_list cells) == length columns)) [
        | inr other ↦ let clash = rw other at h in cc
        | inl same ↦
            let (vs, reads) =
              coerce_cells-Reads columns (to_list cells) []
                ((==_iff (length (to_list cells)) (length columns)).0 same) (rw same at h) in
            (
              vs,
              reads,
              ok-injective {E = Exc}
                  (sym h ∙ coerce_row-entries listed context columns cells vs valid reads),
            )
      ]
