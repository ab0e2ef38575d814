-- ===== src/Testing/RoundTrip/Table.antt =====
-- The round trip for the rows of a registration: the columns that it announces, and its wire rows.
use snowflake_sql_api.Common.{
  ℕ, ◌+◌, Text, codes, true, Option, none, some, List, [], ◌∷◌, map, ok, ◌≡◌, ◌⊎◌, refl, sym, ap,
  subst, ◌∙◌, All, inl, inr, >>=-eq-ok, traverse, text_eq,
}
use snowflake_sql_api.Errors.{Value, null, str, get_or, has_key}
use snowflake_sql_api.Bindings.{PyValue, none_value}
use snowflake_sql_api.Types.{Reading, ColumnMeta, from_row_type, coerce_value}
use snowflake_sql_api.Types.Columns.{validate_column_names, coerce_cell, coerce_row, coerce_rows}
use snowflake_sql_api.Types.Rows.{Reads, entries, coerce_row-entries}
use snowflake_sql_api.Client.Results.{columns_of}
use snowflake_sql_api.Testing.Wire.{Writing, infer_type, encode_cell}
use snowflake_sql_api.Testing.Bodies.{array, to_items}
use snowflake_sql_api.Testing.Registry.{
  RowInput, cell, Column, scale_field, row_type_entry, wire_value, wire_cells,
}
use snowflake_sql_api.Testing.Server.Fetching.{to_list-to_items}
use snowflake_sql_api.Testing.RoundTrip.Values.{
  Agrees, IsRegular, scale_value, coerce_value-encode_cell,
}

module _ (reading : Reading) (writing : Writing) where
  -- `str` and `str.lower` leave the name of a type that is inferred as it is.
  abbrev pub IsPlainType : Text → Type 0
  IsPlainType t = reading.lower (reading.shown (str t)) ≡ t

  -- The metadata of a column of the registration.
  abbrev pub meta : Column → ColumnMeta
  meta c = record {
    name = str c.name;
    type = c.ctype;
    scale = scale_value reading writing c.scale;
    precision = null;
    nullable = true;
  }

  scale_back :
      (s : Option ℕ) → get_or (codes "scale") (scale_field s) null ≡ scale_value reading writing s
  unfolding get_or text_eq
  scale_back none = refl
  scale_back (some n) = refl

  no_precision : (s : Option ℕ) → get_or (codes "precision") (scale_field s) null ≡ null
  unfolding get_or text_eq
  no_precision none = refl
  no_precision (some n) = refl

  from_row_type-entry :
      (c : Column) → IsPlainType c.ctype → from_row_type reading (row_type_entry c) ≡ ok (meta c)
  unfolding from_row_type has_key get_or text_eq
  from_row_type-entry c plain = rw plain (rw (scale_back c.scale) (rw (no_precision c.scale) refl))

  -- A value that a column can hold: None, or a value whose inferred type is that of the column.
  abbrev pub Fits : Column → PyValue → Type 0
  Fits c v =
      (v ≡ none_value) ⊎ ((infer_type writing v ≡ (c.ctype, c.scale)) × IsRegular reading writing v)

  -- The values of a row, by the columns from an index on.
  abbrev pub RowFits : List Column → ℕ → RowInput → List PyValue → Type 0
  RowFits [] index row [] = Unit
  RowFits (c ∷ cs) index row (v ∷ vs) =
      (cell row c.name index ≡ ok v) × Fits c v × RowFits cs (index + 1) row vs
  RowFits _ index row _ = ⊥

  entries_back :
      (cs : List Column)
      → All (λ c. IsPlainType c.ctype) cs
      → traverse (λ e. from_row_type reading e) (map row_type_entry cs) ≡ ok (map meta cs)
  unfolding traverse
  entries_back [] plain = refl
  entries_back (c ∷ cs) (first, plain) =
      rw (from_row_type-entry c first) (rw (entries_back cs plain) refl)

  coerce_wire :
      (t : Option Text) (m : ColumnMeta)
      → coerce_cell reading (wire_value t) m ≡ coerce_value reading t m
  coerce_wire none m = refl
  coerce_wire (some s) m = refl

  module _ (agrees : Agrees reading writing) where
    cell_back :
        (c : Column) (v : PyValue)
        → Fits c v
        → (t : Option Text) × (encode_cell writing v c.ctype ≡ ok t)
          × (coerce_cell reading (wire_value t) (meta c) ≡ ok v)
    unfolding encode_cell coerce_value
    cell_back c v (inl e) = (none, rw e refl, rw e refl)
    cell_back c v (inr (typed, regular)) =
        let (t, written, read) =
          >>=-eq-ok (encode_cell writing v (infer_type writing v).0) _
            (coerce_value-encode_cell reading writing agrees (str c.name) v regular) in
        (
          t,
          ap (encode_cell writing v) (sym (ap (λ p. p.0) typed)) ∙ written,
          coerce_wire t (meta c)
              ∙ ap
                  (λ p.
                    coerce_value reading t
                      (record (meta c) { type = p.0; scale = scale_value reading writing p.1 }))
                  (sym typed)
              ∙ read,
        )

    wire_cells-Reads :
        (cs : List Column) (index : ℕ) (row : RowInput) (vs : List PyValue)
        → RowFits cs index row vs
        → (ws : List Value) × (wire_cells writing cs index row ≡ ok ws)
          × Reads reading (map meta cs) ws vs
    unfolding wire_cells
    wire_cells-Reads [] index row [] fits = ([], refl, tt)
    wire_cells-Reads (c ∷ cs) index row (v ∷ vs) (there, good, fits) =
        let (t, written, read) = cell_back c v good in
        let (ws, wired, reads) = wire_cells-Reads cs (index + 1) row vs fits in
        (wire_value t ∷ ws, rw there (rw written (rw wired refl)), (read, reads))
    wire_cells-Reads _ index row _ fits = absurd fits

  -- The values of all rows.
  abbrev pub TableFits : List Column → List RowInput → List (List PyValue) → Type 0
  TableFits cs [] [] = Unit
  TableFits cs (r ∷ rows) (vs ∷ table) = RowFits cs 0 r vs × TableFits cs rows table
  TableFits cs _ _ = ⊥

  module _ (agrees : Agrees reading writing) (listed : List Value → Text) (cs : List Column)
      (valid : validate_column_names listed (codes "results") (map meta cs) ≡ ok tt) where
    row_back :
        (row : RowInput) (vs : List PyValue)
        → RowFits cs 0 row vs
        → (ws : List Value) × (wire_cells writing cs 0 row ≡ ok ws)
          × (coerce_row reading (map meta cs) (array ws) ≡ ok (entries reading (map meta cs) vs))
    row_back row vs fits =
        let (ws, wired, reads) = wire_cells-Reads agrees cs 0 row vs fits in
        (
          ws,
          wired,
          coerce_row-entries reading listed (codes "results") (map meta cs) (to_items ws) vs valid
              (subst (λ t. Reads reading (map meta cs) t vs) (sym (to_list-to_items ws)) reads),
        )

    -- The rows of a registration are coerced back from its wire rows.
    pub table_back :
        (rows : List RowInput) (table : List (List PyValue))
        → TableFits cs rows table
        → (wire : List (List Value)) × (traverse (λ r. wire_cells writing cs 0 r) rows ≡ ok wire)
          × (coerce_rows reading (map meta cs) (map array wire)
              ≡ ok (map (entries reading (map meta cs)) table))
    unfolding traverse coerce_rows
    table_back [] [] fits = ([], refl, refl)
    table_back (r ∷ rows) (vs ∷ table) (good, fits) =
        let (ws, wired, back) = row_back r vs good in
        let (wire, all_wired, all_back) = table_back rows table fits in
        (ws ∷ wire, rw wired (rw all_wired refl), rw back (rw all_back refl))
    table_back _ _ fits = absurd fits

    -- The columns that the registration announces are read back.
    pub columns_back :
        All (λ c. IsPlainType c.ctype) cs
        → columns_of reading listed (map row_type_entry cs) ≡ ok (map meta cs)
    unfolding columns_of
    columns_back plain = rw (entries_back cs plain) (rw valid refl)
