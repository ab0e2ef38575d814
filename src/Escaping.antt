-- ===== src/Escaping.antt =====
-- snowflake_sql_api/escaping.py: quoting of identifiers. Names are texts here, so the test on the
-- argument's Python type has no counterpart.
pub mod Lexer
pub mod Tests
use snowflake_sql_api.Common.{
  ℕ, Text, codes, Bool, true, false, List, [], ◌∷◌, ◌++◌, Result, ok, err, ◌>>=◌, traverse, ◌==◌,
  if◌then◌else◌, contains, split, join,
}
use snowflake_sql_api.Errors.{Exc, config_error}

abbrev pub quote : ℕ
quote = b'"'

abbrev pub dot : ℕ
dot = b'.'

-- name.replace('"', '""')
unfoldable pub double_quotes : Text → Text
double_quotes [] = []
double_quotes (c ∷ s) =
    let rest = double_quotes s in if c == quote then quote ∷ quote ∷ rest else c ∷ rest

unfoldable pub quote_identifier : Text → Result Exc Text
quote_identifier [] = err (config_error (codes "identifier must not be empty"))
quote_identifier (c ∷ s) =
    if contains 0 (c ∷ s)
    then err (config_error (codes "identifier must not contain a NUL character"))
    else ok (quote ∷ (double_quotes (c ∷ s) ++ quote ∷ []))

-- The generator stops at the first part that is refused.
unfoldable pub quote_name : Text → Result Exc Text
quote_name name = do parts ← traverse quote_identifier (split dot name); ok (join (dot ∷ []) parts)
