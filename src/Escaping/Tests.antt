-- ===== src/Escaping/Tests.antt =====
-- Runs of the quoting functions.
use snowflake_sql_api.Common.{
  codes, contains, split, traverse, join, some, [], ◌++◌, ok, ◌≡◌, refl, arith,
}
use snowflake_sql_api.Escaping.{quote_identifier, quote_name, double_quotes, dot}
use snowflake_sql_api.Escaping.Lexer.{
  lex_identifier, lex_names, start, lex_identifier-quote_identifier, lex_names-quote_name,
  quote_name-injective,
}

embedded_quote : quote_identifier (codes "foo\"bar") ≡ ok (codes "\"foo\"\"bar\"")
unfolding quote_identifier double_quotes contains
embedded_quote = refl

dotted_name : quote_name (codes "S.T") ≡ ok (codes "\"S\".\"T\"")
unfolding quote_name quote_identifier double_quotes contains split traverse join
dotted_name = refl

plain_name : quote_identifier (codes "T") ≡ ok (codes "\"T\"")
unfolding quote_identifier double_quotes contains
plain_name = refl

lex_identifier-quote_identifier_example :
    lex_identifier (codes "\"T\"" ++ codes ".\"U\"") ≡ some (codes "T", codes ".\"U\"")
lex_identifier-quote_identifier_example =
    lex_identifier-quote_identifier (codes "T") (codes "\"T\"") (codes ".\"U\"") plain_name
      (omega arith)

lex_names-quote_name_example :
    lex_names start [] (codes "\"S\".\"T\"") ≡ some (split dot (codes "S.T"))
lex_names-quote_name_example = lex_names-quote_name (codes "S.T") (codes "\"S\".\"T\"") dotted_name

quote_name-injective_example : codes "S.T" ≡ codes "S.T"
quote_name-injective_example =
    quote_name-injective (codes "S.T") (codes "S.T") (codes "\"S\".\"T\"") dotted_name dotted_name
