-- ===== src/Batches/Encode.antt =====
-- `_encode` of batches.py on the values that the planner sends: texts, and the objects
-- `{"type": …, "value": …}`. It is `json.dumps(…, ensure_ascii=False, separators=(",", ":"))` and
-- then UTF-8, which refuses surrogates.
pub mod Plain
use snowflake_sql_api.Common.{
  ℕ, ◌+◌, ◌/◌, ◌%◌, Text, codes, Bool, ◌&&◌, Option, none, some, List, [], ◌∷◌, ◌++◌, Result, ok,
  err, ◌>>=◌, if◌then◌else◌, ltb, leb, ◌==◌,
}
use snowflake_sql_api.Errors.{Exc, raised, plain, foreign}
use snowflake_sql_api.Bindings.{BindingValue}

abbrev pub Bytes : Type 0
Bytes = List ℕ

abbrev hex_digit : ℕ → ℕ
hex_digit n = if ltb n 10 then 48 + n else 87 + n

-- One character of a JSON string literal, as `json.dumps` writes it.
unfoldable pub escape_char : ℕ → Text
escape_char c =
    if c == b'"'
    then codes "\\\""
    else if c == b'\\'
    then codes "\\\\"
    else if c == 10
    then codes "\\n"
    else if c == 13
    then codes "\\r"
    else if c == 9
    then codes "\\t"
    else if c == 12
    then codes "\\f"
    else if c == 8
    then codes "\\b"
    else if ltb c 32
    then codes "\\u00" ++ (hex_digit (c / 16) ∷ hex_digit (c % 16) ∷ [])
    else c ∷ []

unfoldable pub escape_text : Text → Text
escape_text [] = []
escape_text (c ∷ s) = escape_char c ++ escape_text s

-- The bytes of one code point; a surrogate has none.
unfoldable pub utf8_char : ℕ → Option Bytes
utf8_char c =
    if ltb c 128
    then some (c ∷ [])
    else if ltb c 2048
    then some ((192 + c / 64) ∷ (128 + c % 64) ∷ [])
    else if leb 55296 c && leb c 57343
    then none
    else if ltb c 65536
    then some ((224 + c / 4096) ∷ (128 + c / 64 % 64) ∷ (128 + c % 64) ∷ [])
    else some
        ((240 + c / 262144) ∷ (128 + c / 4096 % 64) ∷ (128 + c / 64 % 64) ∷ (128 + c % 64) ∷ [])

-- The exception of a text that cannot be encoded.
abbrev pub unicode_error : Exc
unicode_error = raised (plain foreign (codes "UnicodeEncodeError"))

abbrev pub after : Option Bytes → Result Exc Bytes → Result Exc Bytes
after none r = err unicode_error
after (some b) r = do bs ← r; ok (b ++ bs)

unfoldable pub utf8 : Text → Result Exc Bytes
utf8 [] = ok []
utf8 (c ∷ s) = after (utf8_char c) (utf8 s)

abbrev pub quoted : Text → Text
quoted s = b'"' ∷ (escape_text s ++ b'"' ∷ [])

-- _encode(s) of a text
unfoldable pub encode_text : Text → Result Exc Bytes
encode_text s = utf8 (quoted s)

abbrev value_literal : Option Text → Text
value_literal none = codes "null"
value_literal (some s) = quoted s

-- _encode(value) of a binding, whose keys stand in the order in which `_bind_one` writes them
unfoldable pub encode_binding : BindingValue → Result Exc Bytes
encode_binding b = utf8 (
    codes "{\"type\":"
    ++ (quoted b.kind ++ (codes ",\"value\":" ++ (value_literal b.value ++ codes "}"))))
