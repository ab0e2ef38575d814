-- ===== src/Batches/Encode/Plain.antt =====
-- Text that JSON and UTF-8 leave alone, and how encoding goes on behind it.
use snowflake_sql_api.Common.{
  ℕ, ◌<◌, ◌≤◌, ◌+◌, Text, [], ◌∷◌, ◌++◌, append_assoc, ◌≡◌, ◌≢◌, refl, sym, ap, ◌∙◌, arith, ok, err,
  Result, ◌>>=◌, All, length, length-append, Option, none, some,
}
use snowflake_sql_api.Errors.{Exc}
use snowflake_sql_api.Batches.Encode.{
  Bytes, after, escape_char, escape_text, utf8_char, utf8, encode_text,
}

-- Printable ASCII but the quote and the backslash.
abbrev pub IsPlain : ℕ → Type 0
IsPlain c = (32 ≤ c) × (c < 127) × (c ≢ b'"') × (c ≢ b'\\')

escape_char_plain : (c : ℕ) → IsPlain c → escape_char c ≡ c ∷ []
unfolding escape_char
escape_char_plain c h = ground arith

pub escape_text-append : (s t : Text) → escape_text (s ++ t) ≡ escape_text s ++ escape_text t
unfolding escape_text
escape_text-append [] t = refl
escape_text-append (c ∷ s) t =
    rw (escape_text-append s t) (sym (append_assoc (escape_char c) (escape_text s) (escape_text t)))

escape_text_plain : (s : Text) → All IsPlain s → escape_text s ≡ s
unfolding escape_text
escape_text_plain [] h = refl
escape_text_plain (c ∷ s) (p, h) = rw (escape_char_plain c p, escape_text_plain s h)

utf8_char_plain : (c : ℕ) → c < 127 → utf8_char c ≡ some (c ∷ [])
unfolding utf8_char
utf8_char_plain c h = ground arith

utf8_plain : (s : Text) → All IsPlain s → utf8 s ≡ ok s
unfolding utf8
utf8_plain [] h = refl
utf8_plain (c ∷ s) (p, h) = rw (utf8_char_plain c (p.1), utf8_plain s h)

-- Two encodings joined.
abbrev pub both : Result Exc Bytes → Result Exc Bytes → Result Exc Bytes
both m n = do a ← m; b ← n; ok (a ++ b)

after-both : (o : Option Bytes) (m n : Result Exc Bytes) → after o (both m n) ≡ both (after o m) n
after-both none m n = refl
after-both (some x) (ok a) (ok b) = ap ok (sym (append_assoc x a b))
after-both (some x) (ok a) (err e) = refl
after-both (some x) (err e) n = refl

both_nil : (n : Result Exc Bytes) → both (ok []) n ≡ n
both_nil (ok b) = refl
both_nil (err e) = refl

-- The bytes of two texts stand one behind the other.
pub utf8-append : (s t : Text) → utf8 (s ++ t) ≡ both (utf8 s) (utf8 t)
unfolding utf8
utf8-append [] t = sym (both_nil (utf8 t))
utf8-append (c ∷ s) t = rw (utf8-append s t) (after-both (utf8_char c) (utf8 s) (utf8 t))

both-eq-ok :
    (m n : Result Exc Bytes) {c : Bytes}
    → both m n ≡ ok c
    → (a : Bytes) × (b : Bytes) × (m ≡ ok a) × (n ≡ ok b) × (c ≡ a ++ b)
both-eq-ok (ok a) (ok b) h = (a, b, refl, refl, cc)
both-eq-ok (ok a) (err e) h = cc
both-eq-ok (err e) n h = cc

closing_quote : utf8 (b'"' ∷ []) ≡ ok (b'"' ∷ [])
unfolding utf8 utf8_char
closing_quote = refl

utf8-quoted : (s : Text) → encode_text s ≡ both (utf8 (b'"' ∷ escape_text s)) (utf8 (b'"' ∷ []))
unfolding encode_text
utf8-quoted s = utf8-append (b'"' ∷ escape_text s) (b'"' ∷ [])

-- A plain text in front of the closing quote adds its own characters and nothing else.
pub length-encode_text_plain :
    (s t : Text) {a : Bytes}
    → All IsPlain t
    → encode_text s ≡ ok a
    → (b : Bytes) × (encode_text (s ++ t) ≡ ok b) × (length b ≡ length a + length t)
length-encode_text_plain s t {a} p h =
    let (m, q, hm, hq, e) =
      both-eq-ok (utf8 (b'"' ∷ escape_text s)) (utf8 (b'"' ∷ [])) (sym (utf8-quoted s) ∙ h) in
    let grown : utf8 (b'"' ∷ escape_text (s ++ t)) ≡ ok (m ++ t) =
      rw (escape_text-append s t, escape_text_plain t p)
        (rw (utf8-append (b'"' ∷ escape_text s) t, hm, utf8_plain t p)) in
    (
      (m ++ t) ++ q,
      rw (utf8-quoted (s ++ t), grown, hq),
      omega (arith, ap length e, length-append m q, length-append (m ++ t) q, length-append m t),
    )
