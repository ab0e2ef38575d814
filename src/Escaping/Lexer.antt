-- ===== src/Escaping/Lexer.antt =====
-- An independent reading of quoted identifiers, as a SQL lexer makes it, and what it makes of the
-- output of `quote_identifier` and `quote_name`.
use snowflake_sql_api.Common.{
  Text, Bool, true, false, Option, none, some, List, [], ◌∷◌, ◌++◌, append_assoc, append-nil, ◌≡◌,
  ◌≢◌, refl, ap, ◌∙◌, sym, arith, ok, traverse, traverse-cons, >>=-eq-ok, ◌==◌, if◌then◌else◌,
  split, join, join-split, join-cons, split-ne-nil,
}
use snowflake_sql_api.Escaping.{quote, dot, double_quotes, quote_identifier, quote_name}
use mathlib.Core.Option

-- Inside a quoted identifier with `cur` read so far; `closing` says that the last character was a
-- quote, which ends the identifier unless another quote follows.
unfoldable pub lex_body : Text → Bool → Text → Option (Text × Text)
lex_body cur false [] = none
lex_body cur true [] = some (cur, [])
lex_body cur false (c ∷ s) =
    let close = lex_body cur true s in
    let step = lex_body (cur ++ c ∷ []) false s in if c == quote then close else step
lex_body cur true (c ∷ s) =
    let step = lex_body (cur ++ c ∷ []) false s in if c == quote then step else some (cur, c ∷ s)

-- One quoted identifier at the start of a text, and what is left behind it.
unfoldable pub lex_identifier : Text → Option (Text × Text)
unfolding lex_body
lex_identifier [] = none
lex_identifier (c ∷ s) = if c == quote then lex_body [] false s else none

-- The next character, if there is one, is no quote.
abbrev pub EndsQuote : Text → Type 0
EndsQuote [] = Unit
EndsQuote (c ∷ s) = c ≢ quote

-- A doubled text is read back, up to the quote behind it.
lex_body-double_quotes :
    (cur s rest : Text)
    → lex_body cur false (double_quotes s ++ quote ∷ rest) ≡ lex_body (cur ++ s) true rest
unfolding double_quotes lex_body
lex_body-double_quotes cur [] rest = rw append-nil
lex_body-double_quotes cur (c ∷ s) rest =
    ground (arith, lex_body-double_quotes (cur ++ c ∷ []) s rest, append_assoc cur (c ∷ []) s)

lex_body_end : (cur rest : Text) → EndsQuote rest → lex_body cur true rest ≡ some (cur, rest)
unfolding lex_body
lex_body_end cur [] h = refl
lex_body_end cur (c ∷ s) h = ground arith

-- Whatever the name, a quoted identifier is read back as exactly that name, whole: the text that
-- follows is left as it was, if it does not start with a quote.
pub lex_identifier-quote_identifier :
    (name q rest : Text)
    → quote_identifier name ≡ ok q
    → EndsQuote rest
    → lex_identifier (q ++ rest) ≡ some (name, rest)
unfolding lex_identifier quote_identifier
lex_identifier-quote_identifier [] q rest h e = cc
lex_identifier-quote_identifier (c ∷ s) q rest h e = ground (
  arith,
  append_assoc (double_quotes (c ∷ s)) (quote ∷ []) rest,
  lex_body-double_quotes [] (c ∷ s) rest,
  lex_body_end (c ∷ s) rest e,
)

-- The states of a lexer of dotted names: before a part, inside one, and behind a quote.
pub data Mode : Type 0 where
  start inside closing : Mode

-- The parts of a dotted name of quoted identifiers, which is the whole text.
unfoldable pub lex_names : Mode → Text → Text → Option (List Text)
lex_names start cur [] = none
lex_names inside cur [] = none
lex_names closing cur [] = some (cur ∷ [])
lex_names start cur (c ∷ s) =
    let open_part = lex_names inside [] s in if c == quote then open_part else none
lex_names inside cur (c ∷ s) =
    let close = lex_names closing cur s in
    let step = lex_names inside (cur ++ c ∷ []) s in if c == quote then close else step
lex_names closing cur (c ∷ s) =
    let step = lex_names inside (cur ++ c ∷ []) s in
    let next = Option.map (λ ps. cur ∷ ps) (lex_names start [] s) in
    if c == quote then step else if c == dot then next else none

lex_names-double_quotes :
    (cur s rest : Text)
    → lex_names inside cur (double_quotes s ++ quote ∷ rest) ≡ lex_names closing (cur ++ s) rest
unfolding double_quotes lex_names
lex_names-double_quotes cur [] rest = rw append-nil
lex_names-double_quotes cur (c ∷ s) rest =
    ground (arith, lex_names-double_quotes (cur ++ c ∷ []) s rest, append_assoc cur (c ∷ []) s)

-- One quoted part in front of the rest of a dotted name.
lex_names-quote_identifier :
    (part q rest : Text)
    → quote_identifier part ≡ ok q
    → lex_names start [] (q ++ rest) ≡ lex_names closing part rest
unfolding quote_identifier lex_names
lex_names-quote_identifier [] q rest h = cc
lex_names-quote_identifier (c ∷ s) q rest h = ground (
  arith,
  append_assoc (double_quotes (c ∷ s)) (quote ∷ []) rest,
  lex_names-double_quotes [] (c ∷ s) rest,
)

lex_names-join_one :
    (p : Text) {qs : List Text}
    → traverse quote_identifier (p ∷ []) ≡ ok qs
    → lex_names start [] (join (dot ∷ []) qs) ≡ some (p ∷ [])
unfolding join lex_names traverse
lex_names-join_one p h =
    let (y, ys, hy, hys, e) = traverse-cons quote_identifier p [] h in
    ground (arith, lex_names-quote_identifier p y [], append-nil y)

-- What the lexer makes of a first part and of the dotted rest.
lex_names-join_more :
    (p y r : Text) (out : List Text)
    → quote_identifier p ≡ ok y
    → lex_names start [] r ≡ some out
    → lex_names start [] (y ++ dot ∷ r) ≡ some (p ∷ out)
lex_names-join_more p y r out hy hr =
    rw (lex_names-quote_identifier p y (dot ∷ r) hy) (unfold lex_names in rw hr)

lex_names-join :
    (p : Text) (ps : List Text) {qs : List Text}
    → traverse quote_identifier (p ∷ ps) ≡ ok qs
    → lex_names start [] (join (dot ∷ []) qs) ≡ some (p ∷ ps)
lex_names-join p [] h = lex_names-join_one p h
lex_names-join p (p' ∷ ps) {qs} h =
    let (y, ys, hy, hys, e) = traverse-cons quote_identifier p (p' ∷ ps) h in
    let (z, zs, hz, hzs, e') = traverse-cons quote_identifier p' ps hys in
    rw (e, e', join-cons)
      (lex_names-join_more p y _ (p' ∷ ps) hy (rw e' at (lex_names-join p' ps hys)))

-- A quoted dotted name is read back as the parts of the name that was given: no part ends early,
-- and no further part appears.
pub lex_names-quote_name :
    (name q : Text) → quote_name name ≡ ok q → lex_names start [] q ≡ some (split dot name)
unfolding quote_name
lex_names-quote_name name q h =
    let (qs, hqs, hq) = >>=-eq-ok (traverse quote_identifier (split dot name)) _ h in
    let e : q ≡ join (dot ∷ []) qs = (cc) in
    rw e (all_parts (split dot name) (split-ne-nil dot name) hqs)
  where
    all_parts :
        (parts : List Text)
        → parts ≢ []
        → {qs : List Text} → traverse quote_identifier parts ≡ ok qs
        → lex_names start [] (join (dot ∷ []) qs) ≡ some parts
    all_parts [] ne h = absurd (ne refl)
    all_parts (p ∷ ps) ne h = lex_names-join p ps h

-- Names that are quoted alike are the same name.
pub quote_name-injective : (a b q : Text) → quote_name a ≡ ok q → quote_name b ≡ ok q → a ≡ b
quote_name-injective a b q ha hb =
    let same : split dot a ≡ split dot b =
      cc (lex_names-quote_name a q ha, lex_names-quote_name b q hb) in
    sym (join-split dot a) ∙ ap (join (dot ∷ [])) same ∙ join-split dot b
