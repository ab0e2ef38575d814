-- ===== src/Batches/Planner/Size.antt =====
-- How long a request body is, and by how much it grows with a row.
use snowflake_sql_api.Common.{
  ℕ, suc, ◌+◌, Text, codes, ◌++◌, Result, ok, err, >>=-eq-ok, ◌≡◌, refl, sym, ap, ◌∙◌, arith,
  length, length-append, replicate, replicate-snoc, join, join-snoc, All, append_assoc,
}
use mathlib.Core.List.{cons-ne-nil}
use snowflake_sql_api.Errors.{Exc}
use snowflake_sql_api.Batches.Encode.{Bytes, encode_text}
use snowflake_sql_api.Batches.Encode.Plain.{IsPlain, length-encode_text_plain}
use snowflake_sql_api.Batches.Planner.{Planner, comma_space}
use snowflake_sql_api.Batches.Planner.Step.{body_bytes, body_with, statement}

length-body_bytes :
    (sql context bindings : Bytes)
    → length (body_bytes sql context bindings) ≡ 28 + length sql + length context + length bindings
length-body_bytes s c b = omega (
  arith,
  length-append s (c ++ (codes ",\"bindings\":{" ++ (b ++ codes "}}"))),
  length-append c (codes ",\"bindings\":{" ++ (b ++ codes "}}")),
  length-append b (codes "}}"),
)

abbrev ok_length : Result Exc Bytes → ℕ
ok_length (ok bs) = length bs
ok_length (err e) = 0

-- A body is its statement, its context and its bindings, and 28 bytes around them.
pub length-body_with :
    (context : Bytes) (sql : Text) (bindings : Bytes) {content : Bytes}
    → body_with context sql bindings ≡ ok content
    → (encoded : Bytes) × (encode_text sql ≡ ok encoded)
      × (length content ≡ 28 + length encoded + length context + length bindings)
unfolding body_with
length-body_with c sql b h =
    let (s, hs, e) = >>=-eq-ok (encode_text sql) _ h in
    (s, hs, omega (arith, ap (ok_length) e, length-body_bytes s c b))

pub body_with_encoded :
    (context : Bytes) (sql : Text) (bindings encoded : Bytes)
    → encode_text sql ≡ ok encoded
    → (content : Bytes) × (body_with context sql bindings ≡ ok content)
      × (length content ≡ 28 + length encoded + length context + length bindings)
unfolding body_with
body_with_encoded c sql b s h = (body_bytes s c b, rw h, length-body_bytes s c b)

-- A plain text behind the statement and other bindings change the size by their lengths.
pub body_with_grow :
    (context : Bytes) (sql more : Text) (old new : Bytes) {content : Bytes}
    → All IsPlain more
    → body_with context sql old ≡ ok content
    → (grown : Bytes) × (body_with context (sql ++ more) new ≡ ok grown)
      × (length grown + length old ≡ length content + length more + length new)
body_with_grow c sql more old new plain h =
    let (s, hs, e) = length-body_with c sql old h in
    let (s', hs', e') = length-encode_text_plain sql more plain hs in
    let (grown, hg, e'') = body_with_encoded c (sql ++ more) new s' hs' in (grown, hg, omega arith)

-- One more row in the statement is one more placeholder behind a comma.
pub statement-suc :
    (p : Planner) (n : ℕ)
    → statement p (suc (suc n)) ≡ statement p (suc n) ++ (comma_space ++ p.placeholder)
unfolding statement
statement-suc p n =
    ap (λ s. p.prefix ++ s)
      (ap (join comma_space) (sym (replicate-snoc (suc n) p.placeholder))
        ∙ join-snoc comma_space (replicate (suc n) p.placeholder) p.placeholder (cons-ne-nil _ _))
    ∙ sym (
        append_assoc p.prefix (join comma_space (replicate (suc n) p.placeholder))
          (comma_space ++ p.placeholder))

pub statement-one : (p : Planner) → statement p 1 ≡ p.prefix ++ p.placeholder
unfolding statement join
statement-one p = refl
