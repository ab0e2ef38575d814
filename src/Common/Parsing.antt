-- ===== src/Common/Parsing.antt =====
-- `str.strip`, `str.partition` and `int(text)`, for ASCII texts, and what they make of digits.
use Prim.Native.Nat.{ℕ, zero, suc, ◌+◌, ◌-◌, ◌*◌, ◌<◌}
use mathlib.Core.Path.{◌≡◌, refl, ap, ◌∙◌}
use mathlib.Core.Logic.{◌≢◌}
use mathlib.Core.Bool.{Bool, true, false, ◌||◌, ◌&&◌}
use mathlib.Core.Option.{Option, none, some}
use mathlib.Core.List.{[], ◌∷◌, ◌++◌}
use native.Mathlib.Omega.{arith}
use snowflake_sql_api.Common.Tests.{leb, ◌==◌, if◌then◌else◌}
use snowflake_sql_api.Common.Lists.{All}
use snowflake_sql_api.Common.Texts.{Text, Lacks}
use snowflake_sql_api.Common.Int.{ℤ, pos, negsuc}
use snowflake_sql_api.Common.Decimal.{
  IsDigit, decimal, decimal_int, value_from, value-decimal, decimal-IsDigit, decimal-ne-nil,
}

abbrev pub is_blank : ℕ → Bool
is_blank c = c == 32 || (leb 9 c && leb c 13)

abbrev pub is_digit : ℕ → Bool
is_digit c = leb 48 c && leb c 57

abbrev keep_end : ℕ → Text → Text
keep_end c [] = if is_blank c then [] else c ∷ []
keep_end c (d ∷ s) = c ∷ d ∷ s

-- `s.rstrip()`
unfoldable pub strip_end : Text → Text
strip_end [] = []
strip_end (c ∷ s) = keep_end c (strip_end s)

-- `s.strip()`
unfoldable pub strip : Text → Text
unfolding strip_end
strip [] = []
strip (c ∷ s) = let rest = strip s in if is_blank c then rest else strip_end (c ∷ s)

-- The first and the last part of `s.partition(sep)`.
unfoldable pub before : ℕ → Text → Text
before sep [] = []
before sep (c ∷ s) = let rest = before sep s in if c == sep then [] else c ∷ rest

unfoldable pub after : ℕ → Text → Text
after sep [] = []
after sep (c ∷ s) = let rest = after sep s in if c == sep then s else rest

-- Digits with single underscores between them; the flag says that a digit came last.
unfoldable pub read_digits : Bool → ℕ → Text → Option ℕ
read_digits false n [] = none
read_digits true n [] = some n
read_digits false n (c ∷ s) =
    let rest = read_digits true (n * 10 + (c - 48)) s in if is_digit c then rest else none
read_digits true n (c ∷ s) =
    let digit = read_digits true (n * 10 + (c - 48)) s in
    let gap = read_digits false n s in if is_digit c then digit else if c == 95 then gap else none

abbrev pub negated : ℕ → ℤ
negated zero = pos 0
negated (suc n) = negsuc n

abbrev signed_by : (ℕ → ℤ) → Option ℕ → Option ℤ
signed_by f none = none
signed_by f (some n) = some (f n)

unfoldable pub read_signed : Text → Option ℤ
unfolding read_digits
read_signed [] = none
read_signed (c ∷ s) =
    if c == 45
    then signed_by negated (read_digits false 0 s)
    else if c == 43
    then signed_by pos (read_digits false 0 s)
    else signed_by pos (read_digits false 0 (c ∷ s))

-- `int(text)`; `none` for `ValueError`
unfoldable pub parse_int : Text → Option ℤ
unfolding strip read_signed
parse_int s = read_signed (strip s)

-- No blank: the characters of numbers.
abbrev pub IsDark : ℕ → Type 0
IsDark c = is_blank c ≡ false

strip_end-dark : (s : Text) → All IsDark s → strip_end s ≡ s
unfolding strip_end
strip_end-dark [] h = refl
strip_end-dark (c ∷ []) (p, h) = rw p
strip_end-dark (c ∷ d ∷ s) (p, h) = rw (strip_end-dark (d ∷ s) h)

strip-dark : (s : Text) → All IsDark s → strip s ≡ s
unfolding strip
strip-dark [] h = refl
strip-dark (c ∷ s) (p, h) = rw p (strip_end-dark (c ∷ s) (p, h))

pub digits-IsDark : (s : Text) → All IsDigit s → All IsDark s
digits-IsDark [] h = tt
digits-IsDark (c ∷ s) (p, h) = (ground arith, digits-IsDark s h)

pub digits-Lacks : (sep : ℕ) (s : Text) → sep < 48 → All IsDigit s → Lacks sep s
digits-Lacks sep [] lt h = tt
digits-Lacks sep (c ∷ s) lt (p, h) = (λ e. omega arith, digits-Lacks sep s lt h)

pub before-append : (sep : ℕ) (s t : Text) → Lacks sep s → before sep (s ++ sep ∷ t) ≡ s
unfolding before
before-append sep [] t h = ground arith
before-append sep (c ∷ s) t (p, h) = ground (arith, before-append sep s t h)

pub after-append : (sep : ℕ) (s t : Text) → Lacks sep s → after sep (s ++ sep ∷ t) ≡ t
unfolding after
after-append sep [] t h = ground arith
after-append sep (c ∷ s) t (p, h) = ground (arith, after-append sep s t h)

pub before-whole : (sep : ℕ) (s : Text) → Lacks sep s → before sep s ≡ s
unfolding before
before-whole sep [] h = refl
before-whole sep (c ∷ s) (p, h) = ground (arith, before-whole sep s h)

pub after-whole : (sep : ℕ) (s : Text) → Lacks sep s → after sep s ≡ []
unfolding after
after-whole sep [] h = refl
after-whole sep (c ∷ s) (p, h) = ground (arith, after-whole sep s h)

read_digits-more : (n : ℕ) (s : Text) → All IsDigit s → read_digits true n s ≡ some (value_from n s)
unfolding read_digits
read_digits-more n [] h = refl
read_digits-more n (c ∷ s) (p, h) = ground (arith, read_digits-more (n * 10 + (c - 48)) s h)

read_digits-all :
    (n : ℕ) (s : Text) → s ≢ [] → All IsDigit s → read_digits false n s ≡ some (value_from n s)
unfolding read_digits
read_digits-all n [] ne h = absurd (ne refl)
read_digits-all n (c ∷ s) ne (p, h) = ground (arith, read_digits-more (n * 10 + (c - 48)) s h)

-- A text of digits is read as its value, and behind a minus as its negation.
pub parse_int-digits :
    (s : Text) → s ≢ [] → All IsDigit s → parse_int s ≡ some (pos (value_from 0 s))
unfolding parse_int read_signed
parse_int-digits [] ne h = absurd (ne refl)
parse_int-digits (c ∷ s) ne h =
    rw (strip-dark (c ∷ s) (digits-IsDark (c ∷ s) h))
      (ground (arith, h, read_digits-all 0 (c ∷ s) ne h))

pub parse_int-minus :
    (s : Text) → s ≢ [] → All IsDigit s → parse_int (45 ∷ s) ≡ some (negated (value_from 0 s))
unfolding parse_int read_signed
parse_int-minus s ne h =
    rw (strip-dark (45 ∷ s) (refl, digits-IsDark s h)) (rw (read_digits-all 0 s ne h) refl)

-- `int(str(n)) == n`
pub parse_int-decimal : (n : ℕ) → parse_int (decimal n) ≡ some (pos n)
parse_int-decimal n =
    parse_int-digits (decimal n) (decimal-ne-nil n) (decimal-IsDigit n)
    ∙ ap (λ m. some (pos m)) (value-decimal n)

pub parse_int-minus_decimal : (n : ℕ) → parse_int (45 ∷ decimal n) ≡ some (negated n)
parse_int-minus_decimal n =
    parse_int-minus (decimal n) (decimal-ne-nil n) (decimal-IsDigit n)
    ∙ ap (λ m. some (negated m)) (value-decimal n)

pub parse_int-decimal_int : (z : ℤ) → parse_int (decimal_int z) ≡ some z
unfolding decimal_int
parse_int-decimal_int (pos n) = parse_int-decimal n
parse_int-decimal_int (negsuc n) = parse_int-minus_decimal (suc n)
