-- ===== src/Common/Decimal.antt =====
-- `str(n)` of an integer: its decimal digits, and that they spell the number.
use Prim.Native.Nat.{ℕ, zero, suc, ◌+◌, ◌-◌, ◌*◌, ◌/◌, ◌%◌, ◌≤◌, ◌<◌}
use mathlib.Core.Path.{◌≡◌, refl, sym, ap, ◌∙◌}
use mathlib.Core.Logic.{◌≢◌}
use mathlib.Core.List.{[], ◌∷◌, ◌++◌, foldl}
use native.Mathlib.Omega.{arith}
use snowflake_sql_api.Common.Tests.{ltb, if◌then◌else◌}
use snowflake_sql_api.Common.Lists.{All, All-append, length, length-append}
use snowflake_sql_api.Common.Texts.{Text}
use snowflake_sql_api.Common.Int.{ℤ, pos, negsuc}

-- The digits of `n` in front of `out`; the recursion divides by ten, so fuel `n` is enough.
pub spell : ℕ → ℕ → Text → Text
spell zero n out = (48 + n % 10) ∷ out
spell (suc f) n out =
    let rest = spell f (n / 10) ((48 + n % 10) ∷ out) in if ltb n 10 then (48 + n) ∷ out else rest

unfoldable pub decimal : ℕ → Text
unfolding spell
decimal n = spell n n []

unfoldable pub decimal_int : ℤ → Text
unfolding decimal
decimal_int (pos n) = decimal n
decimal_int (negsuc n) = b'-' ∷ decimal (suc n)

-- The number that digits spell behind `n`.
abbrev pub value_from : ℕ → Text → ℕ
value_from = foldl (λ n c. n * 10 + (c - 48))

value-spell : (f n : ℕ) (out : Text) → n ≤ f → value_from 0 (spell f n out) ≡ value_from n out
unfolding spell
value-spell zero n out h = let e : n ≡ 0 = omega arith in rw e
value-spell (suc f) n out h = ground (arith, value-spell f (n / 10) ((48 + n % 10) ∷ out))

-- Reading the digits of a number gives the number.
pub value-decimal : (n : ℕ) → value_from 0 (decimal n) ≡ n
unfolding decimal
value-decimal n = value-spell n n [] (omega arith)

pub decimal-injective : (m n : ℕ) → decimal m ≡ decimal n → m ≡ n
decimal-injective m n h = sym (value-decimal m) ∙ ap (value_from 0) h ∙ value-decimal n

abbrev pub IsDigit : ℕ → Type 0
IsDigit c = (48 ≤ c) × (c ≤ 57)

spell-IsDigit : (f n : ℕ) (out : Text) → All IsDigit out → All IsDigit (spell f n out)
unfolding spell
spell-IsDigit zero n out h = ((omega arith, omega arith), h)
spell-IsDigit (suc f) n out h =
    ground (arith, spell-IsDigit f (n / 10) ((48 + n % 10) ∷ out) ((omega arith, omega arith), h))

spell-ne-nil : (f n : ℕ) (out : Text) → spell f n out ≢ []
unfolding spell
spell-ne-nil zero n out = cc
spell-ne-nil (suc f) n out = ground (arith, spell-ne-nil f (n / 10) ((48 + n % 10) ∷ out))

pub decimal-IsDigit : (n : ℕ) → All IsDigit (decimal n)
unfolding decimal
decimal-IsDigit n = spell-IsDigit n n [] tt

pub decimal-ne-nil : (n : ℕ) → decimal n ≢ []
unfolding decimal
decimal-ne-nil n = spell-ne-nil n n []

-- `f"{n:0{width}d}"` of a number with at most `width` digits: the last digit stands last.
unfoldable pub padded : ℕ → ℕ → Text
padded zero n = []
padded (suc width) n = padded width (n / 10) ++ (48 + n % 10) ∷ []

pub padded-IsDigit : (width n : ℕ) → All IsDigit (padded width n)
unfolding padded
padded-IsDigit zero n = tt
padded-IsDigit (suc width) n =
    All-append IsDigit (padded width (n / 10)) ((48 + n % 10) ∷ []) (padded-IsDigit width (n / 10))
      ((omega arith, omega arith), tt)

pub length-padded : (width n : ℕ) → length (padded width n) ≡ width
unfolding padded
length-padded zero n = refl
length-padded (suc width) n =
    length-append (padded width (n / 10)) ((48 + n % 10) ∷ [])
    ∙ omega (arith, length-padded width (n / 10))

pub value-append : (m : ℕ) (s t : Text) → value_from m (s ++ t) ≡ value_from (value_from m s) t
value-append m [] t = refl
value-append m (c ∷ s) t = value-append (m * 10 + (c - 48)) s t

-- Six digits spell a number below a million.
pub value-padded : (n : ℕ) → n < 1000000 → value_from 0 (padded 6 n) ≡ n
unfolding padded
value-padded n h = omega arith
