-- ===== src/Common/Int.antt =====
-- Signed integers over the native numbers, under the library's names. An operation goes through the
-- two parts of an integer, of which one is zero.
use snowflake_sql_api.Common.{ℕ, suc, ◌+◌, ◌-◌, ◌*◌, leb, if◌then◌else◌}

-- `negsuc n` is -(n + 1).
pub data ℤ : Type 0 where
  pos : ℕ → ℤ
  negsuc : ℕ → ℤ

abbrev pub pos_part : ℤ → ℕ
pos_part (pos n) = n
pos_part (negsuc n) = 0

abbrev pub neg_part : ℤ → ℕ
neg_part (pos n) = 0
neg_part (negsuc n) = suc n

-- What is left of a gain and a loss.
abbrev pub balance : ℕ → ℕ → ℤ
balance gain loss = if leb loss gain then pos (gain - loss) else negsuc (loss - gain - 1)

infixl 65 ◌+ℤ◌ ◌-ℤ◌
infixl 70 ◌*ℤ◌
unfoldable pub ◌+ℤ◌ : ℤ → ℤ → ℤ
m +ℤ n = balance (pos_part m + pos_part n) (neg_part m + neg_part n)

unfoldable pub ◌-ℤ◌ : ℤ → ℤ → ℤ
m -ℤ n = balance (pos_part m + neg_part n) (neg_part m + pos_part n)

unfoldable pub ◌*ℤ◌ : ℤ → ℤ → ℤ
m *ℤ n =
    balance (pos_part m * pos_part n + neg_part m * neg_part n)
      (pos_part m * neg_part n + neg_part m * pos_part n)
