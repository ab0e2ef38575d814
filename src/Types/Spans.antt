-- ===== src/Types/Spans.antt =====
-- Timedeltas by their microseconds, Python's normal form of them, and the range of `datetime`.
use snowflake_sql_api.Common.{ℕ, suc, ◌+◌, ◌-◌, ◌*◌, ◌/◌, ◌%◌, ◌≤◌, ◌<◌, Bool, leb, ◌≡◌, ap, arith}
use snowflake_sql_api.Common.Int.{ℤ, pos, negsuc, ◌+ℤ◌, ◌*ℤ◌}
use snowflake_sql_api.Bindings.{Delta}

-- `timedelta(microseconds=n)`
unfoldable pub delta_of : ℤ → Delta
delta_of (pos n) = record {
  days = pos (n / 86400000000);
  seconds = n % 86400000000 / 1000000;
  microseconds = n % 1000000;
}
delta_of (negsuc n) = record {
  days = negsuc (n / 86400000000);
  seconds = (86399999999 - n % 86400000000) / 1000000;
  microseconds = 999999 - n % 1000000;
}

-- `(delta.days * 86400 + delta.seconds) * 1_000_000 + delta.microseconds`
unfoldable pub total_us : Delta → ℤ
total_us d = (d.days *ℤ pos 86400 +ℤ pos d.seconds) *ℤ pos 1000000 +ℤ pos d.microseconds

-- From `datetime.min` to `datetime.max`, in microseconds from the epoch.
unfoldable pub in_range : ℤ → Bool
in_range (pos n) = leb n 253402300799999999
in_range (negsuc n) = leb (suc n) 62135596800000000

-- From `date.min` to `date.max`, in days from the epoch.
unfoldable pub day_in_range : ℤ → Bool
day_in_range (pos n) = leb n 2932896
day_in_range (negsuc n) = leb (suc n) 719162

-- A timedelta in normal form.
pub record IsNormal (d : Delta) : Type 0 where
  pub seconds_below : d.seconds < 86400
  pub microseconds_below : d.microseconds < 1000000

pub pos_plus : (a b : ℕ) → pos a +ℤ pos b ≡ pos (a + b)
unfolding ◌+ℤ◌
pos_plus a b = ground arith

pub neg_plus : (a b : ℕ) → b ≤ a → negsuc a +ℤ pos b ≡ negsuc (a - b)
unfolding ◌+ℤ◌
neg_plus a b h = ground arith

pub pos_day : (n : ℕ) → pos n *ℤ pos 86400 ≡ pos (n * 86400)
unfolding ◌*ℤ◌
pos_day n = ground arith

pub neg_day : (n : ℕ) → negsuc n *ℤ pos 86400 ≡ negsuc (n * 86400 + 86399)
unfolding ◌*ℤ◌
neg_day n = ground arith

pub pos_million : (n : ℕ) → pos n *ℤ pos 1000000 ≡ pos (n * 1000000)
unfolding ◌*ℤ◌
pos_million n = ground arith

pub neg_million : (n : ℕ) → negsuc n *ℤ pos 1000000 ≡ negsuc (n * 1000000 + 999999)
unfolding ◌*ℤ◌
neg_million n = ground arith

-- The microseconds of a timedelta from the epoch on, and of one in normal form before it.
total_after :
    (n s u : ℕ)
    → total_us (record { days = pos n; seconds = s; microseconds = u })
      ≡ pos ((n * 86400 + s) * 1000000 + u)
unfolding total_us
total_after n s u = rw (pos_day, pos_plus, pos_million, pos_plus)

total_before :
    (n s u : ℕ)
    → s < 86400
    → u < 1000000
    → total_us (record { days = negsuc n; seconds = s; microseconds = u })
      ≡ negsuc ((n * 86400 + (86399 - s)) * 1000000 + (999999 - u))
unfolding total_us
total_before n s u h k =
    rw
      (
        neg_day,
        neg_plus (n * 86400 + 86399) s (omega arith),
        neg_million,
        neg_plus ((n * 86400 + 86399 - s) * 1000000 + 999999) u (omega arith),
      )
      (ap negsuc (omega arith))

-- The microseconds determine a timedelta in normal form.
pub delta_of-total_us : (d : Delta) → IsNormal d → delta_of (total_us d) ≡ d
delta_of-total_us d h = go d.days d.seconds d.microseconds h.seconds_below h.microseconds_below
  where
    go :
        (n : ℤ) (s u : ℕ)
        → s < 86400
        → u < 1000000
        → delta_of (total_us (record { days = n; seconds = s; microseconds = u }))
          ≡ record { days = n; seconds = s; microseconds = u }
    go (pos n) s u h k = rw (total_after n s u) (unfold delta_of in ground arith)
    go (negsuc n) s u h k = rw (total_before n s u h k) (unfold delta_of in ground arith)
