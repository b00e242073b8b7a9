-- ===== src/Mutation/Timeout.antt =====
-- The retry timeout of lance/mutation.go, in range and out of it.
use lance_go.Base.{ℕ, zero, suc, ◌+◌, ◌-◌, ◌*◌, ◌/◌, ◌^◌, ◌≤◌, ◌<◌, ◌≡◌, refl, arith}
use lance_go.Base.Int.{ℤ, pos, negsuc, IsInt64}
use lance_go.Mutation.{retry_timeout_ms, whole_milliseconds, to_uint64}

abbrev million : ℕ
million = 10 ^ 6

-- How a duration in nanoseconds and the milliseconds that are sent for it compare.
pub data Sent : ℤ → ℕ → Type 0 where
  rounded_down : (n ms : ℕ) → ms * million ≤ n → n < (ms + 1) * million → Sent (pos n) ms
  dropped : (n : ℕ) → suc n < million → Sent (negsuc n) 0
  huge :
      (n ms : ℕ) → million ≤ suc n → 2 ^ 64 - 9223372036855 ≤ ms → ms < 2 ^ 64 → Sent (negsuc n) ms

negative_timeout :
    (n s : ℕ)
    → IsInt64 (negsuc n)
    → s ≡ (n + 1) / million
    → Sent (negsuc n) (to_uint64 (elim s [ zero ↦ pos 0 | suc m ↦ negsuc m ]))
unfolding to_uint64
negative_timeout n zero h e = dropped n (omega arith)
negative_timeout n (suc m) h e = huge n _ (omega arith) (omega arith) (omega arith)

-- A duration that is not negative is sent as its whole milliseconds, rounded down, so that one below a
-- millisecond is sent as 0, which leaves the option out. A negative duration of less than a
-- millisecond is left out too; any other is sent as a number that is only 9,223,372,036,855 or less
-- below 2^64. All this for each duration that is an int64.
pub retry_timeout_ms_bounds : (d : ℤ) → IsInt64 d → Sent d (retry_timeout_ms d)
unfolding retry_timeout_ms whole_milliseconds to_uint64
retry_timeout_ms_bounds (pos n) h = rounded_down n _ (omega arith) (omega arith)
retry_timeout_ms_bounds (negsuc n) h = negative_timeout n ((n + 1) / million) h refl
