-- ===== src/AuthLimit/Retry.antt =====
-- The waiting time that `assertAuthAllowed` of worker/auth-rate-limit.ts asks for.
use ilist.Base.{ℕ, ◌+◌, ◌-◌, max, true, ◌≡◌, ◌≤◌, arith, leb, if◌then◌else◌}
use ilist.AuthLimit.Row.{AuthRateLimitRow, Reservation, window_over, may_reserve}

-- `retryAt`
unfoldable pub retry_at : ℕ → ℕ → AuthRateLimitRow → ℕ
retry_at window_seconds max_failures row =
    max
      (max row.blocked_until
        (if leb max_failures row.failure_count then row.window_started_at + window_seconds else 0))
      row.reservation_expires_at

-- `Math.max(1, retryAt - now)`; where the difference is negative, both give 1
unfoldable pub retry_after : ℕ → ℕ → ℕ → AuthRateLimitRow → ℕ
unfolding retry_at
retry_after window_seconds max_failures now row =
    max 1 (retry_at window_seconds max_failures row - now)

-- The waiting time is enough: whatever the row of a key says, a reservation under the same policy
-- that is sent `retry_after` seconds after `now`, or later, is admitted if the row has not changed.
pub may_reserve-retry_after :
    (r : Reservation) (now : ℕ) (row : AuthRateLimitRow)
    → now + retry_after r.window_seconds r.max_failures now row ≤ r.now
    → may_reserve r row ≡ true
unfolding retry_after may_reserve window_over
may_reserve-retry_after r now row late = ground arith
