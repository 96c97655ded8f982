-- ===== src/AuthLimit/Run.antt =====
-- The statements that worker/db.ts sends about one key of auth_rate_limits, as one data type and
-- run in any order on the key's row, which may be absent.
pub mod Leases
pub mod Locked
use ilist.Base.{ℕ, String, Option, none, some, List, [], ◌∷◌, if◌then◌else◌}
use ilist.AuthLimit.Row.{
  AuthRateLimitRow, Reservation, FailedAttempt, may_reserve, reserved, first_reserved, failed,
  released, has_token,
}

pub data Statement : Type 0 where
  reserve : Reservation → Statement
  record_failure : FailedAttempt → Statement
  -- with the time at which it is sent
  clear release : String → ℕ → Statement

unfoldable pub apply_present : Statement → AuthRateLimitRow → Option AuthRateLimitRow
apply_present (reserve r) row = some (if may_reserve r row then reserved r row else row)
apply_present (record_failure f) row = some (if has_token f.token row then failed f row else row)
apply_present (clear token now) row = if has_token token row then none else some row
apply_present (release token now) row = some (if has_token token row then released row else row)

unfoldable pub apply_absent : String → Statement → Option AuthRateLimitRow
apply_absent key (reserve r) = some (first_reserved key r)
apply_absent key (record_failure f) = none
apply_absent key (clear token now) = none
apply_absent key (release token now) = none

unfoldable pub apply : String → Statement → Option AuthRateLimitRow → Option AuthRateLimitRow
unfolding apply_present apply_absent
apply key s none = apply_absent key s
apply key s (some row) = apply_present s row

unfoldable pub run : String → List Statement → Option AuthRateLimitRow → Option AuthRateLimitRow
run key [] row = row
run key (s ∷ ss) row = run key ss (apply key s row)

abbrev pub time : Statement → ℕ
time (reserve r) = r.now
time (record_failure f) = f.now
time (clear token now) = now
time (release token now) = now
