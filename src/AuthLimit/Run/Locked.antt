-- ===== src/AuthLimit/Run/Locked.antt =====
-- The count of failures of a key, and the times at which it is locked.
use ilist.Base.{
  ℕ, ◌+◌, ◌<◌, ◌≤◌, ◌^◌, min, String, true, Option, none, some, is_some, List, [], ◌∷◌, ◌≡◌, refl,
  arith, All,
}
use ilist.AuthLimit.Row.{
  AuthRateLimitRow, FailedAttempt, window_over, may_reserve, reserved, first_reserved, shifted,
  backoff, failed, released, has_token,
}
use ilist.AuthLimit.Run.{
  Statement, reserve, record_failure, clear, release, apply_present, apply_absent, apply, run, time,
}

-- all statements of one key share its policy
abbrev pub UnderPolicy : ℕ → ℕ → Statement → Type 0
UnderPolicy window max (reserve r) = (r.window_seconds ≡ window) × (r.max_failures ≡ max)
UnderPolicy window max (record_failure f) = f.window_seconds ≡ window
UnderPolicy window max _ = Unit {0}

-- who holds a reservation may still fail once
pub record IsCounted (max : ℕ) (row : AuthRateLimitRow) : Type 0 where
  pub bounded : row.failure_count ≤ max
  pub room : is_some row.reservation_token ≡ true → row.failure_count < max

abbrev pub AreCounted : ℕ → Option AuthRateLimitRow → Type 0
AreCounted max none = Unit {0}
AreCounted max (some row) = IsCounted max row

apply-AreCounted :
    (key : String) (window max : ℕ) (s : Statement) (row : Option AuthRateLimitRow)
    → UnderPolicy window max s
    → 0 < max
    → AreCounted max row
    → AreCounted max (apply key s row)
unfolding apply apply_present apply_absent may_reserve reserved first_reserved failed released
    window_over
apply-AreCounted key window max (reserve r) none p pos h = ground arith
apply-AreCounted key window max (record_failure f) none p pos h = tt
apply-AreCounted key window max (clear t now) none p pos h = tt
apply-AreCounted key window max (release t now) none p pos h = tt
apply-AreCounted key window max (reserve r) (some row) p pos h = ground arith
apply-AreCounted key window max (record_failure f) (some row) p pos h = ground arith
apply-AreCounted key window max (clear t now) (some row) p pos h = ground arith
apply-AreCounted key window max (release t now) (some row) p pos h = ground arith

-- The failures counted for a key never exceed the limit, in any run of statements under one policy
-- with a limit above 0, if they do not exceed it before the run and are below it while a
-- verification is reserved.
pub run-AreCounted :
    (key : String) (window max : ℕ) (ss : List Statement) (row : Option AuthRateLimitRow)
    → All (UnderPolicy window max) ss
    → 0 < max
    → AreCounted max row
    → AreCounted max (run key ss row)
unfolding run
run-AreCounted key window max [] row p pos h = h
run-AreCounted key window max (s ∷ ss) row (p, more) pos h =
    run-AreCounted key window max ss (apply key s row) more pos
      (apply-AreCounted key window max s row p pos h)

-- under the policy, and before the window ends
abbrev pub IsWithin : ℕ → ℕ → ℕ → Statement → Type 0
IsWithin window max end s = UnderPolicy window max s × (time s < end)

apply_present_locked :
    (window max : ℕ) (s : Statement) (row : AuthRateLimitRow)
    → IsWithin window max (row.window_started_at + window) s
    → row.reservation_token ≡ none
    → max ≤ row.failure_count
    → apply_present s row ≡ some row
unfolding apply_present may_reserve window_over
apply_present_locked window max (reserve r) row p e h = ground arith
apply_present_locked window max (record_failure f) row p e h = ground arith
apply_present_locked window max (clear t now) row p e h = ground arith
apply_present_locked window max (release t now) row p e h = ground arith

-- A key that reached the limit of failures, with no verification reserved, is locked until its
-- window ends: no statements under that policy that are sent before, in any number and order,
-- change its row.
pub run_locked :
    (key : String) (window max : ℕ) (ss : List Statement) (row : AuthRateLimitRow)
    → All (IsWithin window max (row.window_started_at + window)) ss
    → row.reservation_token ≡ none
    → max ≤ row.failure_count
    → run key ss (some row) ≡ some row
unfolding run apply
run_locked key window max [] row p e h = refl
run_locked key window max (s ∷ ss) row (p, more) e h =
    rw (apply_present_locked window max s row p e h) (run_locked key window max ss row more e h)

-- sent while the row is blocked, in its window
abbrev pub IsTooEarly : ℕ → ℕ → AuthRateLimitRow → Statement → Type 0
IsTooEarly window max row s =
    IsWithin window max (row.window_started_at + window) s × (time s < row.blocked_until)

apply_present_blocked :
    (window max : ℕ) (s : Statement) (row : AuthRateLimitRow)
    → IsTooEarly window max row s
    → row.reservation_token ≡ none
    → apply_present s row ≡ some row
unfolding apply_present may_reserve window_over
apply_present_blocked window max (reserve r) row p e = ground arith
apply_present_blocked window max (record_failure f) row p e = ground arith
apply_present_blocked window max (clear t now) row p e = ground arith
apply_present_blocked window max (release t now) row p e = ground arith

run_blocked :
    (key : String) (window max : ℕ) (ss : List Statement) (row : AuthRateLimitRow)
    → All (IsTooEarly window max row) ss
    → row.reservation_token ≡ none
    → run key ss (some row) ≡ some row
unfolding run apply
run_blocked key window max [] row p e = refl
run_blocked key window max (s ∷ ss) row (p, more) e =
    rw (apply_present_blocked window max s row p e) (run_blocked key window max ss row more e)

failed-free : (f : FailedAttempt) (row : AuthRateLimitRow) → (failed f row).reservation_token ≡ none
unfolding failed
failed-free f row = refl

failed-backoff :
    (f : FailedAttempt) (row : AuthRateLimitRow)
    → f.now < row.window_started_at + f.window_seconds
    → row.failure_count < 63
    → (failed f row).blocked_until ≡ f.now + min f.max_backoff_seconds (2 ^ row.failure_count)
unfolding failed window_over backoff shifted
failed-backoff f row e small = ground arith

failed-window :
    (f : FailedAttempt) (row : AuthRateLimitRow)
    → f.now < row.window_started_at + f.window_seconds
    → (failed f row).window_started_at ≡ row.window_started_at
unfolding failed window_over
failed-window f row e = ground arith

-- sent during the backoff after the failure `f`, in the window of `row`
abbrev pub IsTooSoon : FailedAttempt → ℕ → AuthRateLimitRow → Statement → Type 0
IsTooSoon f max row s =
    IsWithin f.window_seconds max (row.window_started_at + f.window_seconds) s
    × (time s < f.now + min f.max_backoff_seconds (2 ^ row.failure_count))

IsTooEarly-of_IsTooSoon :
    (f : FailedAttempt) (max : ℕ) (row : AuthRateLimitRow) (ss : List Statement)
    → f.now < row.window_started_at + f.window_seconds
    → row.failure_count < 63
    → All (IsTooSoon f max row) ss
    → All (IsTooEarly f.window_seconds max (failed f row)) ss
IsTooEarly-of_IsTooSoon f max row [] e small p = tt
IsTooEarly-of_IsTooSoon f max row (s ∷ ss) e small (((policy, inside), soon), more) = (
  ((policy, rw (failed-window f row e) inside), rw (failed-backoff f row e small) soon),
  IsTooEarly-of_IsTooSoon f max row ss e small more,
)

-- The backoff doubles with each failure: after the holder of the reservation has recorded a
-- failure within the window, on top of `k` earlier ones with `k` below 63, no statements under
-- that policy that are sent less than min(max_backoff_seconds, 2 ^ k) seconds later and before the
-- window ends change the row.
pub run-failed :
    (key : String) (max : ℕ) (f : FailedAttempt) (ss : List Statement) (row : AuthRateLimitRow)
    → has_token f.token row ≡ true
    → f.now < row.window_started_at + f.window_seconds
    → row.failure_count < 63
    → All (IsTooSoon f max row) ss
    → run key (record_failure f ∷ ss) (some row) ≡ some (failed f row)
unfolding run apply apply_present
run-failed key max f ss row h e small p = rw h (
    run_blocked key f.window_seconds max ss (failed f row)
      (IsTooEarly-of_IsTooSoon f max row ss e small p) (failed-free f row))
