-- ===== src/AuthLimit/Row.antt =====
-- A row of auth_rate_limits and the statements of worker/db.ts on it. Times are seconds.
use ilist.Base.{
  ℕ, ◌+◌, ◌^◌, min, String, Bool, Option, none, some, ◌&&◌, ◌||◌, ltb, leb, is_text, if◌then◌else◌,
}

pub record AuthRateLimitRow : Type 0 where
  pub key_hash : String
  pub scope : String
  pub window_started_at : ℕ
  pub failure_count : ℕ
  pub blocked_until : ℕ
  pub reservation_token : Option String
  pub reservation_expires_at : ℕ
  pub updated_at : ℕ

-- what `reserveAuthRateLimitVerification` is given besides the key
pub record Reservation : Type 0 where
  pub scope : String
  pub token : String
  pub now : ℕ
  pub window_seconds : ℕ
  pub max_failures : ℕ
  pub reservation_seconds : ℕ

unfoldable pub window_over : ℕ → ℕ → AuthRateLimitRow → Bool
window_over now window_seconds row = leb (row.window_started_at + window_seconds) now

-- the WHERE clause of ON CONFLICT DO UPDATE
unfoldable pub may_reserve : Reservation → AuthRateLimitRow → Bool
unfolding window_over
may_reserve r row =
    leb row.reservation_expires_at r.now
    && (window_over r.now r.window_seconds row
        || (ltb row.failure_count r.max_failures && leb row.blocked_until r.now))

-- the SET clause of ON CONFLICT DO UPDATE
unfoldable pub reserved : Reservation → AuthRateLimitRow → AuthRateLimitRow
unfolding window_over
reserved r row = record row {
  scope = r.scope;
  window_started_at =
      if window_over r.now r.window_seconds row then r.now else row.window_started_at;
  failure_count = if window_over r.now r.window_seconds row then 0 else row.failure_count;
  blocked_until = if window_over r.now r.window_seconds row then 0 else row.blocked_until;
  reservation_token = some r.token;
  reservation_expires_at = r.now + r.reservation_seconds;
  updated_at = r.now;
}

-- the VALUES clause
unfoldable pub first_reserved : String → Reservation → AuthRateLimitRow
first_reserved key r = record {
  key_hash = key;
  scope = r.scope;
  window_started_at = r.now;
  failure_count = 0;
  blocked_until = 0;
  reservation_token = some r.token;
  reservation_expires_at = r.now + r.reservation_seconds;
  updated_at = r.now;
}

-- what `recordAuthRateLimitFailure` is given besides the key
pub record FailedAttempt : Type 0 where
  pub scope : String
  pub token : String
  pub now : ℕ
  pub window_seconds : ℕ
  pub max_backoff_seconds : ℕ

-- `1 << n` on 64 bits, where it is positive; SQLite gives a negative number at 63 and 0 above,
-- which block nobody
unfoldable pub shifted : ℕ → ℕ
shifted n = if ltb n 63 then 2 ^ n else 0

unfoldable pub backoff : ℕ → ℕ → ℕ
unfolding shifted
backoff max_backoff_seconds n = min max_backoff_seconds (shifted n)

unfoldable pub failed : FailedAttempt → AuthRateLimitRow → AuthRateLimitRow
unfolding window_over
failed f row = record row {
  scope = f.scope;
  window_started_at =
      if window_over f.now f.window_seconds row then f.now else row.window_started_at;
  failure_count = if window_over f.now f.window_seconds row then 1 else row.failure_count + 1;
  blocked_until =
      if window_over f.now f.window_seconds row
      then f.now + 1
      else f.now + backoff f.max_backoff_seconds row.failure_count;
  reservation_token = none;
  reservation_expires_at = 0;
  updated_at = f.now;
}

unfoldable pub released : AuthRateLimitRow → AuthRateLimitRow
released row = record row { reservation_token = none; reservation_expires_at = 0 }

abbrev pub has_token : String → AuthRateLimitRow → Bool
has_token token row = is_text row.reservation_token token
