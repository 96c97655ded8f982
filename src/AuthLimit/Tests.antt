-- ===== src/AuthLimit/Tests.antt =====
-- The theorems on the rate limit of passwords on small data: five failures in a minute, as for
-- the administrator's login.
use ilist.Base.{
  ℕ, ◌+◌, ◌≤◌, ◌<◌, String, Bool, true, false, Option, none, some, List, [], ◌∷◌, ◌≡◌, ◌≢◌, refl,
  arith, All, leb, ◌==◌,
}
use ilist.Base.{eq_iff}
use ilist.Base.Exec.{Outside, World, Result, ok}
use ilist.Base.Keeps.{Fair}
use mathlib.Core.List.Memᴰ.{head}
use ilist.AuthLimit.Row.{AuthRateLimitRow, Reservation, FailedAttempt, may_reserve, failed}
use ilist.AuthLimit.Run.{Statement, reserve, record_failure, clear, release, run}
use ilist.AuthLimit.Run.Leases.{run_reserved}
use ilist.AuthLimit.Run.Locked.{AreCounted, run-AreCounted, run_locked, run-failed}
use ilist.AuthLimit.Retry.{retry_at, retry_after, may_reserve-retry_after}
use ilist.AuthLimit.Store.{LimitTable}
use ilist.AuthLimit.Service.{
  AuthRateLimitPolicy, AuthRateLimitContext, AuthRateLimitAttempt, Identity, assert_auth_allowed,
  acquire_all, assert_auth_allowed_all, record_auth_failures, clear_auth_failure_contexts,
}
use ilist.AuthLimit.Service.Lease.{is_error, has_lease, IsFree, assert_auth_allowed-has_lease}
use ilist.AuthLimit.Service.Acquire.{assert_auth_allowed_all-IsFree}
use ilist.AuthLimit.Service.Refused.{throws, is_refusal_of_d1}
use ilist.AuthLimit.Service.Outcome.{
  record_auth_failures-IsFree, clear_auth_failure_contexts-IsFree,
}

abbrev held : AuthRateLimitRow
held = record {
  key_hash = "k";
  scope = "login";
  window_started_at = 100;
  failure_count = 2;
  blocked_until = 0;
  reservation_token = some "t1";
  reservation_expires_at = 140;
  updated_at = 110;
}

abbrev exhausted : AuthRateLimitRow
exhausted = record held { failure_count = 5; reservation_token = none; reservation_expires_at = 0 }

abbrev try_at : String → ℕ → Statement
try_at token now = reserve (record {
  scope = "login";
  token = token;
  now = now;
  window_seconds = 60;
  max_failures = 5;
  reservation_seconds = 30;
})

abbrev failure_at : String → ℕ → FailedAttempt
failure_at token now = record {
  scope = "login";
  token = token;
  now = now;
  window_seconds = 60;
  max_backoff_seconds = 8;
}

abbrev guesses : List Statement
guesses =
    try_at "t2" 120 ∷ record_failure (failure_at "t2" 121) ∷ release "t3" 121 ∷ clear "t3" 122 ∷ []

run_reserved_example : run "k" guesses (some held) ≡ some held
run_reserved_example = run_reserved "k" "t1" 140 guesses held (ground arith) refl refl

run-AreCounted_example : AreCounted 5 (run "k" guesses (some held))
run-AreCounted_example =
    run-AreCounted "k" 60 5 guesses (some held) (ground arith) (omega arith)
      (record { bounded = omega arith; room = λ e. omega arith })

run_locked_example : run "k" guesses (some exhausted) ≡ some exhausted
run_locked_example = run_locked "k" 60 5 guesses exhausted (ground arith) refl (omega arith)

run-failed_example :
    run "k" (record_failure (failure_at "t1" 119) ∷ guesses) (some held)
    ≡ some (failed (failure_at "t1" 119) held)
run-failed_example =
    run-failed "k" 5 (failure_at "t1" 119) guesses held refl (omega arith) (omega arith)
      (ground arith)

abbrev later : Reservation
later = record {
  scope = "login";
  token = "t4";
  now = 160;
  window_seconds = 60;
  max_failures = 5;
  reservation_seconds = 30;
}

may_reserve-retry_after_example : may_reserve later exhausted ≡ true
unfolding retry_after retry_at
may_reserve-retry_after_example = may_reserve-retry_after later 120 exhausted (omega arith)

abbrev policy : AuthRateLimitPolicy
policy = record { max_failures = 5; window_seconds = 60; now = none; client_ip = some "127.0.0.1" }

abbrev identity : Identity
identity = record { trim = λ text. text; rate_limit_key = λ scope ip subject. "k" }

abbrev outside : Outside LimitTable
outside = record {
  clock = λ n. 120000 + n;
  uuid = λ n. "t6";
  others = λ n t. t;
  db_fails = λ n. false;
}

abbrev world : List AuthRateLimitRow → World LimitTable (Unit {0})
world t = record { table = t; tick = 0; calls = [] }

abbrev context : AuthRateLimitContext
context = record { key_hash = "k"; scope = "login"; reservation_token = "t6"; policy = policy }

-- the first login of a client is admitted
admission :
    assert_auth_allowed outside identity none "login" "admin" policy (world [])
    ≡ (ok context, (assert_auth_allowed outside identity none "login" "admin" policy (world [])).1)
unfolding assert_auth_allowed ilist.Base.Exec.◌>>=◌ ilist.AuthLimit.Service.validate_policy
    ilist.AuthLimit.Service.client_ip ilist.AuthLimit.Service.now_seconds ilist.Base.Exec.date_now
    ilist.Base.Exec.random_uuid ilist.AuthLimit.Store.reserve_auth_rate_limit_verification
    ilist.Base.Exec.statement
admission = refl

assert_auth_allowed-has_lease_example :
    has_lease context
      (assert_auth_allowed outside identity none "login" "admin" policy (world [])).1.table
    ≡ true
assert_auth_allowed-has_lease_example =
    assert_auth_allowed-has_lease outside identity none "login" "admin" policy (world []) _ context
      admission

abbrev own : AuthRateLimitContext
own = record context { reservation_token = "t1" }

-- D1 refuses the second event alone, or the first one
abbrev refusing : ℕ → Outside LimitTable
refusing event = record outside { db_fails = λ n. n == event }

once : (event m n : ℕ) → (m == event) ≡ true → m < n → (n == event) ≡ false
once event m n e later = ground arith

own-Fair : (event : ℕ) → Fair (IsFree own) (refusing event)
own-Fair event = record { keeps = λ n t h. h }

context-Fair : Fair (IsFree context) (refusing 5)
context-Fair = record { keeps = λ n t h. h }

abbrev login : AuthRateLimitAttempt
login = record { scope = "login"; subject = "admin"; policy = policy }

-- the first attempt is admitted, and D1 refuses the reservation of the second
first_admission :
    assert_auth_allowed (refusing 5) identity none "login" "admin" policy (world []) ≡ (
      ok context,
      (assert_auth_allowed (refusing 5) identity none "login" "admin" policy (world [])).1,
    )
unfolding assert_auth_allowed ilist.Base.Exec.◌>>=◌ ilist.AuthLimit.Service.validate_policy
    ilist.AuthLimit.Service.client_ip ilist.AuthLimit.Service.now_seconds ilist.Base.Exec.date_now
    ilist.Base.Exec.random_uuid ilist.AuthLimit.Store.reserve_auth_rate_limit_verification
    ilist.Base.Exec.statement
first_admission = refl

refusal :
    throws is_refusal_of_d1
      (assert_auth_allowed_all (refusing 5) identity none (login ∷ login ∷ []) (world [])).0
    ≡ true
unfolding assert_auth_allowed_all acquire_all ilist.Base.Exec.◌>>=◌
    ilist.AuthLimit.Service.validate_policy ilist.AuthLimit.Service.client_ip
    ilist.AuthLimit.Service.now_seconds ilist.Base.Exec.date_now ilist.Base.Exec.random_uuid
    ilist.AuthLimit.Store.reserve_auth_rate_limit_verification ilist.Base.Exec.statement
    ilist.AuthLimit.Service.reservation ilist.AuthLimit.Row.first_reserved
    ilist.AuthLimit.Service.release_and_throw
    ilist.AuthLimit.Service.release_auth_reservations_safely
    ilist.AuthLimit.Service.release_auth_reservation_safely
refusal = refl

is_thrown :
    is_error (assert_auth_allowed_all (refusing 5) identity none (login ∷ login ∷ []) (world [])).0
    ≡ true
unfolding assert_auth_allowed_all acquire_all ilist.Base.Exec.◌>>=◌
    ilist.AuthLimit.Service.validate_policy ilist.AuthLimit.Service.client_ip
    ilist.AuthLimit.Service.now_seconds ilist.Base.Exec.date_now ilist.Base.Exec.random_uuid
    ilist.AuthLimit.Store.reserve_auth_rate_limit_verification ilist.Base.Exec.statement
    ilist.AuthLimit.Service.reservation ilist.AuthLimit.Row.first_reserved
    ilist.AuthLimit.Service.release_and_throw
    ilist.AuthLimit.Service.release_auth_reservations_safely
    ilist.AuthLimit.Service.release_auth_reservation_safely
is_thrown = refl

no_attempts : acquire_all (refusing 5) identity none [] [] (world []) ≡ (ok [], world [])
unfolding acquire_all
no_attempts = refl

assert_auth_allowed_all-IsFree_example :
    IsFree context
      (assert_auth_allowed_all (refusing 5) identity none (login ∷ login ∷ []) (world [])).1.table
assert_auth_allowed_all-IsFree_example =
    assert_auth_allowed_all-IsFree (refusing 5) identity none (once 5) context context-Fair []
      (login ∷ []) login [] (world []) (world []) _ no_attempts first_admission is_thrown
      (λ e. let no = refusal in absurd (cc))

-- the failure cannot be recorded, and the error is thrown on
thrown :
    is_error (record_auth_failures (refusing 1) identity none (own ∷ []) (world (held ∷ []))).0
    ≡ true
unfolding record_auth_failures ilist.AuthLimit.Service.record_auth_failure
    ilist.AuthLimit.Service.now_seconds ilist.Base.Exec.date_now ilist.Base.Exec.◌>>=◌
    ilist.AuthLimit.Store.record_auth_rate_limit_failure ilist.Base.Exec.statement
    ilist.AuthLimit.Service.release_and_throw
    ilist.AuthLimit.Service.release_auth_reservations_safely
    ilist.AuthLimit.Service.release_auth_reservation_safely
thrown = refl

record_auth_failures-IsFree_example :
    IsFree own
      (record_auth_failures (refusing 1) identity none (own ∷ []) (world (held ∷ []))).1.table
record_auth_failures-IsFree_example =
    record_auth_failures-IsFree (refusing 1) identity none (once 1) own (own-Fair 1) (own ∷ [])
      (world (held ∷ [])) (head refl)

-- the deletion is refused, and the error is thrown on
not_false :
    (clear_auth_failure_contexts (refusing 0) identity none (own ∷ []) (world (held ∷ []))).0
      ≡ ok false
    → (n : ℕ) → (refusing 0).db_fails n ≡ false
unfolding clear_auth_failure_contexts ilist.AuthLimit.Service.clear_auth_failures
    ilist.AuthLimit.Store.clear_auth_rate_limit ilist.Base.Exec.statement ilist.Base.Exec.◌>>=◌
    ilist.AuthLimit.Service.release_and_throw
    ilist.AuthLimit.Service.release_auth_reservations_safely
    ilist.AuthLimit.Service.release_auth_reservation_safely
not_false e n = cc

clear_auth_failure_contexts-IsFree_example :
    IsFree own
      (clear_auth_failure_contexts
        (refusing 0)
        identity
        none
        (own ∷ [])
        (world (held ∷ []))).1.table
clear_auth_failure_contexts-IsFree_example =
    clear_auth_failure_contexts-IsFree (refusing 0) identity none (once 0) own (own-Fair 0)
      (own ∷ []) (world (held ∷ [])) (head refl) not_false
