-- ===== src/AuthLimit/Service.antt =====
-- worker/auth-rate-limit.ts: the admission of password verifications, and their outcomes.
pub mod Lease
pub mod Acquire
pub mod Refused
pub mod Kept
pub mod Outcome
use ilist.Base.{
  ℕ, ◌+◌, ◌/◌, String, Bool, true, false, not, Option, none, some, List, [], ◌∷◌, ◌++◌, ◌&&◌, leb,
  text_eq, if◌then◌else◌,
}
use ilist.Base.Exec.{
  Exec, Outside, World, Result, ok, err, Failure, failure, http_error, rate_limited, pure, throw,
  lift, attempt, ◌>>=◌, ◌>>◌, date_now, random_uuid,
}
use ilist.AuthLimit.Row.{AuthRateLimitRow, Reservation, FailedAttempt}
use ilist.AuthLimit.Retry.{retry_after}
use ilist.AuthLimit.Store.{
  LimitTable, get_auth_rate_limit, reserve_auth_rate_limit_verification,
  record_auth_rate_limit_failure, clear_auth_rate_limit, release_auth_rate_limit_verification,
}

abbrev pub max_backoff_seconds : ℕ
max_backoff_seconds = 8

abbrev pub reservation_lifetime : ℕ
reservation_lifetime = 30

-- `now` is the clock that a policy may bring along, by the number of the outside event
pub record AuthRateLimitPolicy : Type 0 where
  pub max_failures : ℕ
  pub window_seconds : ℕ
  pub now : Option (ℕ → ℕ)
  pub client_ip : Option String

pub record AuthRateLimitContext : Type 0 where
  pub key_hash : String
  pub scope : String
  pub reservation_token : String
  pub policy : AuthRateLimitPolicy

pub record AuthRateLimitAttempt : Type 0 where
  pub scope : String
  pub subject : String
  pub policy : AuthRateLimitPolicy

-- `String.prototype.trim`, and the HMAC of scope, address and normalized subject
pub record Identity : Type 0 where
  pub trim : String → String
  pub rate_limit_key : String → String → String → String

abbrev pub Handler : Type 0 → Type 0
Handler A = Exec (World LimitTable (Unit {0})) A

-- the first of the two addresses that is not empty once trimmed
abbrev trimmed : Identity → Option String → String
trimmed i none = ""
trimmed i (some text) = i.trim text

-- `header` is `CF-Connecting-IP`
unfoldable pub client_ip : Identity → Option String → AuthRateLimitPolicy → Result String
client_ip i header policy =
    if not (text_eq (trimmed i header) "")
    then ok (trimmed i header)
    else (if not (text_eq (trimmed i policy.client_ip) "")
        then ok (trimmed i policy.client_ip)
        else err (http_error 500 "AUTH_CLIENT_IP_UNAVAILABLE"))

unfoldable pub validate_policy : AuthRateLimitPolicy → Result (Unit {0})
validate_policy policy =
    if leb 1 policy.max_failures && leb 1 policy.window_seconds
    then ok tt
    else err (failure "Invalid authentication rate-limit policy")

unfoldable pub reservation : AuthRateLimitPolicy → String → String → ℕ → Reservation
reservation policy scope token now = record {
  scope = scope;
  token = token;
  now = now;
  window_seconds = policy.window_seconds;
  max_failures = policy.max_failures;
  reservation_seconds = reservation_lifetime;
}

-- what `assertAuthAllowed` throws when its reservation is refused
unfoldable pub refusal : AuthRateLimitPolicy → ℕ → Option AuthRateLimitRow → Failure
refusal policy now none = rate_limited 1
refusal policy now (some state) =
    rate_limited (retry_after policy.window_seconds policy.max_failures now state)

module _ (o : Outside LimitTable) (i : Identity) (header : Option String) where
  unfoldable pub read_clock : Option (ℕ → ℕ) → Handler ℕ
  read_clock none = do now ← date_now o; pure (now / 1000)
  read_clock (some f) = λ w. (ok (f w.tick), record w { tick = w.tick + 1 })

  unfoldable pub now_seconds : AuthRateLimitPolicy → Handler ℕ
  unfolding read_clock
  now_seconds policy = read_clock policy.now

  unfoldable pub admitted :
      AuthRateLimitContext → ℕ → Option AuthRateLimitRow → Handler AuthRateLimitContext
  unfolding refusal
  admitted c now (some row) = pure c
  admitted c now none = do
    state ← get_auth_rate_limit o c.key_hash
    throw (refusal c.policy now state)

  unfoldable pub assert_auth_allowed :
      String → String → AuthRateLimitPolicy → Handler AuthRateLimitContext
  unfolding admitted
  assert_auth_allowed scope subject policy = do
    lift (validate_policy policy)
    ip ← lift (client_ip i header policy)
    now ← now_seconds policy
    token ← random_uuid o
    row ←
        reserve_auth_rate_limit_verification o (i.rate_limit_key scope ip subject)
          (reservation policy scope token now)
    admitted
        (record {
          key_hash = i.rate_limit_key scope ip subject;
          scope = scope;
          reservation_token = token;
          policy = policy;
        })
        now row

  unfoldable pub release_auth_reservation : AuthRateLimitContext → Handler Bool
  release_auth_reservation c = release_auth_rate_limit_verification o c.key_hash c.reservation_token

  unfoldable pub release_auth_reservation_safely : AuthRateLimitContext → Handler (Unit {0})
  unfolding release_auth_reservation
  release_auth_reservation_safely c = do _ ← attempt (release_auth_reservation c); pure tt

  -- one after the other; `Promise.all` leaves their order open
  unfoldable pub release_auth_reservations_safely : List AuthRateLimitContext → Handler (Unit {0})
  unfolding release_auth_reservation_safely
  release_auth_reservations_safely [] = pure tt
  release_auth_reservations_safely (c ∷ cs) = do
    release_auth_reservation_safely c
    release_auth_reservations_safely cs

  unfoldable pub release_and_throw : {A : Type 0} → List AuthRateLimitContext → Failure → Handler A
  unfolding release_auth_reservations_safely
  release_and_throw cs e = do release_auth_reservations_safely cs; throw e

  abbrev pub go_on :
      {A B : Type 0} → List AuthRateLimitContext → (A → Handler B) → Result A → Handler B
  go_on cs next (ok a) = next a
  go_on cs next (err e) = release_and_throw cs e

  unfoldable pub acquire_all :
      List AuthRateLimitAttempt → List AuthRateLimitContext → Handler (List AuthRateLimitContext)
  unfolding assert_auth_allowed release_and_throw
  acquire_all [] contexts = pure contexts
  acquire_all (a ∷ more) contexts = do
    outcome ← attempt (assert_auth_allowed a.scope a.subject a.policy)
    go_on contexts (λ c. acquire_all more (contexts ++ (c ∷ []))) outcome

  unfoldable pub assert_auth_allowed_all :
      List AuthRateLimitAttempt → Handler (List AuthRateLimitContext)
  unfolding acquire_all
  assert_auth_allowed_all [] =
      throw (failure "At least one authentication rate-limit attempt is required")
  assert_auth_allowed_all (a ∷ more) = acquire_all (a ∷ more) []

  unfoldable pub record_auth_failure : AuthRateLimitContext → Handler ℕ
  unfolding now_seconds
  record_auth_failure c = do
    now ← now_seconds c.policy
    record_auth_rate_limit_failure o c.key_hash (record {
      scope = c.scope;
      token = c.reservation_token;
      now = now;
      window_seconds = c.policy.window_seconds;
      max_backoff_seconds = max_backoff_seconds;
    })

  unfoldable pub clear_auth_failures : AuthRateLimitContext → Handler Bool
  clear_auth_failures c = clear_auth_rate_limit o c.key_hash c.reservation_token

  -- a failure to record releases that context and all later ones
  unfoldable pub record_auth_failures : List AuthRateLimitContext → Handler (Unit {0})
  unfolding record_auth_failure release_and_throw
  record_auth_failures [] = pure tt
  record_auth_failures (c ∷ cs) = do
    outcome ← attempt (record_auth_failure c)
    go_on (c ∷ cs) (λ _. record_auth_failures cs) outcome

  unfoldable pub release_and_return : {A : Type 0} → List AuthRateLimitContext → A → Handler A
  unfolding release_auth_reservations_safely
  release_and_return cs a = do release_auth_reservations_safely cs; pure a

  abbrev pub cleared_or_release : List AuthRateLimitContext → Handler Bool → Bool → Handler Bool
  cleared_or_release cs next true = next
  cleared_or_release cs next false = release_and_return cs false

  -- the `finally` releases the contexts from the first that was not cleared on
  unfoldable pub clear_auth_failure_contexts : List AuthRateLimitContext → Handler Bool
  unfolding clear_auth_failures release_and_throw release_and_return
  clear_auth_failure_contexts [] = pure true
  clear_auth_failure_contexts (c ∷ cs) = do
    outcome ← attempt (clear_auth_failures c)
    go_on (c ∷ cs) (cleared_or_release (c ∷ cs) (clear_auth_failure_contexts cs)) outcome
