-- ===== src/AuthLimit/Service/Refused.antt =====
-- What a function leaves to D1 when it throws because D1 refused a statement.
use ilist.Base.{
  ℕ, ◌<◌, Bool, text_eq, leb, ◌&&◌, true, false, String, Option, none, some, ◌≡◌, refl, inl, inr,
  arith, Bool-cases,
}
use ilist.Base.Exec.{
  Outside, World, Result, ok, err, Failure, failure, lift, throw, pure, continue, ◌>>=◌, statement,
  date_now, random_uuid,
}
use ilist.AuthLimit.Row.{AuthRateLimitRow}
use ilist.AuthLimit.Store.{
  LimitTable, get_auth_rate_limit, reserve_auth_rate_limit_verification,
  record_auth_rate_limit_failure, clear_auth_rate_limit,
}
use ilist.AuthLimit.Service.{
  AuthRateLimitContext, Identity, Handler, read_clock, now_seconds, record_auth_failure,
  clear_auth_failures, validate_policy, client_ip, admitted, assert_auth_allowed, refusal,
  AuthRateLimitPolicy,
}
use ilist.AuthLimit.Service.Lease.{IsUp}

abbrev pub throws : {A : Type 0} → (Failure → Bool) → Result A → Bool
throws test (ok a) = false
throws test (err e) = test e

-- the error of a statement that D1 refuses
abbrev pub is_refusal_of_d1 : Failure → Bool
is_refusal_of_d1 (failure text) = text_eq text "D1_ERROR"
is_refusal_of_d1 _ = false

-- once `m` has thrown such an error, D1 refuses no statement
pub record LeavesUp (o : Outside LimitTable) (test : Failure → Bool) {A : Type 0} (m : Handler A)
    : Type 0 where
  pub at : (w : World LimitTable (Unit {0})) → throws test (m w).0 ≡ true → IsUp o (m w).1

module _ (o : Outside LimitTable) (test : Failure → Bool) where
  LeavesUp-pure : {A : Type 0} (a : A) → LeavesUp o test (pure a)
  LeavesUp-pure a = record { at = λ w e. absurd (ground arith) }

  LeavesUp-lift : {A : Type 0} (r : Result A) → throws test r ≡ false → LeavesUp o test (lift r)
  LeavesUp-lift r other = record { at = λ w e. absurd (cc) }

  continue-LeavesUp :
      {A B : Type 0} (f : A → Handler B) (r : Result A × World LimitTable (Unit {0}))
      → ((a : A) → LeavesUp o test (f a))
      → (throws test r.0 ≡ true → IsUp o r.1)
      → throws test (continue f r).0 ≡ true
      → IsUp o (continue f r).1
  continue-LeavesUp f (ok a, w) k h e = (k a).at w e
  continue-LeavesUp f (err x, w) k h e = h e

  LeavesUp-bind :
      {A B : Type 0} (m : Handler A) (f : A → Handler B)
      → LeavesUp o test m
      → ((a : A) → LeavesUp o test (f a))
      → LeavesUp o test (m >>= f)
  unfolding ◌>>=◌
  LeavesUp-bind m f k l = record { at = λ w e. continue-LeavesUp f (m w) l (k.at w) e }

  module _ (once : (m n : ℕ) → o.db_fails m ≡ true → m < n → o.db_fails n ≡ false) where
    LeavesUp-statement :
        {A : Type 0} (f : LimitTable → A × LimitTable) → LeavesUp o test (statement o f)
    unfolding statement
    LeavesUp-statement f = record {
      at = λ w e. elim (Bool-cases (o.db_fails w.tick)) [
        | inl down ↦
            λ n later. let rest = rw down at later in once w.tick n down (omega (arith, rest))
        | inr up ↦ let no = rw up at e in absurd (ground arith)
      ];
    }

    LeavesUp-read_clock :
        (i : Identity) (header : Option String) (clock : Option (ℕ → ℕ))
        → LeavesUp o test (read_clock o i header clock)
    unfolding read_clock date_now ◌>>=◌
    LeavesUp-read_clock i header none = record { at = λ w e. absurd (ground arith) }
    LeavesUp-read_clock i header (some f) = record { at = λ w e. absurd (ground arith) }

    pub LeavesUp-record_auth_failure :
        (i : Identity) (header : Option String) (c : AuthRateLimitContext)
        → LeavesUp o test (record_auth_failure o i header c)
    unfolding record_auth_failure now_seconds record_auth_rate_limit_failure
    LeavesUp-record_auth_failure i header c =
        LeavesUp-bind _ _ (LeavesUp-read_clock i header c.policy.now)
          (λ now. LeavesUp-bind _ _ (LeavesUp-statement _) (λ n. LeavesUp-pure _))

    pub LeavesUp-clear_auth_failures :
        (i : Identity) (header : Option String) (c : AuthRateLimitContext)
        → LeavesUp o test (clear_auth_failures o i header c)
    unfolding clear_auth_failures clear_auth_rate_limit
    LeavesUp-clear_auth_failures i header c =
        LeavesUp-bind _ _ (LeavesUp-statement _) (λ n. LeavesUp-pure _)

-- the errors of the limit itself are none of D1
module _ (o : Outside LimitTable)
    (once : (m n : ℕ) → o.db_fails m ≡ true → m < n → o.db_fails n ≡ false) (i : Identity)
    (header : Option String) where
  throws-validate_policy :
      (policy : AuthRateLimitPolicy) → throws is_refusal_of_d1 (validate_policy policy) ≡ false
  unfolding validate_policy
  throws-validate_policy policy =
      elim (Bool-cases (leb 1 policy.max_failures && leb 1 policy.window_seconds)) [
        | inl fits ↦ rw fits refl
        | inr wrong ↦ rw wrong refl
      ]

  throws-client_ip :
      (policy : AuthRateLimitPolicy) → throws is_refusal_of_d1 (client_ip i header policy) ≡ false
  unfolding client_ip
  throws-client_ip policy = ground arith

  LeavesUp-refusal :
      (policy : AuthRateLimitPolicy) (now : ℕ) (row : Option AuthRateLimitRow)
      → LeavesUp o is_refusal_of_d1 {A = AuthRateLimitContext} (throw (refusal policy now row))
  unfolding refusal
  LeavesUp-refusal policy now none = record { at = λ w e. cc }
  LeavesUp-refusal policy now (some row) = record { at = λ w e. cc }

  LeavesUp-admitted :
      (c : AuthRateLimitContext) (now : ℕ) (row : Option AuthRateLimitRow)
      → LeavesUp o is_refusal_of_d1 (admitted o i header c now row)
  unfolding admitted get_auth_rate_limit
  LeavesUp-admitted c now (some row) = LeavesUp-pure o is_refusal_of_d1 c
  LeavesUp-admitted c now none =
      LeavesUp-bind o is_refusal_of_d1 _ _ (LeavesUp-statement o is_refusal_of_d1 once _)
        (λ state. LeavesUp-refusal c.policy now state)

  LeavesUp-random_uuid : LeavesUp o is_refusal_of_d1 (random_uuid o)
  unfolding random_uuid
  LeavesUp-random_uuid = record { at = λ w e. cc }

  pub LeavesUp-assert_auth_allowed :
      (scope subject : String) (policy : AuthRateLimitPolicy)
      → LeavesUp o is_refusal_of_d1 (assert_auth_allowed o i header scope subject policy)
  unfolding assert_auth_allowed now_seconds reserve_auth_rate_limit_verification
  LeavesUp-assert_auth_allowed scope subject policy =
      LeavesUp-bind o is_refusal_of_d1 _ _
        (LeavesUp-lift o is_refusal_of_d1 _ (throws-validate_policy policy))
        (λ valid.
          LeavesUp-bind o is_refusal_of_d1 _ _
            (LeavesUp-lift o is_refusal_of_d1 _ (throws-client_ip policy))
            (λ ip.
              LeavesUp-bind o is_refusal_of_d1 _ _
                (LeavesUp-read_clock o is_refusal_of_d1 once i header policy.now)
                (λ now. LeavesUp-bind o is_refusal_of_d1 _ _ LeavesUp-random_uuid (λ token.
                  LeavesUp-bind o is_refusal_of_d1 _ _
                    (LeavesUp-statement o is_refusal_of_d1 once _)
                    (λ row. LeavesUp-admitted _ now row)))))
