-- ===== src/AuthLimit/Service/Outcome.antt =====
-- The outcomes of a password verification in worker/auth-rate-limit.ts, and its leases.
use ilist.Base.{
  ℕ, String, Bool, true, false, Option, List, [], ◌∷◌, ◌≡◌, ◌<◌, refl, subst, sym, ap, arith, inl,
  inr, Bool-cases,
}
use ilist.Base.Exec.{Outside, World, Result, ok, err, pure, continue, ◌>>=◌, statement}
use ilist.Base.Keeps.{Fair, Keeps-pure}
use mathlib.Core.List.{Memᴰ}
use mathlib.Core.List.Memᴰ.{head, tail}
use ilist.AuthLimit.Row.{FailedAttempt}
use ilist.AuthLimit.Store.{
  LimitTable, record_auth_rate_limit_failure, clear_auth_rate_limit, fail_where,
}
use ilist.AuthLimit.Service.{
  AuthRateLimitContext, Identity, Handler, now_seconds, read_clock, record_auth_failure,
  record_auth_failures, clear_auth_failures, clear_auth_failure_contexts, release_and_return, go_on,
  cleared_or_release,
}
use ilist.AuthLimit.Service.Lease.{
  IsUp, is_error, IsFree, deleted_own, failed_own, continue-IsFree, releases_safely-IsFree,
  release_and_throw-IsFree,
}
use ilist.AuthLimit.Service.Kept.{Keeps-record_auth_failures, Keeps-clear_auth_failure_contexts}
use ilist.AuthLimit.Service.Acquire.{release_and_return_ok}
use ilist.AuthLimit.Service.Refused.{LeavesUp-record_auth_failure, LeavesUp-clear_auth_failures}

module _ (o : Outside LimitTable) (i : Identity) (header : Option String)
    (once : (m n : ℕ) → o.db_fails m ≡ true → m < n → o.db_fails n ≡ false)
    (c : AuthRateLimitContext) (fair : Fair (IsFree c) o) where
  -- what `m` leaves when it returns
  returns_then :
      {A B : Type 0} (f : A → Handler B) (r : Result A × World LimitTable (Unit {0}))
      → ((a : A) → is_error (f a r.1).0 ≡ false → IsFree c (f a r.1).1.table)
      → is_error (continue f r).0 ≡ false
      → IsFree c (continue f r).1.table
  returns_then f (ok a, w) k e = k a e
  returns_then f (err x, w) k e = cc

  fail_own :
      (a : FailedAttempt) (w : World LimitTable (Unit {0}))
      → a.token ≡ c.reservation_token
      → is_error (record_auth_rate_limit_failure o c.key_hash a w).0 ≡ false
      → IsFree c (record_auth_rate_limit_failure o c.key_hash a w).1.table
  unfolding record_auth_rate_limit_failure fail_where statement ◌>>=◌ ilist.AuthLimit.Row.failed
  fail_own a w same e = elim (Bool-cases (o.db_fails w.tick)) [
    | inl down ↦ let no = rw down at e in absurd (ground arith)
    | inr up ↦ rw (up, same) (failed_own c a (o.others w.tick w.table))
  ]

  record_auth_failure-IsFree :
      (w : World LimitTable (Unit {0}))
      → is_error (record_auth_failure o i header c w).0 ≡ false
      → IsFree c (record_auth_failure o i header c w).1.table
  unfolding record_auth_failure now_seconds ◌>>=◌
  record_auth_failure-IsFree w e =
      returns_then _ (read_clock o i header c.policy.now w) (λ now. fail_own _ _ refl) e

  -- what follows an attempt on one of the contexts
  go_on-IsFree :
      {A B : Type 0} (cs : List AuthRateLimitContext) (next : A → Handler B)
      (r : Result A × World LimitTable (Unit {0}))
      → Memᴰ c cs
      → (is_error r.0 ≡ true → IsUp o r.1)
      → ((a : A) → r.0 ≡ ok a → IsFree c (next a r.1).1.table)
      → IsFree c (go_on o i header cs next r.0 r.1).1.table
  go_on-IsFree cs next (ok a, w) m up k = k a refl
  go_on-IsFree {A} {B} cs next (err e, w) m up k =
      release_and_throw-IsFree o i header c fair B cs e w (up refl) m

  record_step :
      (d : AuthRateLimitContext) (cs : List AuthRateLimitContext) (w : World LimitTable (Unit {0}))
      → Memᴰ c (d ∷ cs)
      → (is_error (record_auth_failure o i header d w).0 ≡ false
          → IsFree c
              (record_auth_failures o i header cs (record_auth_failure o i header d w).1).1.table)
      → IsFree c (record_auth_failures o i header (d ∷ cs) w).1.table
  unfolding record_auth_failures ◌>>=◌
  record_step d cs w m k =
      go_on-IsFree (d ∷ cs) (λ _. record_auth_failures o i header cs)
        (record_auth_failure o i header d w) m
        ((LeavesUp-record_auth_failure o (λ e. true) once i header d).at w)
        (λ n e. k (ap is_error e))

  -- Whether `recordAuthFailures` returns or throws, none of its contexts holds a lease afterwards,
  -- if D1 refuses no statement after one that it has refused, and no other request writes that
  -- token.
  pub record_auth_failures-IsFree :
      (cs : List AuthRateLimitContext) (w : World LimitTable (Unit {0}))
      → Memᴰ c cs
      → IsFree c (record_auth_failures o i header cs w).1.table
  record_auth_failures-IsFree [] w m = elim m [ ]
  record_auth_failures-IsFree (d ∷ cs) w (head e) = record_step d cs w (head e) (λ done.
      (Keeps-record_auth_failures o i header c fair cs).at _ (
        subst (λ d. IsFree c (record_auth_failure o i header d w).1.table) e
          (record_auth_failure-IsFree w
            (subst (λ d. is_error (record_auth_failure o i header d w).0 ≡ false) (sym e) done))))
  record_auth_failures-IsFree (d ∷ cs) w (tail m) =
      record_step d cs w (tail m) (λ done. record_auth_failures-IsFree cs _ m)

  clear_auth_failures-IsFree :
      (w : World LimitTable (Unit {0}))
      → is_error (clear_auth_failures o i header c w).0 ≡ false
      → IsFree c (clear_auth_failures o i header c w).1.table
  unfolding clear_auth_failures clear_auth_rate_limit statement ◌>>=◌
  clear_auth_failures-IsFree w e = elim (Bool-cases (o.db_fails w.tick)) [
    | inl down ↦ let no = rw down at e in absurd (ground arith)
    | inr up ↦ rw up (deleted_own c (o.others w.tick w.table))
  ]

  release_and_return-IsFree :
      {A : Type 0} (cs : List AuthRateLimitContext) (a : A) (w : World LimitTable (Unit {0}))
      → IsUp o w
      → Memᴰ c cs
      → IsFree c (release_and_return o i header cs a w).1.table
  unfolding release_and_return ◌>>=◌
  release_and_return-IsFree cs a w up m =
      continue-IsFree c (λ _. pure a) _ (λ _. Keeps-pure a)
        (releases_safely-IsFree o i header c fair cs w up m)

  -- what follows the removal of one of the contexts
  clear_go_on :
      (cs : List AuthRateLimitContext) (next : Handler Bool)
      (r : Result Bool × World LimitTable (Unit {0}))
      → Memᴰ c cs
      → (is_error r.0 ≡ true → IsUp o r.1)
      → ((go_on o i header cs (cleared_or_release o i header cs next) r.0 r.1).0 ≡ ok false
          → (n : ℕ) → o.db_fails n ≡ false)
      → (is_error r.0 ≡ false
          → ((next r.1).0 ≡ ok false → (n : ℕ) → o.db_fails n ≡ false)
          → IsFree c (next r.1).1.table)
      → IsFree c (go_on o i header cs (cleared_or_release o i header cs next) r.0 r.1).1.table
  clear_go_on cs next (ok true, w) m refused up k = k refl up
  clear_go_on cs next (ok false, w) m refused up k =
      release_and_return-IsFree cs false w
        (λ n later. up (release_and_return_ok o i header cs false w) n) m
  clear_go_on cs next (err e, w) m refused up k =
      release_and_throw-IsFree o i header c fair Bool cs e w (refused refl) m

  clear_step :
      (d : AuthRateLimitContext) (cs : List AuthRateLimitContext) (w : World LimitTable (Unit {0}))
      → Memᴰ c (d ∷ cs)
      → ((clear_auth_failure_contexts o i header (d ∷ cs) w).0 ≡ ok false
          → (n : ℕ) → o.db_fails n ≡ false)
      → (is_error (clear_auth_failures o i header d w).0 ≡ false
          → ((clear_auth_failure_contexts o i header cs (clear_auth_failures o i header d w).1).0
                ≡ ok false
              → (n : ℕ) → o.db_fails n ≡ false)
          → IsFree c
              (clear_auth_failure_contexts o i header cs
                (clear_auth_failures o i header d w).1).1.table)
      → IsFree c (clear_auth_failure_contexts o i header (d ∷ cs) w).1.table
  unfolding clear_auth_failure_contexts ◌>>=◌
  clear_step d cs w m up k =
      clear_go_on (d ∷ cs) (clear_auth_failure_contexts o i header cs)
        (clear_auth_failures o i header d w) m
        ((LeavesUp-clear_auth_failures o (λ e. true) once i header d).at w) up k

  -- Whether `clearAuthFailureContexts` returns true, returns false or throws, none of its contexts
  -- holds a lease afterwards, if D1 refuses no statement after one that it has refused, and none at
  -- all where false is returned, and no other request writes that token.
  pub clear_auth_failure_contexts-IsFree :
      (cs : List AuthRateLimitContext) (w : World LimitTable (Unit {0}))
      → Memᴰ c cs
      → ((clear_auth_failure_contexts o i header cs w).0 ≡ ok false
          → (n : ℕ) → o.db_fails n ≡ false)
      → IsFree c (clear_auth_failure_contexts o i header cs w).1.table
  clear_auth_failure_contexts-IsFree [] w m up = elim m [ ]
  clear_auth_failure_contexts-IsFree (d ∷ cs) w (head e) up =
      clear_step d cs w (head e) up (λ done _.
        (Keeps-clear_auth_failure_contexts o i header c fair cs).at _ (
          subst (λ d. IsFree c (clear_auth_failures o i header d w).1.table) e
            (clear_auth_failures-IsFree w
              (subst (λ d. is_error (clear_auth_failures o i header d w).0 ≡ false) (sym e) done))))
  clear_auth_failure_contexts-IsFree (d ∷ cs) w (tail m) up =
      clear_step d cs w (tail m) up (λ done rest. clear_auth_failure_contexts-IsFree cs _ m rest)
