-- ===== src/AuthLimit/Service/Kept.antt =====
-- The functions on the outcomes of a verification give no lease to a context that has none.
use ilist.Base.{ℕ, String, Bool, true, false, Option, none, some, List, [], ◌∷◌}
use ilist.Base.Exec.{Outside, Result, ok, err, Failure}
use ilist.Base.Keeps.{
  Keeps, Fair, Keeps-pure, Keeps-throw, Keeps-attempt, Keeps-bind, Keeps-statement, Keeps-date_now,
}
use ilist.AuthLimit.Store.{
  LimitTable, record_auth_rate_limit_failure, clear_auth_rate_limit, fail_where,
}
use ilist.AuthLimit.Service.{
  AuthRateLimitContext, Identity, Handler, now_seconds, read_clock, record_auth_failure,
  record_auth_failures, clear_auth_failures, clear_auth_failure_contexts, release_and_throw,
  release_and_return, go_on, cleared_or_release,
}
use ilist.AuthLimit.Service.Lease.{IsFree, deleted-IsFree, failed-IsFree, Keeps-releases_safely}

module _ (o : Outside LimitTable) (i : Identity) (header : Option String) (c : AuthRateLimitContext)
    (fair : Fair (IsFree c) o) where
  Keeps-release_and_throw :
      {A : Type 0} (cs : List AuthRateLimitContext) (e : Failure)
      → Keeps (IsFree c) (release_and_throw o i header {A = A} cs e)
  unfolding release_and_throw
  Keeps-release_and_throw cs e =
      Keeps-bind _ _ (Keeps-releases_safely o i header c fair cs) (λ _. Keeps-throw e)

  Keeps-release_and_return :
      {A : Type 0} (cs : List AuthRateLimitContext) (a : A)
      → Keeps (IsFree c) (release_and_return o i header cs a)
  unfolding release_and_return
  Keeps-release_and_return cs a =
      Keeps-bind _ _ (Keeps-releases_safely o i header c fair cs) (λ _. Keeps-pure a)

  Keeps-go_on :
      {A B : Type 0} (cs : List AuthRateLimitContext) (next : A → Handler B) (r : Result A)
      → ((a : A) → Keeps (IsFree c) (next a))
      → Keeps (IsFree c) (go_on o i header cs next r)
  Keeps-go_on cs next (ok a) k = k a
  Keeps-go_on cs next (err e) k = Keeps-release_and_throw cs e

  Keeps-read_clock : (clock : Option (ℕ → ℕ)) → Keeps (IsFree c) (read_clock o i header clock)
  unfolding read_clock
  Keeps-read_clock none = Keeps-bind _ _ (Keeps-date_now o) (λ n. Keeps-pure _)
  Keeps-read_clock (some f) = record { at = λ w h. h }

  Keeps-record_auth_failure :
      (d : AuthRateLimitContext) → Keeps (IsFree c) (record_auth_failure o i header d)
  unfolding record_auth_failure now_seconds record_auth_rate_limit_failure fail_where
  Keeps-record_auth_failure d = Keeps-bind _ _ (Keeps-read_clock d.policy.now) (λ now.
      Keeps-bind _ _ (Keeps-statement o _ fair (λ t h. failed-IsFree c d _ t h))
        (λ n. Keeps-pure _))

  pub Keeps-record_auth_failures :
      (cs : List AuthRateLimitContext) → Keeps (IsFree c) (record_auth_failures o i header cs)
  unfolding record_auth_failures
  Keeps-record_auth_failures [] = Keeps-pure tt
  Keeps-record_auth_failures (d ∷ cs) =
      Keeps-bind _ _ (Keeps-attempt _ (Keeps-record_auth_failure d))
        (λ r. Keeps-go_on (d ∷ cs) _ r (λ _. Keeps-record_auth_failures cs))

  Keeps-clear_auth_failures :
      (d : AuthRateLimitContext) → Keeps (IsFree c) (clear_auth_failures o i header d)
  unfolding clear_auth_failures clear_auth_rate_limit
  Keeps-clear_auth_failures d =
      Keeps-bind _ _ (Keeps-statement o _ fair (λ t h. deleted-IsFree c d t h)) (λ n. Keeps-pure _)

  Keeps-cleared_or_release :
      (cs : List AuthRateLimitContext) (next : Handler Bool) (b : Bool)
      → Keeps (IsFree c) next
      → Keeps (IsFree c) (cleared_or_release o i header cs next b)
  Keeps-cleared_or_release cs next true k = k
  Keeps-cleared_or_release cs next false k = Keeps-release_and_return cs false

  pub Keeps-clear_auth_failure_contexts :
      (cs : List AuthRateLimitContext)
      → Keeps (IsFree c) (clear_auth_failure_contexts o i header cs)
  unfolding clear_auth_failure_contexts
  Keeps-clear_auth_failure_contexts [] = Keeps-pure true
  Keeps-clear_auth_failure_contexts (d ∷ cs) =
      Keeps-bind _ _ (Keeps-attempt _ (Keeps-clear_auth_failures d)) (λ r.
        Keeps-go_on (d ∷ cs) _ r
          (λ b. Keeps-cleared_or_release (d ∷ cs) _ b (Keeps-clear_auth_failure_contexts cs)))
