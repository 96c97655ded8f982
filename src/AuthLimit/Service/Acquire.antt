-- ===== src/AuthLimit/Service/Acquire.antt =====
-- `assertAuthAllowedAll` and the leases that it has acquired when it throws.
use ilist.Base.{
  ◌<◌, inl, inr, Bool-cases, ℕ, String, true, false, Option, List, [], ◌∷◌, ◌++◌, ◌≡◌, refl, ap,
  ◌∙◌, arith,
}
use ilist.Base.Exec.{Outside, World, Result, ok, err, Failure, continue, ◌>>=◌}
use ilist.Base.Keeps.{Fair}
use mathlib.Core.List.{Memᴰ}
use mathlib.Core.List.Memᴰ.{head, append_left, append_right}
use ilist.AuthLimit.Store.{LimitTable}
use ilist.AuthLimit.Service.{
  AuthRateLimitContext, AuthRateLimitAttempt, Identity, Handler, assert_auth_allowed,
  release_auth_reservation_safely, release_auth_reservations_safely, release_and_throw,
  release_and_return, go_on, acquire_all, assert_auth_allowed_all,
}
use ilist.AuthLimit.Service.Refused.{throws, is_refusal_of_d1, LeavesUp-assert_auth_allowed}
use ilist.AuthLimit.Service.Lease.{IsUp, IsFree, is_error, release_and_throw-IsFree}

module _ (o : Outside LimitTable) (i : Identity) (header : Option String) where
  continue_ok :
      {A : Type 0} (answer : Result A) (r : Result (Unit {0}) × World LimitTable (Unit {0}))
      → r.0 ≡ ok tt
      → (continue (λ _ w. (answer, w)) r).0 ≡ answer
  continue_ok answer (ok a, w) e = refl
  continue_ok answer (err x, w) e = cc

  releases_safely_ok :
      (cs : List AuthRateLimitContext) (w : World LimitTable (Unit {0}))
      → (release_auth_reservations_safely o i header cs w).0 ≡ ok tt
  unfolding release_auth_reservations_safely release_auth_reservation_safely ◌>>=◌
  releases_safely_ok [] w = refl
  releases_safely_ok (c ∷ cs) w = releases_safely_ok cs _

  pub release_and_return_ok :
      {A : Type 0} (cs : List AuthRateLimitContext) (a : A) (w : World LimitTable (Unit {0}))
      → (release_and_return o i header cs a w).0 ≡ ok a
  unfolding release_and_return ◌>>=◌
  release_and_return_ok cs a w = continue_ok (ok a) _ (releases_safely_ok cs w)

  release_and_throw_err :
      (A : Type 0) (cs : List AuthRateLimitContext) (e : Failure) (w : World LimitTable (Unit {0}))
      → (release_and_throw o i header {A = A} cs e w).0 ≡ err e
  unfolding release_and_throw ◌>>=◌
  release_and_throw_err A cs e w = continue_ok {A = A} (err e) _ (releases_safely_ok cs w)

  -- a loop that went on after one attempt went on with its context
  go_on-ok :
      {A B : Type 0} (cs : List AuthRateLimitContext) (next more : A → Handler B) (r : Result A)
      (w : World LimitTable (Unit {0})) (b : B)
      (rest after : Result B × World LimitTable (Unit {0}))
      → after.0 ≡ ok b
      → go_on o i header cs next r w ≡ after
      → ((a : A) → next a w ≡ after → more a w ≡ rest)
      → go_on o i header cs more r w ≡ rest
  go_on-ok cs next more (ok a) w b rest after done e k = k a e
  go_on-ok {A} {B} cs next more (err x) w b rest after done e k =
      let thrown = release_and_throw_err B cs x w in
      let returned = ap (λ r. r.0) e ∙ done in absurd (cc)

  acquire_all-append :
      (before more : List AuthRateLimitAttempt) (cs contexts : List AuthRateLimitContext)
      (w after : World LimitTable (Unit {0}))
      → acquire_all o i header before cs w ≡ (ok contexts, after)
      → acquire_all o i header (before ++ more) cs w ≡ acquire_all o i header more contexts after
  unfolding acquire_all ◌>>=◌
  acquire_all-append [] more cs contexts w after e =
      let same : cs ≡ contexts = ground arith in
      let now : w ≡ after = ap (λ r. r.1) e in rw (same, now) refl
  acquire_all-append (a ∷ before) more cs contexts w after e =
      go_on-ok cs (λ c. acquire_all o i header before (cs ++ (c ∷ []))) _ _ _ contexts _
        (ok contexts, after) refl e
        (λ c. acquire_all-append before more (cs ++ (c ∷ [])) contexts _ after)

  acquire_all-admitted :
      (a : AuthRateLimitAttempt) (more : List AuthRateLimitAttempt)
      (contexts : List AuthRateLimitContext) (c : AuthRateLimitContext)
      (w after : World LimitTable (Unit {0}))
      → assert_auth_allowed o i header a.scope a.subject a.policy w ≡ (ok c, after)
      → acquire_all o i header (a ∷ more) contexts w
        ≡ acquire_all o i header more (contexts ++ (c ∷ [])) after
  unfolding acquire_all ◌>>=◌
  acquire_all-admitted a more contexts c w after e = rw e refl

  assert_auth_allowed_all-acquire_all :
      (before more : List AuthRateLimitAttempt) (a : AuthRateLimitAttempt)
      (w : World LimitTable (Unit {0}))
      → assert_auth_allowed_all o i header (before ++ (a ∷ more)) w
        ≡ acquire_all o i header (before ++ (a ∷ more)) [] w
  unfolding assert_auth_allowed_all
  assert_auth_allowed_all-acquire_all [] more a w = refl
  assert_auth_allowed_all-acquire_all (b ∷ before) more a w = refl

  -- the loop from the admission of one context on
  assert_auth_allowed_all-admitted :
      (before more : List AuthRateLimitAttempt) (a : AuthRateLimitAttempt)
      (contexts : List AuthRateLimitContext) (c : AuthRateLimitContext)
      (w between after : World LimitTable (Unit {0}))
      → acquire_all o i header before [] w ≡ (ok contexts, between)
      → assert_auth_allowed o i header a.scope a.subject a.policy between ≡ (ok c, after)
      → assert_auth_allowed_all o i header (before ++ (a ∷ more)) w
        ≡ acquire_all o i header more (contexts ++ (c ∷ [])) after
  assert_auth_allowed_all-admitted before more a contexts c w between after e f =
      assert_auth_allowed_all-acquire_all before more a w
      ∙ (acquire_all-append before (a ∷ more) [] contexts w between e
          ∙ acquire_all-admitted a more contexts c between after f)

  module _ (once : (m n : ℕ) → o.db_fails m ≡ true → m < n → o.db_fails n ≡ false)
      (c : AuthRateLimitContext) (fair : Fair (IsFree c) o) where
    -- what follows one attempt
    go_on-IsFree :
        {A B : Type 0} (cs : List AuthRateLimitContext) (next : A → Handler B)
        (r : Result A × World LimitTable (Unit {0}))
        → Memᴰ c cs
        → (throws is_refusal_of_d1 r.0 ≡ true → IsUp o r.1)
        → (throws is_refusal_of_d1 (go_on o i header cs next r.0 r.1).0 ≡ false
            → (n : ℕ) → o.db_fails n ≡ false)
        → ((a : A) (w : World LimitTable (Unit {0}))
            → (throws is_refusal_of_d1 (next a w).0 ≡ false → (n : ℕ) → o.db_fails n ≡ false)
            → is_error (next a w).0 ≡ true
            → IsFree c (next a w).1.table)
        → is_error (go_on o i header cs next r.0 r.1).0 ≡ true
        → IsFree c (go_on o i header cs next r.0 r.1).1.table
    go_on-IsFree cs next (ok a, w) m refused up k e = k a w up e
    go_on-IsFree {A} {B} cs next (err x, w) m refused up k e =
        release_and_throw-IsFree o i header c fair B cs x w
          (elim (Bool-cases (is_refusal_of_d1 x)) [
            | inl of_d1 ↦ refused of_d1
            | inr other ↦ λ n later.
                up (ap (throws is_refusal_of_d1) (release_and_throw_err B cs x w) ∙ other) n
          ])
          m

    acquire_all-IsFree :
        (attempts : List AuthRateLimitAttempt) (cs : List AuthRateLimitContext)
        (w : World LimitTable (Unit {0}))
        → Memᴰ c cs
        → (throws is_refusal_of_d1 (acquire_all o i header attempts cs w).0 ≡ false
            → (n : ℕ) → o.db_fails n ≡ false)
        → is_error (acquire_all o i header attempts cs w).0 ≡ true
        → IsFree c (acquire_all o i header attempts cs w).1.table
    unfolding acquire_all ◌>>=◌
    acquire_all-IsFree [] cs w m up e = absurd (ground arith)
    acquire_all-IsFree (a ∷ more) cs w m up e =
        go_on-IsFree cs (λ d. acquire_all o i header more (cs ++ (d ∷ [])))
          (assert_auth_allowed o i header a.scope a.subject a.policy w) m
          ((LeavesUp-assert_auth_allowed o once i header a.scope a.subject a.policy).at w) up
          (λ d w'. acquire_all-IsFree more (cs ++ (d ∷ [])) w' (append_left (d ∷ []) m)) e

    -- Let `assertAuthAllowedAll` run on any attempts, and let one of them, when the loop has gone
    -- through those before it, be admitted with a context. If `assertAuthAllowedAll` then throws, no
    -- row holds the token of this context afterwards, if D1 refuses no statement after one that it
    -- has refused, and none at all where the error is another one than D1's, and no other request
    -- writes that token.
    pub assert_auth_allowed_all-IsFree :
        (before more : List AuthRateLimitAttempt) (a : AuthRateLimitAttempt)
        (contexts : List AuthRateLimitContext) (w between after : World LimitTable (Unit {0}))
        → acquire_all o i header before [] w ≡ (ok contexts, between)
        → assert_auth_allowed o i header a.scope a.subject a.policy between ≡ (ok c, after)
        → is_error (assert_auth_allowed_all o i header (before ++ (a ∷ more)) w).0 ≡ true
        → (throws is_refusal_of_d1 (assert_auth_allowed_all o i header (before ++ (a ∷ more)) w).0
              ≡ false
            → (n : ℕ) → o.db_fails n ≡ false)
        → IsFree c (assert_auth_allowed_all o i header (before ++ (a ∷ more)) w).1.table
    assert_auth_allowed_all-IsFree before more a contexts w between after e f h up =
        let loop = assert_auth_allowed_all-admitted before more a contexts c w between after e f in
        rw loop (
          acquire_all-IsFree more (contexts ++ (c ∷ [])) after (append_right contexts (head refl))
            (λ other. up (ap (λ r. throws is_refusal_of_d1 r.0) loop ∙ other)) (rw loop at h))
