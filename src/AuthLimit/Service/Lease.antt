-- ===== src/AuthLimit/Service/Lease.antt =====
-- Leases of verifications in auth_rate_limits: who holds one, and when it is given back.
use ilist.Base.{
  ℕ, String, Bool, true, false, Option, none, some, List, [], ◌∷◌, ◌≡◌, ◌≤◌, refl, subst, arith,
  ◌&&◌, inl, inr, eq_refl, is_some, exists_in, Bool-cases,
}
use ilist.Base.Exec.{Outside, World, Result, ok, err, Failure, throw, continue, ◌>>=◌, statement}
use ilist.Base.Keeps.{
  Keeps, Fair, Keeps-pure, Keeps-throw, Keeps-attempt, Keeps-bind, Keeps-statement,
}
use mathlib.Core.List.{Memᴰ}
use mathlib.Core.List.Memᴰ.{head, tail}
use ilist.Base.Table.{updated, deleted}
use ilist.AuthLimit.Row.{
  AuthRateLimitRow, Reservation, FailedAttempt, failed, may_reserve, reserved, first_reserved,
  released, has_token,
}
use ilist.AuthLimit.Store.{
  LimitTable, is_key, upsert, get_auth_rate_limit, reserve_auth_rate_limit_verification,
  release_auth_rate_limit_verification,
}
use ilist.AuthLimit.Service.{
  AuthRateLimitPolicy, AuthRateLimitContext, Identity, Handler, reservation, admitted,
  assert_auth_allowed, release_auth_reservation, release_auth_reservation_safely,
  release_auth_reservations_safely, release_and_throw,
}

abbrev pub holds : AuthRateLimitContext → AuthRateLimitRow → Bool
holds c row = is_key c.key_hash row && has_token c.reservation_token row

abbrev pub is_error : {A : Type 0} → Result A → Bool
is_error (ok a) = false
is_error (err e) = true

-- a row of the table is reserved for the context
unfoldable pub has_lease : AuthRateLimitContext → LimitTable → Bool
has_lease c t = exists_in (holds c) t

upsert-exists_in :
    (key token : String) (r : Reservation) (t : LimitTable)
    → r.token ≡ token
    → is_some (upsert key r t).0 ≡ true
    → exists_in (λ row. is_key key row && has_token token row) (upsert key r t).1 ≡ true
unfolding upsert first_reserved reserved
upsert-exists_in key token r [] e h = rw (e, eq_refl key, eq_refl token) refl
upsert-exists_in key token r (row ∷ rows) e h = elim (Bool-cases (is_key key row)) [
  | inl same ↦ elim (Bool-cases (may_reserve r row)) [
    | inl may ↦ rw (same, may, e, same, eq_refl token) refl
    | inr may ↦ absurd (ground arith)
  ]
  | inr other ↦
      let ih = upsert-exists_in key token r rows e (rw other at h) in rw (other, other, ih) refl
]

-- D1 refuses no statement from now on
abbrev pub IsUp : Outside LimitTable → World LimitTable (Unit {0}) → Type 0
IsUp o w = (n : ℕ) → w.tick ≤ n → o.db_fails n ≡ false

-- the table has no reservation of the context
abbrev pub IsFree : AuthRateLimitContext → LimitTable → Type 0
IsFree c t = has_lease c t ≡ false

updated-IsFree :
    (c d : AuthRateLimitContext) (change : AuthRateLimitRow → AuthRateLimitRow) (t : LimitTable)
    → ((row : AuthRateLimitRow) → (change row).reservation_token ≡ none)
    → IsFree c t
    → IsFree c (updated (holds d) change t)
unfolding has_lease
updated-IsFree c d change [] k h = refl
updated-IsFree c d change (row ∷ t) k h =
    let gone = k row in
    let ih = updated-IsFree c d change t k (ground arith) in
    elim (Bool-cases (holds d row)) [
      | inl hit ↦ rw hit (ground arith)
      | inr miss ↦ rw miss (ground arith)
    ]

updated_own :
    (c : AuthRateLimitContext) (change : AuthRateLimitRow → AuthRateLimitRow) (t : LimitTable)
    → ((row : AuthRateLimitRow) → (change row).reservation_token ≡ none)
    → IsFree c (updated (holds c) change t)
unfolding has_lease
updated_own c change [] k = refl
updated_own c change (row ∷ t) k =
    let gone = k row in
    let ih = updated_own c change t k in
    elim (Bool-cases (holds c row)) [
      | inl hit ↦ rw hit (ground arith)
      | inr miss ↦ rw miss (ground arith)
    ]

pub deleted-IsFree :
    (c d : AuthRateLimitContext) (t : LimitTable) → IsFree c t → IsFree c (deleted (holds d) t)
unfolding has_lease
deleted-IsFree c d [] h = refl
deleted-IsFree c d (row ∷ t) h =
    let ih = deleted-IsFree c d t (ground arith) in
    elim (Bool-cases (holds d row)) [ inl hit ↦ rw hit ih | inr miss ↦ rw miss (ground arith) ]

pub deleted_own : (c : AuthRateLimitContext) (t : LimitTable) → IsFree c (deleted (holds c) t)
unfolding has_lease
deleted_own c [] = refl
deleted_own c (row ∷ t) =
    let ih = deleted_own c t in
    elim (Bool-cases (holds c row)) [ inl hit ↦ rw hit ih | inr miss ↦ rw miss (ground arith) ]

released-IsFree :
    (c d : AuthRateLimitContext) (t : LimitTable)
    → IsFree c t
    → IsFree c (updated (holds d) released t)
unfolding released
released-IsFree c d t h = updated-IsFree c d _ t (λ row. refl) h

released_own : (c : AuthRateLimitContext) (t : LimitTable) → IsFree c (updated (holds c) released t)
unfolding released
released_own c t = updated_own c _ t (λ row. refl)

pub failed-IsFree :
    (c d : AuthRateLimitContext) (f : FailedAttempt) (t : LimitTable)
    → IsFree c t
    → IsFree c (updated (holds d) (failed f) t)
unfolding failed
failed-IsFree c d f t h = updated-IsFree c d _ t (λ row. refl) h

pub failed_own :
    (c : AuthRateLimitContext) (f : FailedAttempt) (t : LimitTable)
    → IsFree c (updated (holds c) (failed f) t)
unfolding failed
failed_own c f t = updated_own c _ t (λ row. refl)

pub continue-IsFree :
    {A B : Type 0} (c : AuthRateLimitContext) (f : A → Handler B)
    (r : Result A × World LimitTable (Unit {0}))
    → ((a : A) → Keeps (IsFree c) (f a))
    → IsFree c r.1.table
    → IsFree c (continue f r).1.table
continue-IsFree c f (ok a, w) k h = (k a).at w h
continue-IsFree c f (err e, w) k h = h

abbrev HasLeaseAfter : Result AuthRateLimitContext × World LimitTable (Unit {0}) → Type 0
HasLeaseAfter (ok c, w) = has_lease c w.table ≡ true
HasLeaseAfter (err e, w) = Unit

continue-HasLeaseAfter :
    {A : Type 0} (f : A → Handler AuthRateLimitContext) (r : Result A × World LimitTable (Unit {0}))
    → ((a : A) (w : World LimitTable (Unit {0})) → HasLeaseAfter (f a w))
    → HasLeaseAfter (continue f r)
continue-HasLeaseAfter f (ok a, w) k = k a w
continue-HasLeaseAfter f (err e, w) k = tt

bind-HasLeaseAfter :
    {A : Type 0} (m : Handler A) (f : A → Handler AuthRateLimitContext)
    → ((a : A) (w : World LimitTable (Unit {0})) → HasLeaseAfter (f a w))
    → (w : World LimitTable (Unit {0})) → HasLeaseAfter ((m >>= f) w)
unfolding ◌>>=◌
bind-HasLeaseAfter m f k w = continue-HasLeaseAfter f (m w) k

module _ (o : Outside LimitTable) (i : Identity) (header : Option String) where
  admitted-HasLeaseAfter :
      (c : AuthRateLimitContext) (now : ℕ) (row : Option AuthRateLimitRow)
      (w : World LimitTable (Unit {0}))
      → (is_some row ≡ true → has_lease c w.table ≡ true)
      → HasLeaseAfter (admitted o i header c now row w)
  unfolding admitted
  admitted-HasLeaseAfter c now (some row) w h = h refl
  admitted-HasLeaseAfter c now none w h =
      bind-HasLeaseAfter (get_auth_rate_limit o c.key_hash) _ (λ a w. tt) w

  reserve-HasLeaseAfter :
      (c : AuthRateLimitContext) (r : Reservation) (now : ℕ) (w : World LimitTable (Unit {0}))
      → r.token ≡ c.reservation_token
      → HasLeaseAfter
          ((reserve_auth_rate_limit_verification o c.key_hash r >>= admitted o i header c now) w)
  unfolding reserve_auth_rate_limit_verification statement has_lease ◌>>=◌
  reserve-HasLeaseAfter c r now w e = elim (Bool-cases (o.db_fails w.tick)) [
    | inl down ↦ rw down tt
    | inr up ↦ rw up (
        admitted-HasLeaseAfter c now _ _
          (upsert-exists_in c.key_hash c.reservation_token r (o.others w.tick w.table) e))
  ]

  assert_auth_allowed-HasLeaseAfter :
      (scope subject : String) (policy : AuthRateLimitPolicy) (w : World LimitTable (Unit {0}))
      → HasLeaseAfter (assert_auth_allowed o i header scope subject policy w)
  unfolding assert_auth_allowed reservation
  assert_auth_allowed-HasLeaseAfter scope subject policy = bind-HasLeaseAfter _ _ (λ valid.
      bind-HasLeaseAfter _ _ (λ ip.
        bind-HasLeaseAfter _ _
          (λ now. bind-HasLeaseAfter _ _ (λ token w. reserve-HasLeaseAfter _ _ now w refl))))

  -- If `assertAuthAllowed` returns a context, then a row of its key carries its token at that moment.
  pub assert_auth_allowed-has_lease :
      (scope subject : String) (policy : AuthRateLimitPolicy)
      (w after : World LimitTable (Unit {0})) (c : AuthRateLimitContext)
      → assert_auth_allowed o i header scope subject policy w ≡ (ok c, after)
      → has_lease c after.table ≡ true
  assert_auth_allowed-has_lease scope subject policy w after c e =
      subst HasLeaseAfter e (assert_auth_allowed-HasLeaseAfter scope subject policy w)

  module _ (c : AuthRateLimitContext) (fair : Fair (IsFree c) o) where
    Keeps-release_safely :
        (d : AuthRateLimitContext) → Keeps (IsFree c) (release_auth_reservation_safely o i header d)
    unfolding release_auth_reservation_safely release_auth_reservation
        release_auth_rate_limit_verification
    Keeps-release_safely d =
        Keeps-bind _ _
          (Keeps-attempt _ (
            Keeps-bind _ _ (Keeps-statement o _ fair (λ t h. released-IsFree c d t h))
              (λ n. Keeps-pure _)))
          (λ r. Keeps-pure tt)

    pub Keeps-releases_safely :
        (cs : List AuthRateLimitContext)
        → Keeps (IsFree c) (release_auth_reservations_safely o i header cs)
    unfolding release_auth_reservations_safely
    Keeps-releases_safely [] = Keeps-pure tt
    Keeps-releases_safely (d ∷ cs) =
        Keeps-bind _ _ (Keeps-release_safely d) (λ _. Keeps-releases_safely cs)

    pub releases_safely-IsFree :
        (cs : List AuthRateLimitContext) (w : World LimitTable (Unit {0}))
        → IsUp o w
        → Memᴰ c cs
        → IsFree c (release_auth_reservations_safely o i header cs w).1.table
    unfolding release_auth_reservations_safely release_auth_reservation_safely
        release_auth_reservation release_auth_rate_limit_verification statement ◌>>=◌
    releases_safely-IsFree [] w up x = elim x [ ]
    releases_safely-IsFree (d ∷ cs) w up (head e) =
        rw (← e, up w.tick (omega arith))
          ((Keeps-releases_safely cs).at _ (released_own c (o.others w.tick w.table)))
    releases_safely-IsFree (d ∷ cs) w up (tail m) =
        rw (up w.tick (omega arith))
          (releases_safely-IsFree cs _ (λ n later. up n (omega (arith, later))) m)

    pub release_and_throw-IsFree :
        (A : Type 0) (cs : List AuthRateLimitContext) (e : Failure)
        (w : World LimitTable (Unit {0}))
        → IsUp o w
        → Memᴰ c cs
        → IsFree c (release_and_throw o i header {A = A} cs e w).1.table
    unfolding release_and_throw ◌>>=◌
    release_and_throw-IsFree A cs e w up m =
        continue-IsFree c (λ _. throw e) _ (λ _. Keeps-throw e) (releases_safely-IsFree cs w up m)
