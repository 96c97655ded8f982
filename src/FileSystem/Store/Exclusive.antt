-- ===== src/FileSystem/Store/Exclusive.antt =====
-- Recovery operations exclude each other: the primary key, and one operation of a kind that is not
-- completed for each entry.
use ilist.Base.{
  ℕ, ◌+◌, String, Bool, true, false, not, [], ◌∷◌, ◌≡◌, refl, inl, inr, arith, ◌&&◌, ◌||◌, text_eq,
  exists_in, if◌then◌else◌, Bool-cases, and_split,
}
use ilist.Base.Table.{updated}
use ilist.FileSystem.Row.{OperationRow, is_completed, is_held}
use ilist.FileSystem.Recovery.{
  NewOperation, new_operation, may_claim, set_claim, is_claimed_by, may_renew, set_renewed,
  is_held_by, set_touched, set_activated, set_progress, set_completed, set_retry,
}
use ilist.FileSystem.Store.Operations.{
  Operations, is_operation, same_operation_kind, excludes, enqueue_storage_recovery_operation,
  update_operation, touch_held_storage_recovery_operation, activate_storage_recovery_operation,
  claim_operation, renew_storage_recovery_operation, update_claimed_storage_recovery_operation,
  complete_storage_recovery_operation, retry_storage_recovery_operation,
}

-- both cannot stand in the table
unfoldable pub clash : OperationRow → OperationRow → Bool
unfolding same_operation_kind
clash row r =
    text_eq r.id row.id
    || (text_eq r.entry_id row.entry_id
        && same_operation_kind r.operation_kind row.operation_kind
        && (not (is_completed r.state) && not (is_completed row.state)))

abbrev pub AreExclusive : Operations → Type 0
AreExclusive [] = Unit
AreExclusive (row ∷ rows) = (exists_in (clash row) rows ≡ false) × AreExclusive rows

pub record LeavesExclusive {A : Type 0} (outcome : A × Operations) : Type 0 where
  pub exclusive : AreExclusive outcome.1

-- what a change of an operation leaves
pub record Same (row after : OperationRow) : Type 0 where
  pub same_id : after.id ≡ row.id
  pub same_entry : after.entry_id ≡ row.entry_id
  pub same_kind : after.operation_kind ≡ row.operation_kind

fewer_open :
    (i k c d c' d' : Bool)
    → (c ≡ true → c' ≡ true)
    → (d ≡ true → d' ≡ true)
    → (i || (k && (not d && not c))) ≡ false
    → (i || (k && (not d' && not c'))) ≡ false
fewer_open i k true d c' d' f g e = let h = f refl in ground arith
fewer_open i k false true c' d' f g e = let h = g refl in ground arith
fewer_open i k false false c' d' f g e = ground arith

module _ (test : OperationRow → Bool) (change : OperationRow → OperationRow)
    (same : (r : OperationRow) → Same r (change r))
    (only_open : (r : OperationRow) → test r ≡ true → is_completed r.state ≡ false) where
  abbrev changed : OperationRow → OperationRow
  changed r = if test r then change r else r

  changed-Same : (r : OperationRow) → Same r (changed r)
  changed-Same r = elim (Bool-cases (test r)) [
    | inl hit ↦ rw hit (same r)
    | inr miss ↦ rw miss (record { same_id = refl; same_entry = refl; same_kind = refl })
  ]

  changed_completed :
      (r : OperationRow) → is_completed r.state ≡ true → is_completed (changed r).state ≡ true
  changed_completed r e = elim (Bool-cases (test r)) [
    | inl hit ↦ let no = only_open r hit in absurd (cc)
    | inr miss ↦ rw miss e
  ]

  clash-changed : (a b : OperationRow) → clash a b ≡ false → clash (changed a) (changed b) ≡ false
  unfolding clash
  clash-changed a b e =
      let p = changed-Same a in
      let q = changed-Same b in
      rw (p.same_id, q.same_id, p.same_entry, q.same_entry, p.same_kind, q.same_kind)
        (fewer_open _ _ (is_completed a.state) (is_completed b.state) _ _ (changed_completed a)
          (changed_completed b) e)

  exists_in-changed :
      (a : OperationRow) (t : Operations)
      → exists_in (clash a) t ≡ false
      → exists_in (clash (changed a)) (updated test change t) ≡ false
  exists_in-changed a [] e = refl
  exists_in-changed a (b ∷ t) e =
      let here = clash-changed a b (ground arith) in
      let rest = exists_in-changed a t (ground arith) in rw (here, rest)

  AreExclusive-updated : (t : Operations) → AreExclusive t → AreExclusive (updated test change t)
  AreExclusive-updated [] h = tt
  AreExclusive-updated (r ∷ t) (fresh, h) = (exists_in-changed r t fresh, AreExclusive-updated t h)

module _ (id : String) (test : OperationRow → Bool) (change : OperationRow → OperationRow)
    (same : (r : OperationRow) → Same r (change r))
    (only_open : (r : OperationRow) → test r ≡ true → is_completed r.state ≡ false) where
  update_operation-LeavesExclusive :
      (t : Operations) → AreExclusive t → LeavesExclusive (update_operation id test change t)
  unfolding update_operation
  update_operation-LeavesExclusive t h = record {
    exclusive =
        AreExclusive-updated (λ r. is_operation id r && test r) change same
          (λ r e. only_open r (and_split (is_operation id r) (test r) e).1) t h;
  }

abbrev unmoved :
    {row after : OperationRow}
    → after.id ≡ row.id
    → after.entry_id ≡ row.entry_id
    → after.operation_kind ≡ row.operation_kind
    → Same row after
unmoved a b c = record { same_id = a; same_entry = b; same_kind = c }

pub touch_held_storage_recovery_operation-LeavesExclusive :
    (id attempt_owner : String) (now : ℕ) (t : Operations)
    → AreExclusive t
    → LeavesExclusive (touch_held_storage_recovery_operation id attempt_owner now t)
unfolding touch_held_storage_recovery_operation set_touched is_held_by
touch_held_storage_recovery_operation-LeavesExclusive id attempt_owner now t h =
    update_operation-LeavesExclusive id (is_held_by attempt_owner) (set_touched now)
      (λ r. unmoved refl refl refl) (λ r e. ground arith) t h

pub activate_storage_recovery_operation-LeavesExclusive :
    (id phase payload : String) (now : ℕ) (t : Operations)
    → AreExclusive t
    → LeavesExclusive (activate_storage_recovery_operation id phase payload now t)
unfolding activate_storage_recovery_operation set_activated
activate_storage_recovery_operation-LeavesExclusive id phase payload now t h =
    update_operation-LeavesExclusive id (λ r. is_held r.state) (set_activated phase payload now)
      (λ r. unmoved refl refl refl) (λ r e. ground arith) t h

pub claim_operation-LeavesExclusive :
    (id claim_owner : String) (lease now stamp : ℕ) (t : Operations)
    → AreExclusive t
    → LeavesExclusive (claim_operation id claim_owner lease now stamp t)
unfolding claim_operation set_claim may_claim
claim_operation-LeavesExclusive id claim_owner lease now stamp t h =
    update_operation-LeavesExclusive id (may_claim now) (set_claim claim_owner (now + lease) stamp)
      (λ r. unmoved refl refl refl) (λ r e. ground arith) t h

pub renew_storage_recovery_operation-LeavesExclusive :
    (id claim_owner : String) (lease now : ℕ) (t : Operations)
    → AreExclusive t
    → LeavesExclusive (renew_storage_recovery_operation id claim_owner lease now t)
unfolding renew_storage_recovery_operation set_renewed may_renew is_claimed_by
renew_storage_recovery_operation-LeavesExclusive id claim_owner lease now t h =
    update_operation-LeavesExclusive id (may_renew claim_owner now) (set_renewed (now + lease) now)
      (λ r. unmoved refl refl refl) (λ r e. ground arith) t h

pub update_claimed_storage_recovery_operation-LeavesExclusive :
    (id claim_owner phase payload : String) (now : ℕ) (t : Operations)
    → AreExclusive t
    → LeavesExclusive (update_claimed_storage_recovery_operation id claim_owner phase payload now t)
unfolding update_claimed_storage_recovery_operation set_progress is_claimed_by
update_claimed_storage_recovery_operation-LeavesExclusive id claim_owner phase payload now t h =
    update_operation-LeavesExclusive id (is_claimed_by claim_owner) (set_progress phase payload now)
      (λ r. unmoved refl refl refl) (λ r e. ground arith) t h

pub complete_storage_recovery_operation-LeavesExclusive :
    (id claim_owner : String) (now : ℕ) (t : Operations)
    → AreExclusive t
    → LeavesExclusive (complete_storage_recovery_operation id claim_owner now t)
unfolding complete_storage_recovery_operation set_completed is_claimed_by
complete_storage_recovery_operation-LeavesExclusive id claim_owner now t h =
    update_operation-LeavesExclusive id (is_claimed_by claim_owner) (set_completed now)
      (λ r. unmoved refl refl refl) (λ r e. ground arith) t h

pub retry_storage_recovery_operation-LeavesExclusive :
    (id claim_owner message : String) (now : ℕ) (t : Operations)
    → AreExclusive t
    → LeavesExclusive (retry_storage_recovery_operation id claim_owner message now t)
unfolding retry_storage_recovery_operation set_retry is_claimed_by
retry_storage_recovery_operation-LeavesExclusive id claim_owner message now t h =
    update_operation-LeavesExclusive id (is_claimed_by claim_owner) (set_retry message now)
      (λ r. unmoved refl refl refl) (λ r e. ground arith) t h

clash_new :
    (row : OperationRow) (t : Operations)
    → exists_in (excludes row) t ≡ false
    → exists_in (clash row) t ≡ false
unfolding clash excludes
clash_new row [] e = refl
clash_new row (r ∷ t) e = let rest = clash_new row t (ground arith) in ground arith

pub enqueue_storage_recovery_operation-LeavesExclusive :
    (input : NewOperation) (now : ℕ) (t : Operations)
    → AreExclusive t
    → LeavesExclusive (enqueue_storage_recovery_operation input now t)
unfolding enqueue_storage_recovery_operation
enqueue_storage_recovery_operation-LeavesExclusive input now t h =
    elim (Bool-cases (exists_in (excludes (new_operation input now)) t)) [
      | inl busy ↦ rw busy (record { exclusive = h })
      | inr free ↦ rw free (record { exclusive = (clash_new (new_operation input now) t free, h) })
    ]
