-- ===== src/FileSystem/Recovery/Run/Leases.antt =====
-- Claims of a recovery operation in runs of its statements.
use ilist.Base.{
  ℕ, ◌+◌, ◌≤◌, ◌<◌, max, String, Bool, true, false, some, List, [], ◌∷◌, ◌≡◌, refl, arith, All,
  text_eq,
}
use ilist.FileSystem.Row.{OperationRow, running, completed, is_completed}
use ilist.FileSystem.Recovery.{
  stale_ms, coalesce, may_claim, set_claim, is_claimed_by, may_renew, set_renewed, is_held_by,
  set_touched, set_activated, set_progress, set_retry,
}
use ilist.FileSystem.Recovery.Run.{
  Statement, claim, renew, touch, activate, progress, complete, back_off, admits, change, apply,
  run, time,
}

-- the operation is claimed by `owner` until `expires`
pub record Holds (owner : String) (expires : ℕ) (row : OperationRow) : Type 0 where
  pub state : row.state ≡ running
  pub holder : row.claim_owner ≡ some owner
  pub until : row.claim_expires_at ≡ some expires

-- the statement names that worker
abbrev pub names : String → Statement → Bool
names owner (claim who until now) = false
names owner (renew who until now) = text_eq owner who
names owner (touch attempt now) = false
names owner (activate phase payload now) = false
names owner (progress who phase payload now) = text_eq owner who
names owner (complete who now) = text_eq owner who
names owner (back_off who message now) = text_eq owner who

-- in time, and not by the holder
abbrev pub IsForeign : String → ℕ → Statement → Type 0
IsForeign owner expires s = (time s < expires) × (names owner s ≡ false)

apply_foreign :
    (owner : String) (expires : ℕ) (s : Statement) (row : OperationRow)
    → IsForeign owner expires s
    → Holds owner expires row
    → apply s row ≡ row
unfolding apply admits may_claim is_claimed_by may_renew is_held_by
apply_foreign owner expires (claim who until now) row f h = ground arith
apply_foreign owner expires (renew who until now) row f h = ground arith
apply_foreign owner expires (touch attempt now) row f h = ground arith
apply_foreign owner expires (activate phase payload now) row f h = ground arith
apply_foreign owner expires (progress who phase payload now) row f h = ground arith
apply_foreign owner expires (complete who now) row f h = ground arith
apply_foreign owner expires (back_off who message now) row f h = ground arith

-- While a worker's claim of a recovery operation has not run out, no statements that are sent
-- before it does and do not name that worker, in any number and order, change the operation.
pub run_claimed :
    (owner : String) (expires : ℕ) (ss : List Statement) (row : OperationRow)
    → All (IsForeign owner expires) ss
    → Holds owner expires row
    → run ss row ≡ row
unfolding run
run_claimed owner expires [] row f h = refl
run_claimed owner expires (s ∷ ss) row (f, more) h =
    rw (apply_foreign owner expires s row f h) (run_claimed owner expires ss row more h)

-- the time from which on a worker may claim an operation
unfoldable pub free_at : OperationRow → ℕ
free_at row = max (coalesce row.claim_expires_at) (row.updated_at + stale_ms)

may_claim_late :
    (row : OperationRow) (now : ℕ)
    → is_completed row.state ≡ false
    → free_at row ≤ now
    → may_claim now row ≡ true
unfolding free_at may_claim
may_claim_late row now open_row late = ground arith

abbrev pub is_complete : Statement → Bool
is_complete (complete who now) = true
is_complete _ = false

apply_open :
    (s : Statement) (row : OperationRow)
    → is_complete s ≡ false
    → is_completed row.state ≡ false
    → is_completed (apply s row).state ≡ false
unfolding apply change set_claim set_renewed set_touched set_activated set_progress set_retry
apply_open (claim who until now) row c h = ground arith
apply_open (renew who until now) row c h = ground arith
apply_open (touch attempt now) row c h = ground arith
apply_open (activate phase payload now) row c h = ground arith
apply_open (progress who phase payload now) row c h = ground arith
apply_open (complete who now) row c h = absurd (ground arith)
apply_open (back_off who message now) row c h = ground arith

run_open :
    (ss : List Statement) (row : OperationRow)
    → All (λ s. is_complete s ≡ false) ss
    → is_completed row.state ≡ false
    → is_completed (run ss row).state ≡ false
unfolding run
run_open [] row c h = h
run_open (s ∷ ss) row (c, more) h = run_open ss (apply s row) more (apply_open s row c h)

-- An operation is not lost until a worker completes it: after any run of other statements on an
-- operation that is not completed, a worker may claim it at every time from the expiry of its last
-- claim, and five minutes after its last change, on.
pub run-may_claim :
    (ss : List Statement) (row : OperationRow) (now : ℕ)
    → All (λ s. is_complete s ≡ false) ss
    → is_completed row.state ≡ false
    → free_at (run ss row) ≤ now
    → may_claim now (run ss row) ≡ true
run-may_claim ss row now c h late = may_claim_late (run ss row) now (run_open ss row c h) late

apply_completed : (s : Statement) (row : OperationRow) → row.state ≡ completed → apply s row ≡ row
unfolding apply admits may_claim is_claimed_by may_renew is_held_by
apply_completed (claim who until now) row e = ground arith
apply_completed (renew who until now) row e = ground arith
apply_completed (touch attempt now) row e = ground arith
apply_completed (activate phase payload now) row e = ground arith
apply_completed (progress who phase payload now) row e = ground arith
apply_completed (complete who now) row e = ground arith
apply_completed (back_off who message now) row e = ground arith

pub run_completed :
    (ss : List Statement) (row : OperationRow) → row.state ≡ completed → run ss row ≡ row
unfolding run
run_completed [] row e = refl
run_completed (s ∷ ss) row e = rw (apply_completed s row e) (run_completed ss row e)
