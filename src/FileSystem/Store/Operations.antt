-- ===== src/FileSystem/Store/Operations.antt =====
-- The statements of worker/db.ts on the table storage_recovery_operations.
use ilist.Base.{
  ℕ, ◌+◌, String, Bool, true, false, not, Option, List, [], ◌∷◌, ◌&&◌, ◌||◌, ◌==◌, leb, text_eq,
  take, keep, exists_in, find_first, if◌then◌else◌,
}
use ilist.Base.Table.{update_where}
use ilist.FileSystem.Row.{OperationRow, OperationKind, is_upload_cleanup, is_completed, is_held}
use ilist.FileSystem.Recovery.{
  NewOperation, new_operation, may_claim, set_claim, is_claimed_by, may_renew, set_renewed,
  is_held_by, set_touched, set_activated, set_progress, set_completed, set_retry,
}

abbrev pub Operations : Type 0
Operations = List OperationRow

abbrev pub is_operation : String → OperationRow → Bool
is_operation id row = text_eq row.id id

unfoldable pub same_operation_kind : OperationKind → OperationKind → Bool
same_operation_kind a b =
    if is_upload_cleanup a then is_upload_cleanup b else not (is_upload_cleanup b)

-- the primary key and the unique index of migrations/0007_storage_recovery_operations.sql: one
-- operation of a kind that is not completed for each entry
unfoldable pub excludes : OperationRow → OperationRow → Bool
unfolding same_operation_kind
excludes row r =
    is_operation row.id r
    || (text_eq r.entry_id row.entry_id
        && same_operation_kind r.operation_kind row.operation_kind
        && not (is_completed r.state))

-- `INSERT OR IGNORE`: whether the row was written
unfoldable pub enqueue_storage_recovery_operation :
    NewOperation → ℕ → Operations → Bool × Operations
unfolding new_operation excludes
enqueue_storage_recovery_operation input now t =
    let row = new_operation input now in
    if exists_in (excludes row) t then (false, t) else (true, row ∷ t)

-- `UPDATE … WHERE id = ? AND test`, whether one row changed
unfoldable pub update_operation :
    String → (OperationRow → Bool) → (OperationRow → OperationRow) → Operations → Bool × Operations
update_operation id test change t =
    let (n, after) = update_where (λ r. is_operation id r && test r) change t in (n == 1, after)

unfoldable pub touch_held_storage_recovery_operation :
    String → String → ℕ → Operations → Bool × Operations
unfolding update_operation
touch_held_storage_recovery_operation id attempt_owner now t =
    update_operation id (is_held_by attempt_owner) (set_touched now) t

unfoldable pub activate_storage_recovery_operation :
    String → String → String → ℕ → Operations → Bool × Operations
unfolding update_operation
activate_storage_recovery_operation id phase payload now t =
    update_operation id (λ r. is_held r.state) (set_activated phase payload now) t

-- the UPDATE of `claimStorageRecoveryOperation`; `stamp` is the second time that it reads
unfoldable pub claim_operation : String → String → ℕ → ℕ → ℕ → Operations → Bool × Operations
unfolding update_operation
claim_operation id claim_owner lease_duration_ms now stamp t =
    update_operation id (may_claim now) (set_claim claim_owner (now + lease_duration_ms) stamp) t

unfoldable pub claimed_operation : String → String → Operations → Option OperationRow
claimed_operation id claim_owner t =
    find_first (λ r. is_operation id r && is_claimed_by claim_owner r) t

unfoldable pub renew_storage_recovery_operation :
    String → String → ℕ → ℕ → Operations → Bool × Operations
unfolding update_operation
renew_storage_recovery_operation id claim_owner lease_duration_ms now t =
    update_operation id (may_renew claim_owner now) (set_renewed (now + lease_duration_ms) now) t

unfoldable pub update_claimed_storage_recovery_operation :
    String → String → String → String → ℕ → Operations → Bool × Operations
unfolding update_operation
update_claimed_storage_recovery_operation id claim_owner phase payload now t =
    update_operation id (is_claimed_by claim_owner) (set_progress phase payload now) t

unfoldable pub complete_storage_recovery_operation :
    String → String → ℕ → Operations → Bool × Operations
unfolding update_operation
complete_storage_recovery_operation id claim_owner now t =
    update_operation id (is_claimed_by claim_owner) (set_completed now) t

unfoldable pub retry_storage_recovery_operation :
    String → String → String → ℕ → Operations → Bool × Operations
unfolding update_operation
retry_storage_recovery_operation id claim_owner message now t =
    update_operation id (is_claimed_by claim_owner) (set_retry message now) t

-- `ORDER BY updated_at ASC` and `ORDER BY created_at ASC`
unfoldable pub insert_by : (OperationRow → ℕ) → OperationRow → Operations → Operations
insert_by time row [] = row ∷ []
insert_by time row (r ∷ rs) =
    let rest = insert_by time row rs in if leb (time row) (time r) then row ∷ r ∷ rs else r ∷ rest

unfoldable pub order_by : (OperationRow → ℕ) → Operations → Operations
unfolding insert_by
order_by time [] = []
order_by time (row ∷ rows) = insert_by time row (order_by time rows)

-- `listStorageRecoveryOperations` with and without an entry
unfoldable pub operations_of_entry : String → ℕ → Operations → Operations
unfolding order_by
operations_of_entry entry_id limit t =
    take limit (order_by (λ r. r.created_at) (keep (λ r. text_eq r.entry_id entry_id) t))

unfoldable pub claimable_operations : ℕ → ℕ → Operations → Operations
unfolding order_by
claimable_operations limit now t =
    take limit (order_by (λ r. r.updated_at) (keep (may_claim now) t))
