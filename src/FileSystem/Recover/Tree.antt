-- ===== src/FileSystem/Recover/Tree.antt =====
-- `recoverDeleteTree` of worker/file-system.ts, and the loop over the operations.
use ilist.Base.{
  ℕ, ◌+◌, String, Bool, true, false, not, Option, none, some, List, [], ◌∷◌, ◌++◌, ◌&&◌, ◌||◌,
  text_eq, exists_in, if◌then◌else◌, take, length, ltb,
}
use ilist.Base.Exec.{Outside, failure, pure, attempt, ◌>>=◌, ◌>>◌, date_now}
use ilist.Json.{Json, str, obj, arr, Items, nil, cons, get, Codec}
use ilist.FileSystem.Row.{EntryRow, OperationRow, FileStore, is_file, is_upload_cleanup}
use ilist.FileSystem.Entries.{given_text, is_deleting_by}
use ilist.FileSystem.Store.{list_descendant_rows, delete_deleting_entry}
use ilist.FileSystem.Store.Operations.{claimable_operations}
use ilist.FileSystem.Db.{
  Action, read_entries, read_operations, write_entries, delete_blob,
  claim_storage_recovery_operation,
}
use ilist.FileSystem.Edit.{get_entry_by_id}
use ilist.FileSystem.Recover.{
  Recovered, completed, retried, lease_duration_ms, while_owned, complete_operation,
  retry_operation, or_retry, save_progress, claim_was_lost, recover_upload_cleanup,
}

abbrev texts : Items → List String
texts nil = []
texts (cons (str s) rest) = s ∷ texts rest
texts (cons _ rest) = texts rest

abbrev keys_of : Option Json → List String
keys_of (some (arr items)) = texts items
keys_of _ = []

-- `parsePayload`; a value that is no object has no `deletedKeys`
unfoldable pub parse_payload : Codec → String → List String
parse_payload codec payload = elim (codec.parse payload) [
  | some (obj fs) ↦ keys_of (get "deletedKeys" fs)
  | _ ↦ []
]

-- the rows whose blobs are still to be deleted, with their keys
unfoldable pub remaining_keys : List String → List EntryRow → List String
remaining_keys done [] = []
remaining_keys done (row ∷ rows) =
    let rest = remaining_keys done rows in
    elim (given_text row.storage_key) [
      | none ↦ rest
      | some key ↦
          if is_file row.kind && not (exists_in (text_eq key) done) then key ∷ rest else rest
    ]

-- a Set keeps one of each
abbrev add_key : String → List String → List String
add_key key done = if exists_in (text_eq key) done then done else done ++ (key ∷ [])

module _ (o : Outside FileStore) (codec : Codec) (operation : OperationRow)
    (claim_owner : String) where
  -- the loop over the blobs; `next` is what follows it
  unfoldable pub delete_blobs :
      List String → List String → (List String → Action Recovered) → Action Recovered
  unfolding delete_blob while_owned save_progress claim_was_lost
  delete_blobs [] done next = next done
  delete_blobs (key ∷ keys) done next = do
    delete_blob o key
    while_owned o codec operation.id claim_owner (do
      saved ← save_progress o codec operation.id claim_owner "delete_blobs" (add_key key done)
      if saved
          then delete_blobs keys (add_key key done) next
          else claim_was_lost o codec operation.id claim_owner)

  abbrev has_other_owner : Option EntryRow → Bool
  has_other_owner none = false
  has_other_owner (some row) = not (is_deleting_by operation.attempt_owner row)

  -- the loop over the rows, deepest first
  unfoldable pub delete_rows : List EntryRow → Action Recovered
  unfolding write_entries delete_deleting_entry read_entries get_entry_by_id complete_operation
      is_deleting_by
  delete_rows [] = complete_operation o codec operation.id claim_owner
  delete_rows (row ∷ rows) = do
    deleted_row ← write_entries o (delete_deleting_entry row.id operation.attempt_owner)
    if deleted_row then delete_rows rows else (do
      current ← read_entries o (get_entry_by_id row.id)
      if has_other_owner current
          then complete_operation o codec operation.id claim_owner
          else delete_rows rows)

  abbrev last_first : List EntryRow → List EntryRow
  last_first [] = []
  last_first (row ∷ rows) = last_first rows ++ (row ∷ [])

  -- what follows the loop over the blobs
  unfoldable pub after_blobs : List EntryRow → Bool → List String → Action Recovered
  unfolding while_owned retry_operation save_progress claim_was_lost delete_rows
  after_blobs rows more done = while_owned o codec operation.id claim_owner (
      if more
      then retry_operation o codec operation.id claim_owner
          (failure "Delete tree has remaining blobs")
      else (do
        saved ← save_progress o codec operation.id claim_owner "delete_metadata" done
        if saved
            then delete_rows (last_first rows)
            else claim_was_lost o codec operation.id claim_owner))

  unfoldable pub recover_delete_tree : ℕ → Action Recovered
  unfolding read_entries list_descendant_rows is_deleting_by while_owned complete_operation
      parse_payload remaining_keys delete_blobs after_blobs
  recover_delete_tree max_blob_deletes = do
    rows ← read_entries o (list_descendant_rows operation.entry_id)
    if not (exists_in (λ r. true) rows)
          || exists_in (λ r. not (is_deleting_by operation.attempt_owner r)) rows
        then while_owned o codec operation.id claim_owner
            (complete_operation o codec operation.id claim_owner)
        else (do
          let done = parse_payload codec operation.payload
          let files = remaining_keys done rows
          outcome ← attempt (
              delete_blobs (take max_blob_deletes files) done
                (after_blobs rows (ltb max_blob_deletes (length files))))
          or_retry o codec operation.id claim_owner outcome)

pub record RecoveryResult : Type 0 where
  pub processed : ℕ
  pub completed : ℕ
  pub retried : ℕ

abbrev pub counted : Recovered → RecoveryResult → RecoveryResult
counted completed result = record result {
  processed = result.processed + 1;
  completed = result.completed + 1;
}
counted retried result = record result {
  processed = result.processed + 1;
  retried = result.retried + 1;
}

module _ (o : Outside FileStore) (codec : Codec) (worker_owner : String)
    (max_blob_deletes : ℕ) where
  unfoldable pub recover : OperationRow → Action Recovered
  unfolding recover_upload_cleanup recover_delete_tree
  recover operation =
      if is_upload_cleanup operation.operation_kind
      then recover_upload_cleanup o codec operation worker_owner
      else recover_delete_tree o codec operation worker_owner max_blob_deletes

  unfoldable pub recover_claimed : Option OperationRow → RecoveryResult → Action RecoveryResult
  unfolding recover
  recover_claimed none result = pure result
  recover_claimed (some operation) result = do
    outcome ← recover operation
    pure (counted outcome result)

  unfoldable pub recover_each : List OperationRow → RecoveryResult → Action RecoveryResult
  unfolding claim_storage_recovery_operation recover_claimed
  recover_each [] result = pure result
  recover_each (candidate ∷ rest) result = do
    now ← date_now o
    operation ← claim_storage_recovery_operation o candidate.id worker_owner lease_duration_ms now
    after ← recover_claimed operation result
    recover_each rest after

  unfoldable pub reconcile_storage_recovery : ℕ → Action RecoveryResult
  unfolding read_operations claimable_operations recover_each
  reconcile_storage_recovery limit = do
    now ← date_now o
    operations ← read_operations o (claimable_operations limit now)
    recover_each operations (record { processed = 0; completed = 0; retried = 0 })
