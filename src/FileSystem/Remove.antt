-- ===== src/FileSystem/Remove.antt =====
-- `deleteEntryTrees` of worker/file-system.ts.
use Prim.Native.String.{String, ◌++◌ as ◌<>◌}
use ilist.Base.{
  ℕ, Bool, false, not, Option, none, some, List, ◌||◌, ltb, text_eq, find_first, if◌then◌else◌,
}
use ilist.Base.Exec.{
  Outside, Result, ok, err, Failure, http_error, pure, throw, lift, ◌>>=◌, ◌>>◌, random_uuid,
}
use ilist.Json.{Codec, obj, end}
use ilist.FileSystem.Row.{
  EntryRow, OperationRow, FileStore, delete_tree, pending, is_ready, is_deleting, is_completed,
}
use ilist.FileSystem.Recovery.{NewOperation}
use ilist.FileSystem.Store.{count_descendant_rows, claim_entry_tree_for_deletion}
use ilist.FileSystem.Store.Operations.{
  is_operation, enqueue_storage_recovery_operation, operations_of_entry,
}
use ilist.FileSystem.Db.{Action, read_entries, read_operations, stamp_entries, stamp_operations}
use ilist.FileSystem.Errors.{
  entry_not_found, delete_in_progress, storage_failed, known_code, BatchResult, batch,
}
use ilist.FileSystem.Edit.{get_entry_by_id, or_throw}
use ilist.FileSystem.Recover.Tree.{RecoveryResult, reconcile_storage_recovery}

abbrev pub operations_limit : ℕ
operations_limit = 100

-- `(await listStorageRecoveryOperations(db, id)).find((item) => item.id === operationId)`
abbrev pub find_operation : String → List OperationRow → Option OperationRow
find_operation id rows = find_first (is_operation id) rows

abbrev is_root_or_busy : EntryRow → Bool
is_root_or_busy target = text_eq target.id "root" || not (is_ready target.status)

-- the first check of the loop
unfoldable pub checked_deletable : Option EntryRow → Result EntryRow
checked_deletable none = err entry_not_found
checked_deletable (some target) =
    if not (is_root_or_busy target)
    then ok target
    else if is_deleting target.status
    then err delete_in_progress
    else err entry_not_found

-- why a tree could not be claimed
unfoldable pub unclaimed : Option EntryRow → Failure
unclaimed none = entry_not_found
unclaimed (some current) =
    if is_deleting current.status || is_ready current.status
    then delete_in_progress
    else entry_not_found

abbrev is_done : Option OperationRow → Bool
is_done none = false
is_done (some operation) = is_completed operation.state

module _ (o : Outside FileStore) (codec : Codec) where
  -- `reconcileStorageRecovery` with a new owner
  unfoldable pub reconcile : ℕ → ℕ → Action RecoveryResult
  unfolding reconcile_storage_recovery
  reconcile limit max_blob_deletes = do
    worker_owner ← random_uuid o
    reconcile_storage_recovery o codec worker_owner max_blob_deletes limit

  unfoldable pub delete_operation : String → String → NewOperation
  delete_operation id owner = record {
    id = "delete:" <> (id <> (":" <> owner));
    entry_id = id;
    operation_kind = delete_tree;
    storage_key = none;
    attempt_owner = owner;
    phase = "claim_tree";
    payload = codec.stringify (obj end);
    state = pending;
  }

  unfoldable pub claim_tree : String → String → Action (Unit {0})
  unfolding stamp_entries claim_entry_tree_for_deletion read_entries get_entry_by_id unclaimed
  claim_tree id owner = do
    claimed ← stamp_entries o (claim_entry_tree_for_deletion id owner)
    if claimed
        then pure tt
        else (do current ← read_entries o (get_entry_by_id id); throw (unclaimed current))

  unfoldable pub delete_one : ℕ → String → Action (Unit {0})
  unfolding read_entries get_entry_by_id checked_deletable count_descendant_rows stamp_operations
      delete_operation enqueue_storage_recovery_operation claim_tree reconcile read_operations
      operations_of_entry
  delete_one max_entries id = do
    found ← read_entries o (get_entry_by_id id)
    _ ← lift (checked_deletable found)
    entry_count ← read_entries o (count_descendant_rows id)
    or_throw (http_error 409 "OPERATION_LIMIT_EXCEEDED") (not (ltb max_entries entry_count))
        (pure tt)
    owner ← random_uuid o
    queued ← stamp_operations o (enqueue_storage_recovery_operation (delete_operation id owner))
    or_throw delete_in_progress queued (pure tt)
    claim_tree id owner
    _ ← reconcile 20 max_entries
    rows ← read_operations o (operations_of_entry id operations_limit)
    or_throw storage_failed (is_done (find_operation (delete_operation id owner).id rows)) (pure tt)

  unfoldable pub delete_entry_trees : ℕ → List String → Action BatchResult
  unfolding batch delete_one
  delete_entry_trees max_entries ids =
      batch (delete_one max_entries) (known_code "DELETE_FAILED") ids
