-- ===== src/FileSystem/Whole/Recover.antt =====
-- `reconcileStorageRecovery`, `deleteEntryTrees` and the invariant.
use ilist.Base.{ℕ, String, Bool, true, false, Option, none, some, List, [], ◌∷◌}
use ilist.Base.Exec.{Outside, Result, ok, err, Failure}
use ilist.Base.Keeps.{Keeps, Fair, Keeps-bind, Keeps-if}
use ilist.Json.{Codec}
use ilist.FileSystem.Row.{EntryRow, OperationRow, FileStore}
use ilist.FileSystem.Db.{Action}
use ilist.FileSystem.Whole.{IsWhole, flow, db_rules, entry_rules, operation_rules, Keeps-batch}
use ilist.FileSystem.Recover.{
  Recovered, touch_claim, while_owned, complete_operation, retry_operation, or_retry, save_progress,
  claim_was_lost, cleanup_unowned, after_progress, cleanup_owned, cleanup_key,
  recover_upload_cleanup, renewed_or_not,
}
use ilist.FileSystem.Recover.Tree.{
  delete_blobs, delete_rows, after_blobs, recover_delete_tree, RecoveryResult, recover,
  recover_claimed, recover_each, reconcile_storage_recovery,
}
use ilist.FileSystem.Remove.{reconcile, claim_tree, delete_one, delete_entry_trees}

module _ (o : Outside FileStore) (codec : Codec) (fair : Fair IsWhole o) where
  Keeps-renewed_or_not : (r : Result Bool) → Keeps IsWhole (renewed_or_not o codec r)
  Keeps-renewed_or_not (ok b) = search flow
  Keeps-renewed_or_not (err e) = search flow

  Keeps-touch_claim : (id claim_owner : String) → Keeps IsWhole (touch_claim o codec id claim_owner)
  unfolding touch_claim
  Keeps-touch_claim id claim_owner =
      search (flow, db_rules, operation_rules, Keeps-renewed_or_not) depth 9

  Keeps-while_owned :
      (id claim_owner : String) (next : Action Recovered)
      → Keeps IsWhole next
      → Keeps IsWhole (while_owned o codec id claim_owner next)
  unfolding while_owned
  Keeps-while_owned id claim_owner next k = search (flow, Keeps-touch_claim)

  Keeps-complete_operation :
      (id claim_owner : String) → Keeps IsWhole (complete_operation o codec id claim_owner)
  unfolding complete_operation
  Keeps-complete_operation id claim_owner = search (flow, db_rules, operation_rules)

  Keeps-retry_operation :
      (id claim_owner : String) (e : Failure)
      → Keeps IsWhole (retry_operation o codec id claim_owner e)
  unfolding retry_operation
  Keeps-retry_operation id claim_owner e = search (flow, db_rules, operation_rules)

  Keeps-or_retry :
      (id claim_owner : String) (r : Result Recovered)
      → Keeps IsWhole (or_retry o codec id claim_owner r)
  Keeps-or_retry id claim_owner (ok outcome) = search flow
  Keeps-or_retry id claim_owner (err e) = search Keeps-retry_operation

  Keeps-save_progress :
      (id claim_owner phase : String) (keys : List String)
      → Keeps IsWhole (save_progress o codec id claim_owner phase keys)
  unfolding save_progress
  Keeps-save_progress id claim_owner phase keys = search (flow, db_rules, operation_rules)

  Keeps-claim_was_lost :
      (id claim_owner : String) → Keeps IsWhole (claim_was_lost o codec id claim_owner)
  unfolding claim_was_lost
  Keeps-claim_was_lost id claim_owner = search Keeps-retry_operation

  ruleset claim_rules = (
    Keeps-while_owned, Keeps-complete_operation, Keeps-retry_operation, Keeps-or_retry,
    Keeps-save_progress, Keeps-claim_was_lost,
  )

  Keeps-cleanup_unowned :
      (operation : OperationRow) (claim_owner key : String)
      → Keeps IsWhole (cleanup_unowned o codec operation claim_owner key)
  unfolding cleanup_unowned
  Keeps-cleanup_unowned operation claim_owner key = search (flow, db_rules, claim_rules) depth 10

  Keeps-after_progress :
      (operation : OperationRow) (claim_owner entry_id : String) (saved : Bool)
      → Keeps IsWhole (after_progress o codec operation claim_owner entry_id saved)
  unfolding after_progress
  Keeps-after_progress operation claim_owner entry_id false = search claim_rules
  Keeps-after_progress operation claim_owner entry_id true =
      search (flow, db_rules, entry_rules, claim_rules)

  Keeps-cleanup_owned :
      (operation : OperationRow) (claim_owner key entry_id : String)
      → Keeps IsWhole (cleanup_owned o codec operation claim_owner key entry_id)
  unfolding cleanup_owned
  Keeps-cleanup_owned operation claim_owner key entry_id =
      search (flow, db_rules, claim_rules, Keeps-after_progress) depth 10

  Keeps-cleanup_key :
      (operation : OperationRow) (claim_owner : String) (key : Option String)
      → Keeps IsWhole (cleanup_key o codec operation claim_owner key)
  unfolding cleanup_key
  Keeps-cleanup_key operation claim_owner none = search claim_rules
  Keeps-cleanup_key operation claim_owner (some key) =
      search (flow, db_rules, Keeps-cleanup_owned, Keeps-cleanup_unowned) depth 8

  Keeps-recover_upload_cleanup :
      (operation : OperationRow) (claim_owner : String)
      → Keeps IsWhole (recover_upload_cleanup o codec operation claim_owner)
  unfolding recover_upload_cleanup
  Keeps-recover_upload_cleanup operation claim_owner = search Keeps-cleanup_key

  module _ (operation : OperationRow) (claim_owner : String) where
    Keeps-delete_blobs :
        (keys done : List String) (next : List String → Action Recovered)
        → ((done : List String) → Keeps IsWhole (next done))
        → Keeps IsWhole (delete_blobs o codec operation claim_owner keys done next)
    unfolding delete_blobs
    Keeps-delete_blobs [] done next k = k done
    Keeps-delete_blobs (key ∷ keys) done next k =
        let rest = Keeps-delete_blobs keys in search (flow, db_rules, claim_rules, rest, k) depth 10

    Keeps-delete_rows :
        (rows : List EntryRow) → Keeps IsWhole (delete_rows o codec operation claim_owner rows)
    unfolding delete_rows
    Keeps-delete_rows [] = search claim_rules
    Keeps-delete_rows (row ∷ rows) =
        let rest = Keeps-delete_rows rows in
        Keeps-bind _ _ (search (db_rules, entry_rules)) (λ deleted_row.
          Keeps-if deleted_row _ _ rest (
            Keeps-bind _ _ (search db_rules)
              (λ current. Keeps-if _ _ _ (Keeps-complete_operation operation.id claim_owner) rest)))

    Keeps-after_blobs :
        (rows : List EntryRow) (more : Bool) (done : List String)
        → Keeps IsWhole (after_blobs o codec operation claim_owner rows more done)
    unfolding after_blobs
    Keeps-after_blobs rows more done = search (flow, claim_rules, Keeps-delete_rows) depth 10

    Keeps-recover_delete_tree :
        (max_blob_deletes : ℕ)
        → Keeps IsWhole (recover_delete_tree o codec operation claim_owner max_blob_deletes)
    unfolding recover_delete_tree
    Keeps-recover_delete_tree max_blob_deletes =
        search (flow, db_rules, claim_rules, Keeps-delete_blobs, Keeps-after_blobs) depth 12

  Keeps-recover :
      (worker_owner : String) (max_blob_deletes : ℕ) (operation : OperationRow)
      → Keeps IsWhole (recover o codec worker_owner max_blob_deletes operation)
  unfolding recover
  Keeps-recover worker_owner max_blob_deletes operation =
      search (flow, Keeps-recover_upload_cleanup, Keeps-recover_delete_tree)

  Keeps-recover_claimed :
      (worker_owner : String) (max_blob_deletes : ℕ) (operation : Option OperationRow)
      (result : RecoveryResult)
      → Keeps IsWhole (recover_claimed o codec worker_owner max_blob_deletes operation result)
  unfolding recover_claimed
  Keeps-recover_claimed worker_owner max_blob_deletes none result = search flow
  Keeps-recover_claimed worker_owner max_blob_deletes (some operation) result =
      search (flow, Keeps-recover)

  Keeps-recover_each :
      (worker_owner : String) (max_blob_deletes : ℕ) (rows : List OperationRow)
      (result : RecoveryResult)
      → Keeps IsWhole (recover_each o codec worker_owner max_blob_deletes rows result)
  unfolding recover_each
  Keeps-recover_each worker_owner max_blob_deletes [] result = search flow
  Keeps-recover_each worker_owner max_blob_deletes (row ∷ rows) result =
      let rest = Keeps-recover_each worker_owner max_blob_deletes rows in
      search (flow, db_rules, Keeps-recover_claimed, rest) depth 9

  pub Keeps-reconcile_storage_recovery :
      (worker_owner : String) (max_blob_deletes limit : ℕ)
      → Keeps IsWhole (reconcile_storage_recovery o codec worker_owner max_blob_deletes limit)
  unfolding reconcile_storage_recovery
  Keeps-reconcile_storage_recovery worker_owner max_blob_deletes limit =
      search (flow, db_rules, Keeps-recover_each) depth 7

  pub Keeps-reconcile :
      (limit max_blob_deletes : ℕ) → Keeps IsWhole (reconcile o codec limit max_blob_deletes)
  unfolding reconcile
  Keeps-reconcile limit max_blob_deletes = search (flow, Keeps-reconcile_storage_recovery)

  Keeps-claim_tree : (id owner : String) → Keeps IsWhole (claim_tree o codec id owner)
  unfolding claim_tree
  Keeps-claim_tree id owner = search (flow, db_rules, entry_rules) depth 10

  Keeps-delete_one :
      (max_entries : ℕ) (id : String) → Keeps IsWhole (delete_one o codec max_entries id)
  unfolding delete_one
  Keeps-delete_one max_entries id =
      search (flow, db_rules, operation_rules, Keeps-claim_tree, Keeps-reconcile) depth 16

  pub Keeps-delete_entry_trees :
      (max_entries : ℕ) (ids : List String)
      → Keeps IsWhole (delete_entry_trees o codec max_entries ids)
  unfolding delete_entry_trees
  Keeps-delete_entry_trees max_entries ids = search (Keeps-batch, Keeps-delete_one)
