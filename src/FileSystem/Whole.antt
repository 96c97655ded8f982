-- ===== src/FileSystem/Whole.antt =====
-- The invariant of the two tables, and the steps of worker/file-system.ts that keep it.
pub mod Edit
pub mod Recover
pub mod Copy
pub mod Receive
pub mod Requests
use ilist.Base.{ℕ, String, Bool, true, false, Option, none, some, List, [], ◌∷◌}
use ilist.Base.Exec.{
  Exec, Outside, World, Result, ok, err, Failure, pure, throw, lift, attempt, ◌>>=◌, statement,
}
use ilist.Base.Keeps.{
  Keeps, Fair, Keeps-pure, Keeps-throw, Keeps-lift, Keeps-if, Keeps-attempt, Keeps-bind,
  Keeps-date_now, Keeps-random_uuid, Keeps-statement,
}
use ilist.FileSystem.Row.{FileStore, OperationRow}
use ilist.FileSystem.Tree.{IsTree}
use ilist.FileSystem.Store.{Entries, Outcome}
use ilist.FileSystem.Store.Keep.{
  Leaves, finalize_uploaded_entry-Leaves, update_ready_entry_fields-Leaves, move_ready_entry-Leaves,
  delete_uploading_entry-Leaves, delete_deleting_entry-Leaves, claim_entry_tree_for_deletion-Leaves,
  insert_entry_under_ready_parent-Leaves,
}
use ilist.FileSystem.Store.Operations.{Operations}
use ilist.FileSystem.Store.Exclusive.{
  AreExclusive, LeavesExclusive, touch_held_storage_recovery_operation-LeavesExclusive,
  activate_storage_recovery_operation-LeavesExclusive, claim_operation-LeavesExclusive,
  renew_storage_recovery_operation-LeavesExclusive,
  update_claimed_storage_recovery_operation-LeavesExclusive,
  complete_storage_recovery_operation-LeavesExclusive,
  retry_storage_recovery_operation-LeavesExclusive,
  enqueue_storage_recovery_operation-LeavesExclusive,
}
use ilist.FileSystem.Errors.{
  BatchResult, batch_each, batch, distinct_ids, empty_result, record_outcome,
}
use ilist.FileSystem.Edit.{or_throw, or_conflict}
use ilist.FileSystem.Db.{
  Action, on_entries, on_operations, read_entries, read_operations, write_entries, stamp_entries,
  write_operations, stamp_operations, claimed_row, claim_storage_recovery_operation, get_blob,
  put_blob, delete_blob,
}

pub record IsWhole (s : FileStore) : Type 0 where
  pub tree : IsTree s.entries
  pub exclusive : AreExclusive s.operations

pub Keeps-or_throw :
    {A : Type 0} (e : Failure) (b : Bool) (next : Action A)
    → Keeps IsWhole next
    → Keeps IsWhole (or_throw e b next)
Keeps-or_throw e true next k = k
Keeps-or_throw e false next k = Keeps-throw e

pub Keeps-or_conflict : {A : Type 0} (r : Result A) → Keeps IsWhole (or_conflict r)
Keeps-or_conflict (ok a) = Keeps-pure a
Keeps-or_conflict (err e) = Keeps-throw _

pub ruleset flow = (
  Keeps-pure, Keeps-throw, Keeps-lift, Keeps-if, Keeps-attempt, Keeps-bind, Keeps-date_now,
  Keeps-random_uuid, Keeps-or_throw, Keeps-or_conflict,
)

module _ (o : Outside FileStore) (fair : Fair IsWhole o) where
  module _ {A : Type 0} where
    pub Keeps-read_entries : (f : Entries → A) → Keeps IsWhole (read_entries o f)
    unfolding read_entries
    Keeps-read_entries f = Keeps-statement o _ fair (λ s h. h)

    pub Keeps-read_operations : (f : Operations → A) → Keeps IsWhole (read_operations o f)
    unfolding read_operations
    Keeps-read_operations f = Keeps-statement o _ fair (λ s h. h)

    pub Keeps-write_entries :
        (f : Entries → Outcome A)
        → ((t : Entries) → IsTree t → Leaves (f t))
        → Keeps IsWhole (write_entries o f)
    unfolding write_entries
    Keeps-write_entries f k =
        Keeps-bind _ _
          (Keeps-statement o (on_entries f) fair
            (λ s h. record { tree = (k s.entries h.tree).tree; exclusive = h.exclusive }))
          Keeps-lift

    pub Keeps-stamp_entries :
        (f : ℕ → Entries → Outcome A)
        → ((now : ℕ) (t : Entries) → IsTree t → Leaves (f now t))
        → Keeps IsWhole (stamp_entries o f)
    unfolding stamp_entries
    Keeps-stamp_entries f k =
        Keeps-bind _ _ (Keeps-date_now o) (λ now. Keeps-write_entries (f now) (k now))

    pub Keeps-write_operations :
        (f : Operations → A × Operations)
        → ((t : Operations) → AreExclusive t → LeavesExclusive (f t))
        → Keeps IsWhole (write_operations o f)
    unfolding write_operations
    Keeps-write_operations f k =
        Keeps-statement o (on_operations f) fair
          (λ s h. record { tree = h.tree; exclusive = (k s.operations h.exclusive).exclusive })

    pub Keeps-stamp_operations :
        (f : ℕ → Operations → A × Operations)
        → ((now : ℕ) (t : Operations) → AreExclusive t → LeavesExclusive (f now t))
        → Keeps IsWhole (stamp_operations o f)
    unfolding stamp_operations
    Keeps-stamp_operations f k =
        Keeps-bind _ _ (Keeps-date_now o) (λ now. Keeps-write_operations (f now) (k now))

  pub Keeps-get_blob : (key : String) → Keeps IsWhole (get_blob o key)
  unfolding get_blob
  Keeps-get_blob key = Keeps-statement o _ fair (λ s h. h)

  pub Keeps-put_blob : (key : String) → Keeps IsWhole (put_blob o key)
  unfolding put_blob
  Keeps-put_blob key =
      Keeps-statement o _ fair (λ s h. record { tree = h.tree; exclusive = h.exclusive })

  pub Keeps-delete_blob : (key : String) → Keeps IsWhole (delete_blob o key)
  unfolding delete_blob
  Keeps-delete_blob key =
      Keeps-statement o _ fair (λ s h. record { tree = h.tree; exclusive = h.exclusive })

  Keeps-claimed_row :
      (id claim_owner : String) (changed : Bool)
      → Keeps IsWhole (claimed_row o id claim_owner changed)
  Keeps-claimed_row id claim_owner true = Keeps-read_operations _
  Keeps-claimed_row id claim_owner false = Keeps-pure none

  pub Keeps-claim_storage_recovery_operation :
      (id claim_owner : String) (lease now : ℕ)
      → Keeps IsWhole (claim_storage_recovery_operation o id claim_owner lease now)
  unfolding claim_storage_recovery_operation
  Keeps-claim_storage_recovery_operation id claim_owner lease now =
      Keeps-bind _ _
        (Keeps-stamp_operations _ (claim_operation-LeavesExclusive id claim_owner lease now))
        (Keeps-claimed_row id claim_owner)

pub ruleset db_rules = (
  Keeps-read_entries, Keeps-read_operations, Keeps-write_entries, Keeps-stamp_entries,
  Keeps-write_operations, Keeps-stamp_operations, Keeps-get_blob, Keeps-put_blob, Keeps-delete_blob,
  Keeps-claim_storage_recovery_operation,
)

pub ruleset entry_rules = (
  finalize_uploaded_entry-Leaves, update_ready_entry_fields-Leaves, move_ready_entry-Leaves,
  delete_uploading_entry-Leaves, delete_deleting_entry-Leaves, claim_entry_tree_for_deletion-Leaves,
  insert_entry_under_ready_parent-Leaves,
)

pub ruleset operation_rules = (
  touch_held_storage_recovery_operation-LeavesExclusive,
  activate_storage_recovery_operation-LeavesExclusive,
  renew_storage_recovery_operation-LeavesExclusive,
  update_claimed_storage_recovery_operation-LeavesExclusive,
  complete_storage_recovery_operation-LeavesExclusive,
  retry_storage_recovery_operation-LeavesExclusive,
  enqueue_storage_recovery_operation-LeavesExclusive,
)

module _ {A : Type 0} (body : String → Action A) (code : Failure → String)
    (k : (id : String) → Keeps IsWhole (body id)) where
  Keeps-batch_each :
      (ids : List String) (result : BatchResult) → Keeps IsWhole (batch_each body code ids result)
  unfolding batch_each
  Keeps-batch_each [] result = Keeps-pure result
  Keeps-batch_each (id ∷ ids) result =
      Keeps-bind _ _ (Keeps-attempt (body id) (k id)) (λ outcome. Keeps-batch_each ids _)

  pub Keeps-batch : (ids : List String) → Keeps IsWhole (batch body code ids)
  unfolding batch
  Keeps-batch ids = Keeps-batch_each (distinct_ids ids) empty_result
