-- ===== src/FileSystem/Rivals.antt =====
-- The other requests of worker/file-system.ts, as the writes that reach the tables and the bucket
-- between two steps of one request.
use ilist.Base.{ℕ, String, List, [], ◌∷◌}
use ilist.Base.Exec.{Outside}
use ilist.Base.Keeps.{Fair}
use ilist.Base.Table.{deleted}
use ilist.Base.{text_eq}
use ilist.FileSystem.Row.{FileStore, EntryRow}
use ilist.FileSystem.Entries.{Metadata, EntryPatch}
use ilist.FileSystem.Recovery.{NewOperation}
use ilist.FileSystem.Store.{
  Outcome, insert_entry_under_ready_parent, finalize_uploaded_entry, update_ready_entry_fields,
  move_ready_entry, delete_uploading_entry, delete_deleting_entry, claim_entry_tree_for_deletion,
}
use ilist.FileSystem.Store.Keep.{
  Leaves, finalize_uploaded_entry-Leaves, update_ready_entry_fields-Leaves, move_ready_entry-Leaves,
  delete_uploading_entry-Leaves, delete_deleting_entry-Leaves, claim_entry_tree_for_deletion-Leaves,
  insert_entry_under_ready_parent-Leaves,
}
use ilist.FileSystem.Store.Operations.{
  Operations, enqueue_storage_recovery_operation, touch_held_storage_recovery_operation,
  activate_storage_recovery_operation, claim_operation, renew_storage_recovery_operation,
  update_claimed_storage_recovery_operation, complete_storage_recovery_operation,
  retry_storage_recovery_operation,
}
use ilist.FileSystem.Store.Exclusive.{
  LeavesExclusive, touch_held_storage_recovery_operation-LeavesExclusive,
  activate_storage_recovery_operation-LeavesExclusive, claim_operation-LeavesExclusive,
  renew_storage_recovery_operation-LeavesExclusive,
  update_claimed_storage_recovery_operation-LeavesExclusive,
  complete_storage_recovery_operation-LeavesExclusive,
  retry_storage_recovery_operation-LeavesExclusive,
  enqueue_storage_recovery_operation-LeavesExclusive,
}
use ilist.FileSystem.Whole.{IsWhole}

-- each with the times that it reads at the end
pub data Write : Type 0 where
  insert : EntryRow → Write
  finalize : String → String → Metadata → ℕ → Write
  update : String → EntryPatch → ℕ → Write
  move : String → String → ℕ → Write
  delete_uploading delete_deleting : String → String → Write
  claim_tree : String → String → ℕ → Write
  enqueue : NewOperation → ℕ → Write
  touch : String → String → ℕ → Write
  activate : String → String → String → ℕ → Write
  claim : String → String → ℕ → ℕ → ℕ → Write
  renew : String → String → ℕ → ℕ → Write
  progress : String → String → String → String → ℕ → Write
  complete : String → String → ℕ → Write
  back_off : String → String → String → ℕ → Write
  put remove : String → Write

abbrev with_entries : {A : Type 0} → FileStore → Outcome A → FileStore
with_entries s outcome = record s { entries = outcome.1 }

abbrev with_operations : {A : Type 0} → FileStore → A × Operations → FileStore
with_operations s outcome = record s { operations = outcome.1 }

-- a write that a constraint refuses leaves the tables as they are
unfoldable pub write : Write → FileStore → FileStore
write (insert row) s = with_entries s (insert_entry_under_ready_parent row s.entries)
write (finalize id owner metadata now) s =
    with_entries s (finalize_uploaded_entry id owner metadata now s.entries)
write (update id fields now) s = with_entries s (update_ready_entry_fields id fields now s.entries)
write (move id destination_id now) s =
    with_entries s (move_ready_entry id destination_id now s.entries)
write (delete_uploading id owner) s = with_entries s (delete_uploading_entry id owner s.entries)
write (delete_deleting id owner) s = with_entries s (delete_deleting_entry id owner s.entries)
write (claim_tree id owner now) s =
    with_entries s (claim_entry_tree_for_deletion id owner now s.entries)
write (enqueue input now) s =
    with_operations s (enqueue_storage_recovery_operation input now s.operations)
write (touch id attempt_owner now) s =
    with_operations s (touch_held_storage_recovery_operation id attempt_owner now s.operations)
write (activate id phase payload now) s =
    with_operations s (activate_storage_recovery_operation id phase payload now s.operations)
write (claim id owner lease now stamp) s =
    with_operations s (claim_operation id owner lease now stamp s.operations)
write (renew id owner lease now) s =
    with_operations s (renew_storage_recovery_operation id owner lease now s.operations)
write (progress id owner phase payload now) s =
    with_operations s
      (update_claimed_storage_recovery_operation id owner phase payload now s.operations)
write (complete id owner now) s =
    with_operations s (complete_storage_recovery_operation id owner now s.operations)
write (back_off id owner message now) s =
    with_operations s (retry_storage_recovery_operation id owner message now s.operations)
write (put key) s = record s { blobs = key ∷ s.blobs }
write (remove key) s = record s { blobs = deleted (λ k. text_eq k key) s.blobs }

unfoldable pub write_all : List Write → FileStore → FileStore
unfolding write
write_all [] s = s
write_all (x ∷ xs) s = write_all xs (write x s)

-- `schedule` says what arrives before each step
abbrev pub among : (ℕ → List Write) → Outside FileStore → Outside FileStore
among schedule o = record o { others = λ n. write_all (schedule n) }

entries-IsWhole :
    {A : Type 0} (s : FileStore) (outcome : Outcome A)
    → IsWhole s
    → Leaves outcome
    → IsWhole (with_entries s outcome)
entries-IsWhole s outcome h k = record { tree = k.tree; exclusive = h.exclusive }

operations-IsWhole :
    {A : Type 0} (s : FileStore) (outcome : A × Operations)
    → IsWhole s
    → LeavesExclusive outcome
    → IsWhole (with_operations s outcome)
operations-IsWhole s outcome h k = record { tree = h.tree; exclusive = k.exclusive }

write-IsWhole : (x : Write) (s : FileStore) → IsWhole s → IsWhole (write x s)
unfolding write
write-IsWhole (insert row) s h =
    entries-IsWhole s _ h (insert_entry_under_ready_parent-Leaves row s.entries h.tree)
write-IsWhole (finalize id owner metadata now) s h =
    entries-IsWhole s _ h (finalize_uploaded_entry-Leaves id owner metadata now s.entries h.tree)
write-IsWhole (update id fields now) s h =
    entries-IsWhole s _ h (update_ready_entry_fields-Leaves id fields now s.entries h.tree)
write-IsWhole (move id destination_id now) s h =
    entries-IsWhole s _ h (move_ready_entry-Leaves id destination_id now s.entries h.tree)
write-IsWhole (delete_uploading id owner) s h =
    entries-IsWhole s _ h (delete_uploading_entry-Leaves id owner s.entries h.tree)
write-IsWhole (delete_deleting id owner) s h =
    entries-IsWhole s _ h (delete_deleting_entry-Leaves id owner s.entries h.tree)
write-IsWhole (claim_tree id owner now) s h =
    entries-IsWhole s _ h (claim_entry_tree_for_deletion-Leaves id owner now s.entries h.tree)
write-IsWhole (enqueue input now) s h =
    operations-IsWhole s _ h
      (enqueue_storage_recovery_operation-LeavesExclusive input now s.operations h.exclusive)
write-IsWhole (touch id attempt_owner now) s h = operations-IsWhole s _ h (
    touch_held_storage_recovery_operation-LeavesExclusive id attempt_owner now s.operations
      h.exclusive)
write-IsWhole (activate id phase payload now) s h = operations-IsWhole s _ h (
    activate_storage_recovery_operation-LeavesExclusive id phase payload now s.operations
      h.exclusive)
write-IsWhole (claim id owner lease now stamp) s h =
    operations-IsWhole s _ h
      (claim_operation-LeavesExclusive id owner lease now stamp s.operations h.exclusive)
write-IsWhole (renew id owner lease now) s h =
    operations-IsWhole s _ h
      (renew_storage_recovery_operation-LeavesExclusive id owner lease now s.operations h.exclusive)
write-IsWhole (progress id owner phase payload now) s h = operations-IsWhole s _ h (
    update_claimed_storage_recovery_operation-LeavesExclusive id owner phase payload now
      s.operations h.exclusive)
write-IsWhole (complete id owner now) s h =
    operations-IsWhole s _ h
      (complete_storage_recovery_operation-LeavesExclusive id owner now s.operations h.exclusive)
write-IsWhole (back_off id owner message now) s h =
    operations-IsWhole s _ h (
      retry_storage_recovery_operation-LeavesExclusive id owner message now s.operations
        h.exclusive)
write-IsWhole (put key) s h = record { tree = h.tree; exclusive = h.exclusive }
write-IsWhole (remove key) s h = record { tree = h.tree; exclusive = h.exclusive }

write_all-IsWhole : (xs : List Write) (s : FileStore) → IsWhole s → IsWhole (write_all xs s)
unfolding write_all
write_all-IsWhole [] s h = h
write_all-IsWhole (x ∷ xs) s h = write_all-IsWhole xs (write x s) (write-IsWhole x s h)

pub among-Fair :
    (schedule : ℕ → List Write) (o : Outside FileStore) → Fair IsWhole (among schedule o)
among-Fair schedule o = record { keeps = λ n s h. write_all-IsWhole (schedule n) s h }
