-- ===== src/FileSystem/Recover.antt =====
-- `reconcileStorageRecovery` of worker/file-system.ts and what it does for each operation. The
-- heartbeat's interval is one of the other requests; its state is whether ownership was lost.
pub mod Tree
use Prim.Native.String.{String}
use ilist.Base.{
  ℕ, zero, suc, ◌+◌, Bool, true, false, not, Option, none, some, List, [], ◌∷◌, ◌++◌, ◌&&◌, ◌||◌,
  text_eq, is_text, is_some, find_first, keep, map, exists_in, if◌then◌else◌, take, length, ltb,
}
use ilist.Base.Exec.{
  Exec, Outside, Result, ok, err, Failure, failure, http_error, s3_error, rate_limited, pure, throw,
  lift, attempt, ◌>>=◌, ◌>>◌, date_now, random_uuid,
}
use ilist.Json.{Json, str, obj, arr, Items, nil, cons, field, end, Codec}
use ilist.FileSystem.Row.{EntryRow, OperationRow, FileStore, is_uploading, is_deleting, is_file}
use ilist.FileSystem.Entries.{given_text, is_entry, is_uploading_by}
use ilist.FileSystem.Store.{Entries, delete_uploading_entry}
use ilist.FileSystem.Store.Operations.{
  renew_storage_recovery_operation, update_claimed_storage_recovery_operation,
  complete_storage_recovery_operation, retry_storage_recovery_operation,
}
use ilist.FileSystem.Db.{
  Action, read_entries, read_operations, write_entries, write_operations, stamp_operations,
  delete_blob,
}
use ilist.FileSystem.Edit.{get_entry_by_id}

pub data Recovered : Type 0 where
  completed retried : Recovered

abbrev pub lease_duration_ms : ℕ
lease_duration_ms = 30000

abbrev cut : ℕ → String → String
cut zero s = String.[]
cut (suc n) String.[] = String.[]
cut (suc n) (String.◌∷◌ c s) = String.◌∷◌ c (cut n s)

-- `error.message.slice(0, 1000)`; an HttpError does not reach it
unfoldable pub error_text : Failure → String
error_text (failure message) = cut 1000 message
error_text _ = ""

unfoldable pub find_entry_by_storage_key : String → Entries → Option EntryRow
find_entry_by_storage_key key t = find_first (λ r. is_text r.storage_key key) t

abbrev pub keys_items : List String → Items
keys_items [] = nil
keys_items (key ∷ keys) = cons (str key) (keys_items keys)

-- `{ deletedKeys: [...] }`
unfoldable pub deleted_keys : List String → Json
deleted_keys keys = obj (field "deletedKeys" (arr (keys_items keys)) end)

module _ (o : Outside FileStore) (codec : Codec) where
  abbrev pub renewed_or_not : Result Bool → Action Bool
  renewed_or_not (ok renewed) = pure (not renewed)
  renewed_or_not (err e) = pure false

  -- `touch` of `startRecoveryClaimHeartbeat`, and whether ownership was lost
  unfoldable pub touch_claim : String → String → Action Bool
  unfolding write_operations renew_storage_recovery_operation
  touch_claim id claim_owner = do
    now ← date_now o
    outcome ←
        attempt (
          write_operations o
            (renew_storage_recovery_operation id claim_owner lease_duration_ms now))
    renewed_or_not outcome

  -- the steps after a touch, unless ownership was lost
  unfoldable pub while_owned : String → String → Action Recovered → Action Recovered
  unfolding touch_claim
  while_owned id claim_owner next = do
    lost ← touch_claim id claim_owner
    if lost then pure retried else next

  unfoldable pub complete_operation : String → String → Action Recovered
  unfolding stamp_operations complete_storage_recovery_operation
  complete_operation id claim_owner = do
    _ ← stamp_operations o (complete_storage_recovery_operation id claim_owner)
    pure completed

  unfoldable pub retry_operation : String → String → Failure → Action Recovered
  unfolding stamp_operations retry_storage_recovery_operation error_text
  retry_operation id claim_owner e = do
    _ ← stamp_operations o (retry_storage_recovery_operation id claim_owner (error_text e))
    pure retried

  -- `catch`, where ownership is not lost: a touch that loses it ends the `try` without an error
  abbrev pub or_retry : String → String → Result Recovered → Action Recovered
  or_retry id claim_owner (ok outcome) = pure outcome
  or_retry id claim_owner (err e) = retry_operation id claim_owner e

  unfoldable pub save_progress : String → String → String → List String → Action Bool
  unfolding stamp_operations update_claimed_storage_recovery_operation deleted_keys
  save_progress id claim_owner phase keys = stamp_operations o (
      update_claimed_storage_recovery_operation id claim_owner phase
        (codec.stringify (deleted_keys keys)))

  unfoldable pub claim_was_lost : String → String → Action Recovered
  unfolding retry_operation
  claim_was_lost id claim_owner = retry_operation id claim_owner (failure "Recovery claim was lost")

  -- the entry has gone or has another owner: delete the blob unless an entry has it
  unfoldable pub cleanup_unowned : OperationRow → String → String → Action Recovered
  unfolding read_entries find_entry_by_storage_key while_owned complete_operation delete_blob
  cleanup_unowned operation claim_owner storage_key = do
    current_owner ← read_entries o (find_entry_by_storage_key storage_key)
    if is_some current_owner
        then while_owned operation.id claim_owner (complete_operation operation.id claim_owner)
        else (do
          outcome ← attempt (do
            delete_blob o storage_key
            while_owned operation.id claim_owner (complete_operation operation.id claim_owner))
          or_retry operation.id claim_owner outcome)

  unfoldable pub after_progress : OperationRow → String → String → Bool → Action Recovered
  unfolding write_entries delete_uploading_entry complete_operation claim_was_lost
  after_progress operation claim_owner entry_id false = claim_was_lost operation.id claim_owner
  after_progress operation claim_owner entry_id true = do
    _ ← write_entries o (delete_uploading_entry entry_id operation.attempt_owner)
    complete_operation operation.id claim_owner

  unfoldable pub cleanup_owned : OperationRow → String → String → String → Action Recovered
  unfolding delete_blob while_owned save_progress after_progress
  cleanup_owned operation claim_owner storage_key entry_id = do
    outcome ← attempt (do
      delete_blob o storage_key
      while_owned operation.id claim_owner (do
        saved ← save_progress operation.id claim_owner "delete_metadata" (storage_key ∷ [])
        after_progress operation claim_owner entry_id saved))
    or_retry operation.id claim_owner outcome

  abbrev is_owned : OperationRow → Option EntryRow → Bool
  is_owned operation none = false
  is_owned operation (some row) = is_uploading_by operation.attempt_owner row

  unfoldable pub cleanup_key : OperationRow → String → Option String → Action Recovered
  unfolding while_owned complete_operation read_entries get_entry_by_id is_uploading_by
      cleanup_owned cleanup_unowned
  cleanup_key operation claim_owner none =
      while_owned operation.id claim_owner (complete_operation operation.id claim_owner)
  cleanup_key operation claim_owner (some storage_key) = do
    row ← read_entries o (get_entry_by_id operation.entry_id)
    if is_owned operation row
        then cleanup_owned operation claim_owner storage_key operation.entry_id
        else cleanup_unowned operation claim_owner storage_key

  unfoldable pub recover_upload_cleanup : OperationRow → String → Action Recovered
  unfolding cleanup_key
  recover_upload_cleanup operation claim_owner =
      cleanup_key operation claim_owner (given_text operation.storage_key)
