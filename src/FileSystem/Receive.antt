-- ===== src/FileSystem/Receive.antt =====
-- `uploadFile` of worker/file-system.ts. The heartbeat's interval is one of the other requests;
-- what R2 says of a stored blob is a parameter.
use Prim.Native.String.{String, ◌++◌ as ◌<>◌}
use ilist.Base.{ℕ, Bool, true, false, not, Option, none, some, text_eq, if◌then◌else◌}
use ilist.Base.Exec.{
  Outside, Result, ok, err, Failure, failure, http_error, rate_limited, pure, throw, lift, attempt,
  ◌>>=◌, ◌>>◌, date_now, random_uuid,
}
use ilist.Json.{Codec, obj, end}
use ilist.FileSystem.Row.{
  EntryRow, OperationRow, FileStore, file, uploading, upload_cleanup, held, is_ready, is_uploading,
  is_pending,
}
use ilist.FileSystem.Entries.{Metadata}
use ilist.FileSystem.Recovery.{NewOperation}
use ilist.FileSystem.Names.{validate_client_entry_id, validate_entry_name, storage_key_for_entry}
use ilist.FileSystem.Api.{Entry}
use ilist.FileSystem.Store.{insert_entry_under_ready_parent, finalize_uploaded_entry}
use ilist.FileSystem.Store.Operations.{
  enqueue_storage_recovery_operation, touch_held_storage_recovery_operation,
  activate_storage_recovery_operation, operations_of_entry,
}
use ilist.FileSystem.Db.{
  Action, read_entries, read_operations, write_entries, stamp_entries, write_operations,
  stamp_operations, put_blob,
}
use ilist.FileSystem.Errors.{
  or_name_conflict, entry_id_conflict, entry_not_found, upload_in_progress, entry_id_taken,
  storage_failed,
}
use ilist.FileSystem.Edit.{get_entry_by_id, require_folder, ensure_name_available, shown, or_throw}
use ilist.FileSystem.Remove.{operations_limit, find_operation, reconcile}

pub record FileUpload : Type 0 where
  pub has_body : Bool
  pub content_type : Option String
  pub id : String
  pub parent_id : String
  pub name : String

-- the errors for an id that is taken
unfoldable pub taken : Option EntryRow → Failure
taken none = entry_id_taken
taken (some row) = if is_uploading row.status then upload_in_progress else entry_id_taken

abbrev free_id : Option EntryRow → Result (Unit {0})
free_id none = ok tt
free_id (some row) = err (taken (some row))

abbrev pub upload_operation_id : String → String → String
upload_operation_id id owner = "upload:" <> (id <> (":" <> owner))

unfoldable pub uploading_row : FileUpload → EntryRow → String → ℕ → EntryRow
unfolding storage_key_for_entry
uploading_row input parent owner now = record {
  id = input.id;
  parent_id = some parent.id;
  name = input.name;
  kind = file;
  storage_key = some (storage_key_for_entry input.id (some owner));
  size = 0;
  content_type = input.content_type;
  etag = none;
  status = uploading;
  lifecycle_owner = some owner;
  is_public = parent.is_public;
  sort_order = 0;
  description = "";
  created_at = now;
  updated_at = now;
}

-- `object.httpMetadata?.contentType ?? request.headers.get('content-type')`
abbrev with_type : Option String → Metadata → Metadata
with_type requested metadata = elim metadata.content_type [
  | none ↦ record metadata { content_type = requested }
  | some t ↦ metadata
]

abbrev is_http : Failure → Bool
is_http (http_error status code) = true
is_http (rate_limited seconds) = true
is_http _ = false

abbrev is_open_operation : Option OperationRow → Bool
is_open_operation none = false
is_open_operation (some operation) = is_pending operation.state

module _ (o : Outside FileStore) (codec : Codec) (stored : String → Metadata) where
  unfoldable pub upload_operation : String → String → NewOperation
  unfolding storage_key_for_entry
  upload_operation id owner = record {
    id = upload_operation_id id owner;
    entry_id = id;
    operation_kind = upload_cleanup;
    storage_key = some (storage_key_for_entry id (some owner));
    attempt_owner = owner;
    phase = "uploading";
    payload = codec.stringify (obj end);
    state = held;
  }

  -- `activateStorageRecoveryOperation(…).catch(() => undefined)`
  unfoldable pub activate_quietly : String → String → Action (Unit {0})
  unfolding stamp_operations activate_storage_recovery_operation
  activate_quietly operation_id phase = do
    _ ← attempt (
        stamp_operations o
          (activate_storage_recovery_operation operation_id phase (codec.stringify (obj end))))
    pure tt

  -- the operation first, then the row
  unfoldable pub reserve : String → String → EntryRow → Action (Unit {0})
  unfolding stamp_operations enqueue_storage_recovery_operation upload_operation write_entries
      insert_entry_under_ready_parent activate_quietly
  reserve id owner row = do
    queued ← stamp_operations o (enqueue_storage_recovery_operation (upload_operation id owner))
    or_throw upload_in_progress queued (pure tt)
    written ← write_entries o (insert_entry_under_ready_parent row)
    if written then pure tt else (do
      activate_quietly (upload_operation_id id owner) "cleanup_blob"
      throw entry_not_found)

  unfoldable pub reserved : String → String → Result (Unit {0}) → Action (Unit {0})
  unfolding activate_quietly entry_id_conflict read_entries get_entry_by_id taken or_name_conflict
  reserved id owner (ok _) = pure tt
  reserved id owner (err e) = do
    activate_quietly (upload_operation_id id owner) "cleanup_blob"
    if entry_id_conflict e
        then (do concurrent ← read_entries o (get_entry_by_id id); throw (taken concurrent))
        else throw (or_name_conflict e)

  abbrev pub touched_or_not : Result Bool → Action Bool
  touched_or_not (ok touched) = pure (not touched)
  touched_or_not (err e) = pure false

  -- `touch` of `startUploadRecoveryHeartbeat`, and whether ownership was lost
  unfoldable pub touch_upload : String → String → Action Bool
  unfolding write_operations touch_held_storage_recovery_operation
  touch_upload operation_id owner = do
    now ← date_now o
    outcome ←
        attempt (write_operations o (touch_held_storage_recovery_operation operation_id owner now))
    touched_or_not outcome

  unfoldable pub reconcile_if : Bool → Action (Unit {0})
  unfolding reconcile
  reconcile_if false = pure tt
  reconcile_if true = do _ ← reconcile o codec 1 100; pure tt

  unfoldable pub store_and_finalize : FileUpload → String → String → Action (Unit {0})
  unfolding put_blob touch_upload stamp_entries finalize_uploaded_entry activate_quietly
      read_operations operations_of_entry reconcile_if
  store_and_finalize input owner key = do
    put_blob o key
    lost ← touch_upload (upload_operation_id input.id owner) owner
    or_throw (failure "Upload recovery ownership was lost") (not lost) (pure tt)
    finalized ←
        stamp_entries o
          (finalize_uploaded_entry input.id owner (with_type input.content_type (stored key)))
    or_throw (failure "Upload entry was not available for finalization") finalized (pure tt)
    activate_quietly (upload_operation_id input.id owner) "completed"
    rows ← read_operations o (operations_of_entry input.id operations_limit)
    reconcile_if (is_open_operation (find_operation (upload_operation_id input.id owner) rows))

  unfoldable pub or_upload_failed : String → String → Result (Unit {0}) → Action (Unit {0})
  unfolding activate_quietly reconcile
  or_upload_failed id owner (ok _) = pure tt
  or_upload_failed id owner (err e) = do
    activate_quietly (upload_operation_id id owner) "cleanup_blob"
    _ ← attempt (reconcile o codec 1 100)
    if is_http e then throw e else throw storage_failed

  unfoldable pub or_unfinalized : Option EntryRow → Action Entry
  unfolding shown
  or_unfinalized none = throw storage_failed
  or_unfinalized (some row) = if is_ready row.status then shown o row else throw storage_failed

  unfoldable pub upload_file : FileUpload → Action Entry
  unfolding validate_client_entry_id require_folder validate_entry_name read_entries get_entry_by_id
      taken ensure_name_available uploading_row storage_key_for_entry reserve reserved
      store_and_finalize or_upload_failed or_unfinalized
  upload_file input = do
    or_throw (http_error 400 "UPLOAD_BODY_MISSING") input.has_body (pure tt)
    _ ← lift (validate_client_entry_id input.id)
    parent ← require_folder o input.parent_id
    _ ← lift (validate_entry_name input.name (text_eq parent.id "root"))
    existing ← read_entries o (get_entry_by_id input.id)
    lift (free_id existing)
    ensure_name_available o parent.id input.name none
    now ← date_now o
    owner ← random_uuid o
    reservation ← attempt (reserve input.id owner (uploading_row input parent owner now))
    reserved input.id owner reservation
    outcome ← attempt (store_and_finalize input owner (storage_key_for_entry input.id (some owner)))
    or_upload_failed input.id owner outcome
    ready_row ← read_entries o (get_entry_by_id input.id)
    or_unfinalized ready_row
