-- ===== src/Upload/Service/Finish.antt =====
-- `completeResumableUpload` of worker/upload-service.ts. Where the source returns the entry of an
-- item (`externalEntry`), the model returns the item.
use ilist.Base.{ℕ, ◌+◌, String, Bool, not, Option, none, some, if◌then◌else◌, is_some}
use ilist.Base.Exec.{
  Outside, Result, ok, err, Failure, pure, throw, lift, attempt, ◌>>=◌, ◌>>◌, date_now, random_uuid,
  provider_call,
}
use ilist.Json.{Codec}
use ilist.Upload.Row.{
  UploadSessionRecord, StorageItem, TerminalOperation, complete, is_aborted, is_completed,
}
use ilist.Upload.Check.{Cipher}
use ilist.Upload.Provider.{UploadTable, Provider, ProviderCall}
use ilist.Upload.Store.{
  claim_terminal_operation, complete_upload_session_record, release_terminal_operation_claim,
}
use ilist.Upload.Service.Errors.{
  upload_not_found, upload_busy, upload_provider_invalid, upload_state_persist_failed,
  upload_incomplete, normalize_provider_error,
}
use ilist.Upload.Service.Parts.{require_current, require_complete_parts, valid_completed_item}
use ilist.Upload.Service.Session.{
  Handler, assert, claim_duration_ms, owned_session, require_current_now, session_driver,
}

module _ (o : Outside UploadTable) (codec : Codec) (cipher : Cipher) (provider : Provider) where
  abbrev pub or_incomplete : Option StorageItem → Handler StorageItem
  or_incomplete none = throw upload_incomplete
  or_incomplete (some item) = pure item

  -- `completedEntry`: the driver is created even though only the item is returned
  unfoldable pub completed_entry : UploadSessionRecord → Handler StorageItem
  completed_entry r = do
    item ← or_incomplete r.completed_item
    session_driver o codec cipher provider r
    pure item

  -- one `releaseClaim` for both operations, best effort
  unfoldable pub release_claim :
      String → String → TerminalOperation → String → ℕ → Handler (Result Bool)
  release_claim owner id op who expires =
      attempt (release_terminal_operation_claim o codec cipher owner id op who expires)

  unfoldable pub released_failure :
      {A : Type 0} → String → String → TerminalOperation → String → ℕ → Failure → Handler A
  unfolding release_claim
  released_failure owner id op who expires e = do _ ← release_claim owner id op who expires; throw e

  module _ (owner id who : String) (expires : ℕ) where
    unfoldable pub after_complete : Option UploadSessionRecord → StorageItem → Handler StorageItem
    unfolding completed_entry
    after_complete (some completed) item = pure item
    after_complete none item = do
      current ← owned_session o codec cipher provider owner id
      if is_completed current.status then completed_entry current else throw upload_busy

    unfoldable pub stored_complete :
        Result (Option UploadSessionRecord) → StorageItem → Handler StorageItem
    unfolding after_complete released_failure
    stored_complete (err e) item =
        released_failure owner id complete who expires upload_state_persist_failed
    stored_complete (ok completed) item = after_complete completed item

    unfoldable pub store_item : StorageItem → Handler StorageItem
    unfolding stored_complete
    store_item item = do
      completed ← attempt (complete_upload_session_record o codec cipher owner id who expires item)
      stored_complete completed item

    unfoldable pub provider_completed :
        UploadSessionRecord → Result StorageItem → Handler StorageItem
    unfolding store_item released_failure
    provider_completed r (err e) =
        released_failure owner id complete who expires (normalize_provider_error e)
    provider_completed r (ok item) =
        if valid_completed_item item r.size
        then store_item item
        else released_failure owner id complete who expires upload_provider_invalid

    abbrev complete_call : UploadSessionRecord → ProviderCall
    complete_call r = ProviderCall.complete r.provider_state r.parts r.completed_item

    unfoldable pub with_driver : UploadSessionRecord → Result (Unit {0}) → Handler StorageItem
    unfolding provider_completed released_failure
    with_driver r (err e) = released_failure owner id complete who expires e
    with_driver r (ok _) = do
      item ←
          attempt (provider_call o (complete_call r) (λ n. provider.complete n (complete_call r)))
      provider_completed r item

    unfoldable pub busy_or_expired : UploadSessionRecord → ℕ → Handler StorageItem
    busy_or_expired r now = do lift (require_current r now); throw upload_busy

    unfoldable pub complete_claimed : ℕ → Option UploadSessionRecord → Handler StorageItem
    unfolding completed_entry with_driver busy_or_expired
    complete_claimed now none = do
      r ← owned_session o codec cipher provider owner id
      if is_completed r.status then completed_entry r else busy_or_expired r now
    complete_claimed now (some r) = do
      driver ← attempt (session_driver o codec cipher provider r)
      with_driver r driver

  -- a rejected claim statement counts as a failure to persist
  unfoldable pub or_persist_failed : {A : Type 0} → Result A → Handler A
  or_persist_failed (ok a) = pure a
  or_persist_failed (err e) = throw upload_state_persist_failed

  -- `if (!record.completedItem) requireCurrent(record)`
  unfoldable pub current_unless_item : UploadSessionRecord → Handler (Unit {0})
  current_unless_item r =
      if is_some r.completed_item then pure tt else require_current_now o codec cipher provider r

  unfoldable pub complete_open : String → String → UploadSessionRecord → Handler StorageItem
  unfolding complete_claimed or_persist_failed current_unless_item
  complete_open owner id r = do
    assert (not (is_aborted r.status)) upload_not_found
    current_unless_item r
    lift (require_complete_parts r)
    now ← date_now o
    who ← random_uuid o
    outcome ← attempt (
        claim_terminal_operation o codec cipher owner id complete who (now + claim_duration_ms) now)
    claimed ← or_persist_failed outcome
    complete_claimed owner id who (now + claim_duration_ms) now claimed

  unfoldable pub complete_resumable_upload : String → String → Handler StorageItem
  unfolding complete_open completed_entry
  complete_resumable_upload owner id = do
    r ← owned_session o codec cipher provider owner id
    if is_completed r.status then completed_entry r else complete_open owner id r
