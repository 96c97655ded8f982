-- ===== src/Upload/Service/PartUpload.antt =====
-- `uploadResumablePart` of worker/upload-service.ts.
use ilist.Base.{ℕ, ◌+◌, String, Bool, not, Option, none, some, if◌then◌else◌}
use ilist.Base.Exec.{
  Outside, Result, ok, err, Failure, pure, throw, lift, attempt, ◌>>=◌, ◌>>◌, date_now,
  provider_call,
}
use ilist.Json.{Json, Codec}
use ilist.Upload.Row.{UploadSessionRecord, is_aborted, is_active}
use ilist.Upload.Check.{Cipher}
use ilist.Upload.Provider.{
  UploadTable, Provider, ProviderCall, upload_part, ProviderUploadPartResult,
}
use ilist.Upload.Store.{claim_upload_part, release_upload_part_claim}
use ilist.Upload.Store.Parts.{record_upload_part}
use ilist.Upload.Service.Errors.{
  upload_not_found, upload_busy, upload_provider_invalid, upload_state_persist_failed,
  normalize_provider_error,
}
use ilist.Upload.Service.Parts.{
  UploadPartView, ExpectedPart, PartRequest, expected_part, require_part_request, recorded_part,
  valid_provider_part, require_current,
}
use ilist.Upload.Service.Session.{
  Handler, assert, is_aborting, claim_duration_ms, owned_session, require_current_now,
  session_driver,
}

abbrev state_or : Option Json → Json → Json
state_or none old = old
state_or (some state) old = state

module _ (o : Outside UploadTable) (codec : Codec) (cipher : Cipher) (provider : Provider) where
  module _ (owner id : String) (part_number : ℕ) (expected : ExpectedPart) where
    unfoldable pub or_busy : Option UploadPartView → Handler UploadPartView
    or_busy none = throw upload_busy
    or_busy (some view) = pure view

    -- the part is there, unless the session is being aborted
    unfoldable pub unless_aborting :
        UploadSessionRecord → Option UploadPartView → Option UploadPartView
    unless_aborting r view = if is_aborting r then none else view

    unfoldable pub claim_lost : ℕ → Handler UploadPartView
    unfolding or_busy unless_aborting
    claim_lost now = do
      current ← owned_session o codec cipher provider owner id
      lift (require_current current now)
      assert (not (is_aborted current.status)) upload_not_found
      raced ← lift (recorded_part current part_number expected.size)
      or_busy (unless_aborting current raced)

    -- best effort: a claim that is not released runs out
    unfoldable pub release : ℕ → Handler (Result Bool)
    release claim_expires_at =
        attempt (release_upload_part_claim o codec cipher owner id part_number claim_expires_at)

    unfoldable pub fail_released : ℕ → Failure → Handler UploadPartView
    unfolding release
    fail_released claim_expires_at e = do _ ← release claim_expires_at; throw e

    unfoldable pub persisted : ℕ → Result (Option UploadSessionRecord) → Handler UploadPartView
    unfolding or_busy fail_released
    persisted claim_expires_at (err e) = fail_released claim_expires_at upload_state_persist_failed
    persisted claim_expires_at (ok none) = do
      current ← owned_session o codec cipher provider owner id
      assert (not (is_aborted current.status)) upload_not_found
      throw upload_busy
    persisted claim_expires_at (ok (some updated)) = do
      assert (not (is_aborted updated.status)) upload_not_found
      assert (not (is_aborting updated)) upload_busy
      stored ← lift (recorded_part updated part_number expected.size)
      or_busy stored

    unfoldable pub persist :
        UploadSessionRecord → ℕ → ProviderUploadPartResult → Handler UploadPartView
    unfolding persisted
    persist claimed claim_expires_at result = do
      updated ← attempt (
          record_upload_part o codec cipher owner id (record {
            claim_expires_at = claim_expires_at;
            part = result.part;
            provider_state = state_or result.state claimed.provider_state;
            completed_item = result.completed_item;
          }))
      persisted claim_expires_at updated

    unfoldable pub uploaded :
        UploadSessionRecord → ℕ → Result ProviderUploadPartResult → Handler UploadPartView
    unfolding persist fail_released
    uploaded claimed claim_expires_at (err e) =
        fail_released claim_expires_at (normalize_provider_error e)
    uploaded claimed claim_expires_at (ok result) =
        if valid_provider_part result part_number expected.size
        then persist claimed claim_expires_at result
        else fail_released claim_expires_at upload_provider_invalid

    abbrev part_call : UploadSessionRecord → ProviderCall
    part_call claimed =
        upload_part claimed.provider_state part_number expected.offset claimed.size expected.size

    unfoldable pub with_claim : ℕ → ℕ → Option UploadSessionRecord → Handler UploadPartView
    unfolding claim_lost uploaded
    with_claim now claim_expires_at none = claim_lost now
    with_claim now claim_expires_at (some claimed) = do
      result ←
          attempt
            (provider_call o (part_call claimed) (λ n. provider.upload_part n (part_call claimed)))
      uploaded claimed claim_expires_at result

    unfoldable pub claim_and_upload : UploadSessionRecord → Handler UploadPartView
    unfolding with_claim
    claim_and_upload initial = do
      assert (is_active initial.status) upload_busy
      session_driver o codec cipher provider initial
      now ← date_now o
      claimed ← claim_upload_part o codec cipher owner id part_number (now + claim_duration_ms) now
      with_claim now (now + claim_duration_ms) claimed

    unfoldable pub unless_recorded :
        UploadSessionRecord → Option UploadPartView → Handler UploadPartView
    unfolding claim_and_upload
    unless_recorded initial none = claim_and_upload initial
    unless_recorded initial (some view) =
        if is_aborting initial then claim_and_upload initial else pure view

  unfoldable pub upload_resumable_part : String → String → ℕ → PartRequest → Handler UploadPartView
  unfolding unless_recorded
  upload_resumable_part owner id part_number request = do
    initial ← owned_session o codec cipher provider owner id
    require_current_now o codec cipher provider initial
    expected ← lift (expected_part initial part_number)
    lift (require_part_request request expected.size)
    duplicate ← lift (recorded_part initial part_number expected.size)
    assert (not (is_aborted initial.status)) upload_not_found
    unless_recorded owner id part_number expected initial duplicate
