-- ===== src/Upload/Service/Safety/PartUpload.antt =====
-- `uploadResumablePart` of worker/upload-service.ts and the invariant of the rows.
use ilist.Base.{ℕ, String, Option, none, some}
use ilist.Base.Exec.{Outside, Result, ok, err, Failure}
use ilist.Base.Keeps.{Keeps, Fair}
use ilist.Json.{Codec}
use ilist.Upload.Row.{UploadSessionRecord}
use ilist.Upload.Check.{Cipher}
use ilist.Upload.Provider.{UploadTable, Provider, ProviderUploadPartResult}
use ilist.Upload.Store.Safety.{AllSound}
use ilist.Upload.Service.Parts.{ExpectedPart, UploadPartView, PartRequest}
use ilist.Upload.Service.Safety.{
  flow, store_rules, Keeps-owned_session, Keeps-session_driver, Keeps-require_current_now,
}
use ilist.Upload.Service.PartUpload.{
  or_busy, claim_lost, release, fail_released, persisted, persist, uploaded, with_claim,
  claim_and_upload, unless_recorded, upload_resumable_part,
}

module _ (o : Outside UploadTable) (codec : Codec) (cipher : Cipher) (provider : Provider)
    (fair : Fair AllSound o) where
  module _ (owner id : String) (n : ℕ) (expected : ExpectedPart) where
    Keeps-or_busy :
        (view : Option UploadPartView)
        → Keeps AllSound (or_busy o codec cipher provider owner id n expected view)
    unfolding or_busy
    Keeps-or_busy none = search flow
    Keeps-or_busy (some view) = search flow

    Keeps-claim_lost :
        (now : ℕ) → Keeps AllSound (claim_lost o codec cipher provider owner id n expected now)
    unfolding claim_lost
    Keeps-claim_lost now = search (flow, Keeps-owned_session, Keeps-or_busy) depth 9

    Keeps-release :
        (expires : ℕ) → Keeps AllSound (release o codec cipher provider owner id n expected expires)
    unfolding release
    Keeps-release expires = search (flow, store_rules)

    Keeps-fail_released :
        (expires : ℕ) (e : Failure)
        → Keeps AllSound (fail_released o codec cipher provider owner id n expected expires e)
    unfolding fail_released
    Keeps-fail_released expires e = search (flow, Keeps-release)

    Keeps-persisted :
        (expires : ℕ) (r : Result (Option UploadSessionRecord))
        → Keeps AllSound (persisted o codec cipher provider owner id n expected expires r)
    unfolding persisted
    Keeps-persisted expires (err e) = Keeps-fail_released expires _
    Keeps-persisted expires (ok none) = search (flow, Keeps-owned_session) depth 9
    Keeps-persisted expires (ok (some r)) = search (flow, Keeps-or_busy) depth 9

    Keeps-persist :
        (r : UploadSessionRecord) (expires : ℕ) (result : ProviderUploadPartResult)
        → Keeps AllSound (persist o codec cipher provider owner id n expected r expires result)
    unfolding persist
    Keeps-persist r expires result = search (flow, store_rules, Keeps-persisted)

    Keeps-uploaded :
        (r : UploadSessionRecord) (expires : ℕ) (result : Result ProviderUploadPartResult)
        → Keeps AllSound (uploaded o codec cipher provider owner id n expected r expires result)
    unfolding uploaded
    Keeps-uploaded r expires (err e) = Keeps-fail_released expires _
    Keeps-uploaded r expires (ok result) = search (flow, Keeps-persist, Keeps-fail_released)

    Keeps-with_claim :
        (now expires : ℕ) (r : Option UploadSessionRecord)
        → Keeps AllSound (with_claim o codec cipher provider owner id n expected now expires r)
    unfolding with_claim
    Keeps-with_claim now expires none = Keeps-claim_lost now
    Keeps-with_claim now expires (some r) = search (flow, Keeps-uploaded)

    Keeps-claim_and_upload :
        (r : UploadSessionRecord)
        → Keeps AllSound (claim_and_upload o codec cipher provider owner id n expected r)
    unfolding claim_and_upload
    Keeps-claim_and_upload r =
        search (flow, store_rules, Keeps-session_driver, Keeps-with_claim) depth 12

    Keeps-unless_recorded :
        (r : UploadSessionRecord) (view : Option UploadPartView)
        → Keeps AllSound (unless_recorded o codec cipher provider owner id n expected r view)
    unfolding unless_recorded
    Keeps-unless_recorded r none = Keeps-claim_and_upload r
    Keeps-unless_recorded r (some view) = search (flow, Keeps-claim_and_upload)

  -- Uploading a part leaves every row well-formed, whether it succeeds or throws, if every other
  -- request that runs between its statements does.
  pub Keeps-upload_resumable_part :
      (owner id : String) (n : ℕ) (request : PartRequest)
      → Keeps AllSound (upload_resumable_part o codec cipher provider owner id n request)
  unfolding upload_resumable_part
  Keeps-upload_resumable_part owner id n request =
      search (flow, Keeps-owned_session, Keeps-require_current_now, Keeps-unless_recorded) depth 16
