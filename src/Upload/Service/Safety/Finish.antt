-- ===== src/Upload/Service/Safety/Finish.antt =====
-- `completeResumableUpload` of worker/upload-service.ts and the invariant of the rows.
use ilist.Base.{ℕ, String, Option, none, some}
use ilist.Base.Exec.{Outside, Result, ok, err, Failure}
use ilist.Base.Keeps.{Keeps, Fair}
use ilist.Json.{Codec}
use ilist.Upload.Row.{UploadSessionRecord, StorageItem, TerminalOperation}
use ilist.Upload.Check.{Cipher}
use ilist.Upload.Provider.{UploadTable, Provider}
use ilist.Upload.Store.Safety.{AllSound}
use ilist.Upload.Service.Safety.{
  flow, store_rules, Keeps-owned_session, Keeps-session_driver, Keeps-require_current_now,
}
use ilist.Upload.Service.Finish.{
  or_incomplete, completed_entry, release_claim, released_failure, after_complete, stored_complete,
  store_item, provider_completed, with_driver, busy_or_expired, complete_claimed, or_persist_failed,
  current_unless_item, complete_open, complete_resumable_upload,
}

module _ (o : Outside UploadTable) (codec : Codec) (cipher : Cipher) (provider : Provider)
    (fair : Fair AllSound o) where
  Keeps-or_incomplete :
      (item : Option StorageItem) → Keeps AllSound (or_incomplete o codec cipher provider item)
  Keeps-or_incomplete none = search flow
  Keeps-or_incomplete (some item) = search flow

  Keeps-completed_entry :
      (r : UploadSessionRecord) → Keeps AllSound (completed_entry o codec cipher provider r)
  unfolding completed_entry
  Keeps-completed_entry r = search (flow, Keeps-or_incomplete, Keeps-session_driver) depth 7

  pub Keeps-release_claim :
      (owner id : String) (op : TerminalOperation) (who : String) (expires : ℕ)
      → Keeps AllSound (release_claim o codec cipher provider owner id op who expires)
  unfolding release_claim
  Keeps-release_claim owner id op who expires = search (flow, store_rules)

  pub Keeps-released_failure :
      {A : Type 0} (owner id : String) (op : TerminalOperation) (who : String) (expires : ℕ)
      (e : Failure)
      → Keeps AllSound (released_failure o codec cipher provider {A = A} owner id op who expires e)
  unfolding released_failure
  Keeps-released_failure owner id op who expires e = search (flow, Keeps-release_claim)

  module _ (owner id who : String) (expires : ℕ) where
    Keeps-after_complete :
        (r : Option UploadSessionRecord) (item : StorageItem)
        → Keeps AllSound (after_complete o codec cipher provider owner id who expires r item)
    unfolding after_complete
    Keeps-after_complete none item = search (flow, Keeps-owned_session, Keeps-completed_entry)
    Keeps-after_complete (some r) item = search flow

    Keeps-stored_complete :
        (r : Result (Option UploadSessionRecord)) (item : StorageItem)
        → Keeps AllSound (stored_complete o codec cipher provider owner id who expires r item)
    unfolding stored_complete
    Keeps-stored_complete (err e) item = search Keeps-released_failure
    Keeps-stored_complete (ok r) item = Keeps-after_complete r item

    Keeps-store_item :
        (item : StorageItem)
        → Keeps AllSound (store_item o codec cipher provider owner id who expires item)
    unfolding store_item
    Keeps-store_item item = search (flow, store_rules, Keeps-stored_complete)

    Keeps-provider_completed :
        (r : UploadSessionRecord) (item : Result StorageItem)
        → Keeps AllSound (provider_completed o codec cipher provider owner id who expires r item)
    unfolding provider_completed
    Keeps-provider_completed r (err e) = search Keeps-released_failure
    Keeps-provider_completed r (ok item) = search (flow, Keeps-store_item, Keeps-released_failure)

    Keeps-with_driver :
        (r : UploadSessionRecord) (driver : Result (Unit {0}))
        → Keeps AllSound (with_driver o codec cipher provider owner id who expires r driver)
    unfolding with_driver
    Keeps-with_driver r (err e) = search Keeps-released_failure
    Keeps-with_driver r (ok _) = search (flow, Keeps-provider_completed)

    Keeps-busy_or_expired :
        (r : UploadSessionRecord) (now : ℕ)
        → Keeps AllSound (busy_or_expired o codec cipher provider owner id who expires r now)
    unfolding busy_or_expired
    Keeps-busy_or_expired r now = search flow

    Keeps-complete_claimed :
        (now : ℕ) (r : Option UploadSessionRecord)
        → Keeps AllSound (complete_claimed o codec cipher provider owner id who expires now r)
    unfolding complete_claimed
    Keeps-complete_claimed now none =
        search (flow, Keeps-owned_session, Keeps-completed_entry, Keeps-busy_or_expired)
    Keeps-complete_claimed now (some r) = search (flow, Keeps-session_driver, Keeps-with_driver)

  pub Keeps-or_persist_failed :
      {A : Type 0} (r : Result A) → Keeps AllSound (or_persist_failed o codec cipher provider r)
  unfolding or_persist_failed
  Keeps-or_persist_failed (ok a) = search flow
  Keeps-or_persist_failed (err e) = search flow

  Keeps-current_unless_item :
      (r : UploadSessionRecord) → Keeps AllSound (current_unless_item o codec cipher provider r)
  unfolding current_unless_item
  Keeps-current_unless_item r = search (flow, Keeps-require_current_now)

  Keeps-complete_open :
      (owner id : String) (r : UploadSessionRecord)
      → Keeps AllSound (complete_open o codec cipher provider owner id r)
  unfolding complete_open
  Keeps-complete_open owner id r =
      search
        (
          flow, store_rules, Keeps-current_unless_item, Keeps-or_persist_failed,
          Keeps-complete_claimed,
        )
        depth 18

  -- Completing an upload leaves every row well-formed, whether it succeeds or throws.
  pub Keeps-complete_resumable_upload :
      (owner id : String)
      → Keeps AllSound (complete_resumable_upload o codec cipher provider owner id)
  unfolding complete_resumable_upload
  Keeps-complete_resumable_upload owner id =
      search (flow, Keeps-owned_session, Keeps-completed_entry, Keeps-complete_open)
