-- ===== src/Upload/Service/Safety/Abort.antt =====
-- `abortResumableUpload`, `cleanupExpiredUploads` and the invariant of the rows.
use ilist.Base.{ℕ, String, Option, none, some, List, [], ◌∷◌}
use ilist.Base.Exec.{Outside, Result, ok, err}
use ilist.Base.Keeps.{Keeps, Fair, Keeps-bind}
use ilist.Json.{Codec}
use ilist.Upload.Row.{UploadSessionRecord}
use ilist.Upload.Check.{Cipher}
use ilist.Upload.Provider.{UploadTable, Provider}
use ilist.Upload.Store.Safety.{AllSound}
use ilist.Upload.Service.Session.{Handler}
use ilist.Upload.Service.Safety.{flow, store_rules, Keeps-owned_session, Keeps-session_driver}
use ilist.Upload.Service.Safety.Finish.{
  Keeps-release_claim, Keeps-released_failure, Keeps-or_persist_failed,
  Keeps-complete_resumable_upload,
}
use ilist.Upload.Service.Abort.{
  reject_abort_for_completed_upload, resolve_abort, released_reject, after_mark, marked,
  provider_aborted, with_abort_driver, abort_claimed, abort_open, abort_found,
  abort_resumable_upload, touch_later, try_abort, give_back, cleanup_claimed, touch_unless_ok,
  cleanup_finish, cleanup_abort, cleanup_one, cleanup_each, cleanup_now, cleanup_expired_uploads,
}

module _ (o : Outside UploadTable) (codec : Codec) (cipher : Cipher) (provider : Provider)
    (fair : Fair AllSound o) where
  Keeps-reject :
      (owner id : String)
      → Keeps AllSound (reject_abort_for_completed_upload o codec cipher provider owner id)
  unfolding reject_abort_for_completed_upload
  Keeps-reject owner id = search (flow, Keeps-complete_resumable_upload)

  Keeps-resolve_abort :
      (r : UploadSessionRecord) (finish : Handler (Unit {0}))
      → Keeps AllSound finish
      → Keeps AllSound (resolve_abort o codec cipher provider r finish)
  unfolding resolve_abort
  Keeps-resolve_abort r finish k = search flow depth 7

  module _ (owner id who : String) (expires : ℕ) where
    Keeps-released_reject :
        Keeps AllSound (released_reject o codec cipher provider owner id who expires)
    unfolding released_reject
    Keeps-released_reject = search (flow, Keeps-release_claim, Keeps-reject)

    Keeps-after_mark :
        (r : Option UploadSessionRecord)
        → Keeps AllSound (after_mark o codec cipher provider owner id who expires r)
    unfolding after_mark
    Keeps-after_mark none =
        search (flow, Keeps-owned_session, Keeps-resolve_abort, Keeps-released_reject)
    Keeps-after_mark (some r) = search flow

    Keeps-marked :
        (r : Result (Option UploadSessionRecord))
        → Keeps AllSound (marked o codec cipher provider owner id who expires r)
    unfolding marked
    Keeps-marked (err e) = search Keeps-released_failure
    Keeps-marked (ok r) = Keeps-after_mark r

    Keeps-provider_aborted :
        (r : Result (Unit {0}))
        → Keeps AllSound (provider_aborted o codec cipher provider owner id who expires r)
    unfolding provider_aborted
    Keeps-provider_aborted (err e) = search Keeps-released_failure
    Keeps-provider_aborted (ok _) = search (flow, store_rules, Keeps-marked)

    Keeps-with_abort_driver :
        (r : UploadSessionRecord) (driver : Result (Unit {0}))
        → Keeps AllSound (with_abort_driver o codec cipher provider owner id who expires r driver)
    unfolding with_abort_driver
    Keeps-with_abort_driver r (err e) = search Keeps-released_failure
    Keeps-with_abort_driver r (ok _) = search (flow, Keeps-provider_aborted)

    Keeps-abort_claimed :
        (r : Option UploadSessionRecord)
        → Keeps AllSound (abort_claimed o codec cipher provider owner id who expires r)
    unfolding abort_claimed
    Keeps-abort_claimed none = search (flow, Keeps-owned_session, Keeps-resolve_abort, Keeps-reject)
    Keeps-abort_claimed (some r) = search (flow, Keeps-session_driver, Keeps-with_abort_driver)

  Keeps-abort_open :
      (owner id : String) → Keeps AllSound (abort_open o codec cipher provider owner id)
  unfolding abort_open
  Keeps-abort_open owner id =
      search (flow, store_rules, Keeps-or_persist_failed, Keeps-abort_claimed) depth 12

  Keeps-abort_found :
      (owner id : String) (r : UploadSessionRecord)
      → Keeps AllSound (abort_found o codec cipher provider owner id r)
  unfolding abort_found
  Keeps-abort_found owner id r = search (flow, Keeps-reject, Keeps-abort_open) depth 7

  -- Aborting an upload leaves every row well-formed, whether it succeeds or throws.
  pub Keeps-abort_resumable_upload :
      (owner id : String) → Keeps AllSound (abort_resumable_upload o codec cipher provider owner id)
  unfolding abort_resumable_upload
  Keeps-abort_resumable_upload owner id = search (flow, Keeps-owned_session, Keeps-abort_found)

  Keeps-touch_later : (id : String) → Keeps AllSound (touch_later o codec cipher provider id)
  unfolding touch_later
  Keeps-touch_later id = search (flow, store_rules) depth 7

  Keeps-try_abort :
      (r : UploadSessionRecord) (who : String) (expires : ℕ)
      → Keeps AllSound (try_abort o codec cipher provider r who expires)
  unfolding try_abort
  Keeps-try_abort r who expires = search (flow, store_rules, Keeps-session_driver) depth 9

  Keeps-give_back :
      (r claimed : UploadSessionRecord) (who : String) (expires : ℕ)
      → Keeps AllSound (give_back o codec cipher provider r claimed who expires)
  unfolding give_back
  Keeps-give_back r claimed who expires = search (flow, Keeps-release_claim, Keeps-touch_later)

  Keeps-cleanup_claimed :
      (r : UploadSessionRecord) (who : String) (expires : ℕ)
      (claimed : Result (Option UploadSessionRecord))
      → Keeps AllSound (cleanup_claimed o codec cipher provider r who expires claimed)
  unfolding cleanup_claimed
  Keeps-cleanup_claimed r who expires (err e) = Keeps-touch_later r.id
  Keeps-cleanup_claimed r who expires (ok none) = search flow
  Keeps-cleanup_claimed r who expires (ok (some claimed)) =
      search (flow, Keeps-try_abort, Keeps-give_back) depth 7

  Keeps-touch_unless_ok :
      {A : Type 0} (id : String) (r : Result A)
      → Keeps AllSound (touch_unless_ok o codec cipher provider id r)
  unfolding touch_unless_ok
  Keeps-touch_unless_ok id (ok a) = search flow
  Keeps-touch_unless_ok id (err e) = Keeps-touch_later id

  Keeps-cleanup_one :
      (r : UploadSessionRecord) → Keeps AllSound (cleanup_one o codec cipher provider r)
  unfolding cleanup_one cleanup_finish cleanup_abort
  Keeps-cleanup_one r =
      search
        (
          flow, store_rules, Keeps-complete_resumable_upload, Keeps-touch_unless_ok,
          Keeps-cleanup_claimed,
        )
        depth 9

  Keeps-cleanup_each :
      (rs : List UploadSessionRecord) → Keeps AllSound (cleanup_each o codec cipher provider rs)
  unfolding cleanup_each
  Keeps-cleanup_each [] = search flow
  Keeps-cleanup_each (r ∷ rs) = Keeps-bind _ _ (Keeps-cleanup_one r) (λ _. Keeps-cleanup_each rs)

  Keeps-cleanup_now : (limit : ℕ) → Keeps AllSound (cleanup_now o codec cipher provider limit)
  unfolding cleanup_now
  Keeps-cleanup_now limit = search (flow, store_rules, Keeps-cleanup_each) depth 7

  -- The cleanup of expired uploads leaves every row well-formed, however many it handles and
  -- whichever of its steps fail.
  pub Keeps-cleanup_expired_uploads :
      (limit : ℕ) → Keeps AllSound (cleanup_expired_uploads o codec cipher provider limit)
  unfolding cleanup_expired_uploads
  Keeps-cleanup_expired_uploads limit = search (flow, Keeps-cleanup_now)
