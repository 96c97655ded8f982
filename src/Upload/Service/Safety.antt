-- ===== src/Upload/Service/Safety.antt =====
-- The handlers of worker/upload-service.ts and the invariant of the rows.
pub mod PartUpload
pub mod Finish
pub mod Abort
use ilist.Base.{ℕ, String, Bool, true, false, Option, none, some, List, [], ◌∷◌, ◌≡◌, refl}
use ilist.Base.Exec.{Exec, Outside, World, Result, ok, err, Failure, pure, ◌>>=◌}
use ilist.Base.Keeps.{
  Keeps, Fair, Keeps-pure, Keeps-throw, Keeps-lift, Keeps-if, Keeps-attempt, Keeps-bind,
  Keeps-date_now, Keeps-random_uuid, Keeps-provider_call,
}
use ilist.Json.{Codec}
use ilist.Upload.Row.{UploadSessionRecord, StorageItem, TerminalOperation}
use ilist.Upload.Check.{Cipher}
use ilist.Upload.Provider.{
  UploadTable, UploadWorld, Provider, ProviderCall, ProviderUploadPartResult,
}
use ilist.Upload.Store.Safety.{
  AllSound, Keeps-get_owned, Keeps-claim_upload_part, Keeps-release_upload_part_claim,
  Keeps-claim_terminal_operation, Keeps-complete_upload_session_record,
  Keeps-release_terminal_operation_claim, Keeps-mark_upload_session_aborted, Keeps-touch,
}
use ilist.Upload.Store.Safety.Parts.{Keeps-record_upload_part}
use ilist.Upload.Store.Safety.Cleanup.{Keeps-list_expired}
use ilist.Upload.Service.Parts.{ExpectedPart, UploadPartView, PartRequest}
use ilist.Upload.Service.Session.{
  Handler, ask, assert, found, owned_session, require_current_now, session_driver,
}

pub Keeps-ask : {A : Type 0} (answer : ℕ → Result A) → Keeps AllSound (ask answer)
unfolding ask
Keeps-ask answer = record { at = λ w h. h }

pub Keeps-assert : (b : Bool) (e : Failure) → Keeps AllSound (assert b e)
unfolding assert
Keeps-assert true e = Keeps-pure tt
Keeps-assert false e = Keeps-throw e

pub ruleset flow = (
  Keeps-pure, Keeps-throw, Keeps-lift, Keeps-if, Keeps-attempt, Keeps-bind, Keeps-date_now,
  Keeps-random_uuid, Keeps-provider_call, Keeps-ask, Keeps-assert,
)

pub ruleset store_rules = (
  Keeps-get_owned, Keeps-claim_upload_part, Keeps-release_upload_part_claim,
  Keeps-claim_terminal_operation, Keeps-complete_upload_session_record,
  Keeps-release_terminal_operation_claim, Keeps-mark_upload_session_aborted, Keeps-touch,
  Keeps-record_upload_part, Keeps-list_expired,
)

module _ (o : Outside UploadTable) (codec : Codec) (cipher : Cipher) (provider : Provider)
    (fair : Fair AllSound o) where
  pub Keeps-found :
      (r : Option UploadSessionRecord) → Keeps AllSound (found o codec cipher provider r)
  unfolding found
  Keeps-found none = search flow
  Keeps-found (some r) = search flow

  pub Keeps-owned_session :
      (owner id : String) → Keeps AllSound (owned_session o codec cipher provider owner id)
  unfolding owned_session
  Keeps-owned_session owner id = search (flow, store_rules, Keeps-found)

  pub Keeps-session_driver :
      (r : UploadSessionRecord) → Keeps AllSound (session_driver o codec cipher provider r)
  unfolding session_driver
  Keeps-session_driver r = search flow depth 9

  pub Keeps-require_current_now :
      (r : UploadSessionRecord) → Keeps AllSound (require_current_now o codec cipher provider r)
  unfolding require_current_now
  Keeps-require_current_now r = search flow
