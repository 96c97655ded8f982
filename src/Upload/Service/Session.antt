-- ===== src/Upload/Service/Session.antt =====
-- What the handlers of worker/upload-service.ts share: finding the session, its age, its driver.
use ilist.Base.{ℕ, ◌+◌, String, Bool, true, false, Option, none, some, [], ◌∷◌, text_eq, exists_in}
use ilist.Base.Exec.{Exec, Outside, Result, Failure, pure, throw, lift, ◌>>=◌, ◌>>◌, date_now}
use ilist.Json.{Codec}
use ilist.Upload.Row.{UploadSessionRecord, is_operation, abort}
use ilist.Upload.Check.{Cipher}
use ilist.Upload.Provider.{UploadTable, UploadWorld, Provider}
use ilist.Upload.Store.{get_owned_upload_session}
use ilist.Upload.Service.Errors.{upload_not_found, upload_unsupported}
use ilist.Upload.Service.Parts.{require_current}

abbrev pub claim_duration_ms : ℕ
claim_duration_ms = 300000

abbrev pub Handler : Type 0 → Type 0
Handler A = Exec UploadWorld A

-- an answer from outside that changes nothing here
unfoldable pub ask : {A : Type 0} → (ℕ → Result A) → Handler A
ask answer w = (answer w.tick, record w { tick = w.tick + 1 })

unfoldable pub assert : Bool → Failure → Handler (Unit {0})
assert true e = pure tt
assert false e = throw e

unfoldable pub is_resumable_driver : String → Bool
is_resumable_driver driver_type =
    exists_in (λ t. text_eq t driver_type) ("onedrive" ∷ "s3" ∷ "google" ∷ "dropbox" ∷ [])

unfoldable pub supported : Option String → Bool
unfolding is_resumable_driver
supported none = false
supported (some driver_type) = is_resumable_driver driver_type

-- `record.terminalOperation === 'abort'`
abbrev pub is_aborting : UploadSessionRecord → Bool
is_aborting r = is_operation r.terminal_operation abort

module _ (o : Outside UploadTable) (codec : Codec) (cipher : Cipher) (provider : Provider) where
  unfoldable pub found : Option UploadSessionRecord → Handler UploadSessionRecord
  found none = throw upload_not_found
  found (some r) = pure r

  unfoldable pub owned_session : String → String → Handler UploadSessionRecord
  unfolding found
  owned_session owner id = do r ← get_owned_upload_session o codec cipher owner id; found r

  -- `requireCurrent(record)`, at the time of the call
  unfoldable pub require_current_now : UploadSessionRecord → Handler (Unit {0})
  require_current_now r = do now ← date_now o; lift (require_current r now)

  -- `sessionDriver`; the driver itself is `provider`
  unfoldable pub session_driver : UploadSessionRecord → Handler (Unit {0})
  unfolding ask assert supported
  session_driver r = do
    mount ← ask (λ n. provider.get_mount n r.mount_id)
    assert (supported mount) upload_unsupported
    adapter ← ask (λ n. provider.create_driver n r.mount_id)
    assert adapter upload_unsupported
