-- ===== src/Upload/Service/Abort.antt =====
-- `abortResumableUpload` and `cleanupExpiredUploads` of worker/upload-service.ts.
use ilist.Base.{
  ℕ, ◌+◌, String, Bool, false, Option, none, some, List, [], ◌∷◌, ◌&&◌, if◌then◌else◌, is_some, leb,
  ltb,
}
use ilist.Base.Exec.{
  Outside, Result, ok, err, failure, pure, throw, attempt, ◌>>=◌, ◌>>◌, date_now, random_uuid,
  provider_call,
}
use ilist.Json.{Codec}
use ilist.Upload.Row.{UploadSessionRecord, abort, is_aborted, is_completed}
use ilist.Upload.Check.{Cipher}
use ilist.Upload.Provider.{UploadTable, Provider, ProviderCall}
use ilist.Upload.Store.{
  claim_terminal_operation, mark_upload_session_aborted, touch_upload_session_cleanup_attempt,
}
use ilist.Upload.Store.Lists.{list_expired_upload_sessions}
use ilist.Upload.Service.Errors.{
  upload_busy, upload_state_persist_failed, upload_already_completed, normalize_provider_error,
}
use ilist.Upload.Service.Session.{Handler, claim_duration_ms, owned_session, session_driver}
use ilist.Upload.Service.Finish.{
  release_claim, released_failure, or_persist_failed, complete_resumable_upload,
}

abbrev pub default_cleanup_limit : ℕ
default_cleanup_limit = 10

module _ (o : Outside UploadTable) (codec : Codec) (cipher : Cipher) (provider : Provider) where
  -- the provider has the file: finish the upload instead, and say so
  unfoldable pub reject_abort_for_completed_upload : String → String → Handler (Unit {0})
  reject_abort_for_completed_upload owner id = do
    item ← complete_resumable_upload o codec cipher provider owner id
    throw upload_already_completed

  abbrev abort_call : UploadSessionRecord → ProviderCall
  abort_call r = ProviderCall.abort r.provider_state

  unfoldable pub provider_abort : UploadSessionRecord → Handler (Unit {0})
  provider_abort r = provider_call o (abort_call r) (λ n. provider.abort n (abort_call r))

  -- how an abort ends when the session may have changed meanwhile; `last` says what to do with an
  -- item that has appeared
  unfoldable pub resolve_abort : UploadSessionRecord → Handler (Unit {0}) → Handler (Unit {0})
  resolve_abort r finish =
      if is_aborted r.status
      then pure tt
      else if is_completed r.status
      then throw upload_already_completed
      else if is_some r.completed_item
      then finish
      else throw upload_busy

  module _ (owner id who : String) (expires : ℕ) where
    unfoldable pub released_reject : Handler (Unit {0})
    unfolding reject_abort_for_completed_upload
    released_reject = do
      _ ← release_claim o codec cipher provider owner id abort who expires
      reject_abort_for_completed_upload owner id

    unfoldable pub after_mark : Option UploadSessionRecord → Handler (Unit {0})
    unfolding resolve_abort released_reject
    after_mark (some aborted) = pure tt
    after_mark none = do
      current ← owned_session o codec cipher provider owner id
      resolve_abort current released_reject

    unfoldable pub marked : Result (Option UploadSessionRecord) → Handler (Unit {0})
    unfolding after_mark
    marked (err e) =
        released_failure o codec cipher provider owner id abort who expires
          upload_state_persist_failed
    marked (ok aborted) = after_mark aborted

    unfoldable pub provider_aborted : Result (Unit {0}) → Handler (Unit {0})
    unfolding marked
    provider_aborted (err e) =
        released_failure o codec cipher provider owner id abort who expires
          (normalize_provider_error e)
    provider_aborted (ok _) = do
      aborted ← attempt (mark_upload_session_aborted o codec cipher owner id who expires)
      marked aborted

    unfoldable pub with_abort_driver : UploadSessionRecord → Result (Unit {0}) → Handler (Unit {0})
    unfolding provider_aborted provider_abort
    with_abort_driver r (err e) =
        released_failure o codec cipher provider owner id abort who expires e
    with_abort_driver r (ok _) = do outcome ← attempt (provider_abort r); provider_aborted outcome

    unfoldable pub abort_claimed : Option UploadSessionRecord → Handler (Unit {0})
    unfolding resolve_abort reject_abort_for_completed_upload with_abort_driver
    abort_claimed none = do
      r ← owned_session o codec cipher provider owner id
      resolve_abort r (reject_abort_for_completed_upload owner id)
    abort_claimed (some r) = do
      driver ← attempt (session_driver o codec cipher provider r)
      with_abort_driver r driver

  unfoldable pub abort_open : String → String → Handler (Unit {0})
  unfolding abort_claimed
  abort_open owner id = do
    now ← date_now o
    who ← random_uuid o
    outcome ←
        attempt
          (claim_terminal_operation o codec cipher owner id abort who (now + claim_duration_ms) now)
    claimed ← or_persist_failed o codec cipher provider outcome
    abort_claimed owner id who (now + claim_duration_ms) claimed

  unfoldable pub abort_found : String → String → UploadSessionRecord → Handler (Unit {0})
  unfolding abort_open reject_abort_for_completed_upload
  abort_found owner id r =
      if is_aborted r.status
      then pure tt
      else if is_completed r.status
      then throw upload_already_completed
      else if is_some r.completed_item
      then reject_abort_for_completed_upload owner id
      else abort_open owner id

  unfoldable pub abort_resumable_upload : String → String → Handler (Unit {0})
  unfolding abort_found
  abort_resumable_upload owner id = do
    r ← owned_session o codec cipher provider owner id
    abort_found owner id r

  -- `touchUploadSessionCleanupAttempt(…).catch(() => undefined)`
  unfoldable pub touch_later : String → Handler (Unit {0})
  touch_later id = do
    now ← date_now o
    _ ← attempt (touch_upload_session_cleanup_attempt o codec cipher id now)
    pure tt

  -- the body of the `try`: whether the row is done with, and if not, the record that was claimed
  unfoldable pub try_abort : UploadSessionRecord → String → ℕ → Handler Bool
  unfolding provider_abort
  try_abort claimed who expires = do
    session_driver o codec cipher provider claimed
    provider_abort claimed
    aborted ←
        mark_upload_session_aborted o codec cipher claimed.owner_session_id claimed.id who expires
    pure (is_some aborted)

  abbrev succeeded : Result Bool → Bool
  succeeded (ok b) = b
  succeeded (err e) = false

  unfoldable pub give_back :
      UploadSessionRecord → UploadSessionRecord → String → ℕ → Handler (Unit {0})
  unfolding touch_later
  give_back r claimed who expires = do
    _ ← release_claim o codec cipher provider claimed.owner_session_id claimed.id abort who expires
    touch_later r.id

  unfoldable pub cleanup_claimed :
      UploadSessionRecord → String → ℕ → Result (Option UploadSessionRecord) → Handler (Unit {0})
  unfolding touch_later try_abort give_back
  cleanup_claimed r who expires (err e) = touch_later r.id
  cleanup_claimed r who expires (ok none) = pure tt
  cleanup_claimed r who expires (ok (some claimed)) = do
    outcome ← attempt (try_abort claimed who expires)
    if succeeded outcome then pure tt else give_back r claimed who expires

  unfoldable pub touch_unless_ok : {A : Type 0} → String → Result A → Handler (Unit {0})
  unfolding touch_later
  touch_unless_ok id (ok a) = pure tt
  touch_unless_ok id (err e) = touch_later id

  unfoldable pub cleanup_finish : UploadSessionRecord → Handler (Unit {0})
  unfolding touch_unless_ok
  cleanup_finish r = do
    outcome ← attempt (complete_resumable_upload o codec cipher provider r.owner_session_id r.id)
    touch_unless_ok r.id outcome

  unfoldable pub cleanup_abort : UploadSessionRecord → Handler (Unit {0})
  unfolding cleanup_claimed
  cleanup_abort r = do
    who ← random_uuid o
    now ← date_now o
    claimed ← attempt (
        claim_terminal_operation o codec cipher r.owner_session_id r.id abort who
          (now + claim_duration_ms) now)
    cleanup_claimed r who (now + claim_duration_ms) claimed

  -- one round of the loop
  unfoldable pub cleanup_one : UploadSessionRecord → Handler (Unit {0})
  unfolding cleanup_finish cleanup_abort
  cleanup_one r = if is_some r.completed_item then cleanup_finish r else cleanup_abort r

  unfoldable pub cleanup_each : List UploadSessionRecord → Handler (Unit {0})
  unfolding cleanup_one
  cleanup_each [] = pure tt
  cleanup_each (r ∷ rs) = do cleanup_one r; cleanup_each rs

  unfoldable pub cleanup_now : ℕ → Handler (Unit {0})
  unfolding cleanup_each
  cleanup_now limit = do
    now ← date_now o
    expired ← list_expired_upload_sessions o codec cipher now limit
    cleanup_each expired

  unfoldable pub cleanup_expired_uploads : ℕ → Handler (Unit {0})
  unfolding cleanup_now
  cleanup_expired_uploads limit =
      if ltb 0 limit && leb limit default_cleanup_limit
      then cleanup_now limit
      else throw (failure "Upload cleanup limit is invalid")
