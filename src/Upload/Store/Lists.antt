-- ===== src/Upload/Store/Lists.antt =====
-- `listOwnedActiveUploadSessions` and `listExpiredUploadSessions`.
use ilist.Base.{
  ℕ, String, Bool, true, not, List, [], ◌∷◌, ◌&&◌, if◌then◌else◌, ltb, ◌==◌, text_eq, text_le, keep,
  take,
}
use ilist.Base.Exec.{Outside, Result, ok, err, pure, attempt, ◌>>=◌, ◌>>◌, statement}
use ilist.Json.{Codec}
use ilist.Upload.Row.{UploadSessionRow, UploadSessionRecord}
use ilist.Upload.Stored.{is_safe_integer}
use ilist.Upload.Check.{Cipher, row_to_record}
use ilist.Upload.Statements.{is_cleanable, is_resumable}
use ilist.Upload.Provider.{UploadTable}
use ilist.Upload.Store.{Action, check, touch_upload_session_cleanup_attempt}

-- `ORDER BY cleanup_attempted_at ASC, expires_at ASC, created_at ASC, id ASC`
unfoldable pub cleanup_order : UploadSessionRow → UploadSessionRow → Bool
cleanup_order a b =
    if a.cleanup_attempted_at == b.cleanup_attempted_at
    then (if a.expires_at == b.expires_at
        then (if a.created_at == b.created_at
            then text_le a.id b.id
            else ltb a.created_at b.created_at)
        else ltb a.expires_at b.expires_at)
    else ltb a.cleanup_attempted_at b.cleanup_attempted_at

-- `ORDER BY updated_at DESC, created_at DESC, id DESC`
unfoldable pub recent_order : UploadSessionRow → UploadSessionRow → Bool
recent_order a b =
    if a.updated_at == b.updated_at
    then (if a.created_at == b.created_at then text_le b.id a.id else ltb b.created_at a.created_at)
    else ltb b.updated_at a.updated_at

module _ (before : UploadSessionRow → UploadSessionRow → Bool) where
  unfoldable pub insert_ordered : UploadSessionRow → List UploadSessionRow → List UploadSessionRow
  insert_ordered r [] = r ∷ []
  insert_ordered r (x ∷ xs) = if before r x then r ∷ x ∷ xs else x ∷ insert_ordered r xs

  unfoldable pub order_by : List UploadSessionRow → List UploadSessionRow
  order_by [] = []
  order_by (r ∷ rs) = insert_ordered r (order_by rs)

  -- `SELECT * … WHERE test ORDER BY before LIMIT limit`
  unfoldable pub select_page :
      (UploadSessionRow → Bool) → ℕ → UploadTable → List UploadSessionRow × UploadTable
  unfolding order_by insert_ordered
  select_page test limit t = (take limit (order_by (keep test t)), t)

module _ (o : Outside UploadTable) (codec : Codec) (cipher : Cipher) where
  -- rows that cannot be decrypted or parsed are skipped
  unfoldable pub readable : List UploadSessionRow → List UploadSessionRecord
  readable [] = []
  readable (row ∷ rows) = elim (row_to_record codec cipher row) [
    | ok r ↦ r ∷ readable rows
    | err e ↦ readable rows
  ]

  unfoldable pub list_owned_active_upload_sessions :
      String → ℕ → ℕ → Action o codec cipher (List UploadSessionRecord)
  unfolding readable
  list_owned_active_upload_sessions owner now limit = do
    check o codec cipher
        (not (text_eq owner "") && is_safe_integer now 0 && is_safe_integer limit 1)
        "Upload session list query is invalid"
    rows ← statement o (select_page recent_order (is_resumable owner now) limit)
    pure (readable rows)

  abbrev pub cons_ok :
      Result UploadSessionRecord → List UploadSessionRecord → List UploadSessionRecord
  cons_ok (ok r) rs = r ∷ rs
  cons_ok (err e) rs = rs

  -- an unreadable row is touched, so that it does not come first again
  unfoldable pub touch_unreadable :
      Result UploadSessionRecord → String → ℕ → Action o codec cipher (Result Bool)
  touch_unreadable (ok r) id now = pure (ok true)
  touch_unreadable (err e) id now =
      attempt (touch_upload_session_cleanup_attempt o codec cipher id now)

  unfoldable pub read_expired :
      ℕ → List UploadSessionRow → Action o codec cipher (List UploadSessionRecord)
  unfolding touch_unreadable
  read_expired now [] = pure []
  read_expired now (row ∷ rows) = do
    touched ← touch_unreadable (row_to_record codec cipher row) row.id now
    rest ← read_expired now rows
    pure (cons_ok (row_to_record codec cipher row) rest)

  unfoldable pub list_expired_upload_sessions :
      ℕ → ℕ → Action o codec cipher (List UploadSessionRecord)
  unfolding read_expired
  list_expired_upload_sessions now limit = do
    check o codec cipher (is_safe_integer now 0 && is_safe_integer limit 1)
        "Upload session expiration query is invalid"
    rows ← statement o (select_page cleanup_order (is_cleanable now) limit)
    read_expired now rows
