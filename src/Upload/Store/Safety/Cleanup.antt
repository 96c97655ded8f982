-- ===== src/Upload/Store/Safety/Cleanup.antt =====
-- The two lists of worker/upload-session-store.ts and the invariant of the rows.
use ilist.Base.{ℕ, String, List, [], ◌∷◌}
use ilist.Base.Exec.{Outside, Result, ok, err}
use ilist.Base.Keeps.{Keeps, Fair, Keeps-pure, Keeps-attempt, Keeps-bind, Keeps-statement}
use ilist.Json.{Codec}
use ilist.Upload.Row.{UploadSessionRow, UploadSessionRecord}
use ilist.Upload.Check.{Cipher, row_to_record}
use ilist.Upload.Provider.{UploadTable}
use ilist.Upload.Store.Lists.{
  select_page, touch_unreadable, read_expired, list_owned_active_upload_sessions,
  list_expired_upload_sessions,
}
use ilist.Upload.Store.Safety.{AllSound, Keeps-check, Keeps-touch}

module _ (o : Outside UploadTable) (codec : Codec) (cipher : Cipher) (fair : Fair AllSound o) where
  Keeps-touch_unreadable :
      (r : Result UploadSessionRecord) (id : String) (now : ℕ)
      → Keeps AllSound (touch_unreadable o codec cipher r id now)
  unfolding touch_unreadable
  Keeps-touch_unreadable (ok r) id now = Keeps-pure _
  Keeps-touch_unreadable (err e) id now = Keeps-attempt _ (Keeps-touch o codec cipher fair id now)

  Keeps-read_expired :
      (now : ℕ) (rows : List UploadSessionRow)
      → Keeps AllSound (read_expired o codec cipher now rows)
  unfolding read_expired
  Keeps-read_expired now [] = Keeps-pure []
  Keeps-read_expired now (row ∷ rows) =
      Keeps-bind _ _ (Keeps-touch_unreadable (row_to_record codec cipher row) row.id now)
        (λ _. Keeps-bind _ _ (Keeps-read_expired now rows) (λ rest. Keeps-pure _))

  pub Keeps-list_expired :
      (now limit : ℕ) → Keeps AllSound (list_expired_upload_sessions o codec cipher now limit)
  unfolding list_expired_upload_sessions select_page
  Keeps-list_expired now limit =
      Keeps-check o codec cipher fair _ _ _
        (λ _. Keeps-bind _ _ (Keeps-statement o _ fair (λ t h. h)) (Keeps-read_expired now))

  pub Keeps-list_owned :
      (owner : String) (now limit : ℕ)
      → Keeps AllSound (list_owned_active_upload_sessions o codec cipher owner now limit)
  unfolding list_owned_active_upload_sessions select_page
  Keeps-list_owned owner now limit =
      Keeps-check o codec cipher fair _ _ _
        (λ _. Keeps-bind _ _ (Keeps-statement o _ fair (λ t h. h)) (λ rows. Keeps-pure _))
