-- ===== src/Upload/Store/Safety.antt =====
-- The functions of worker/upload-session-store.ts and the invariant of the rows.
pub mod Create
pub mod Parts
pub mod Cleanup
use ilist.Base.{
  ℕ, String, Bool, true, false, not, Option, none, some, List, [], ◌∷◌, ◌++◌, ◌≡◌, ◌≢◌, refl, arith,
  All, ◌&&◌, and_split, Bool-cases, inl, inr, if◌then◌else◌, text_eq, exists_in, ◌==◌, eq_iff, keep,
  take,
}
use ilist.Base.Exec.{
  Exec, World, Outside, Failure, failure, pure, lift, ◌>>=◌, Result, ok, err, statement, date_now,
  random_uuid,
}
use ilist.Base.Keeps.{
  Keeps, Fair, Keeps-pure, Keeps-throw, Keeps-lift, Keeps-if, Keeps-attempt, Keeps-bind,
  Keeps-date_now, Keeps-random_uuid, Keeps-statement,
}
use ilist.Base.Table.{All-updated, update_where, select_first}
use ilist.Json.{Json, Codec}
use ilist.Upload.Row.{
  UploadSessionRow, UploadSessionRecord, CreateUploadSessionRecordInput, TerminalOperation,
  CompletedUploadPart, StorageItem, RecordUploadPartInput, active,
}
use ilist.Upload.Check.{Cipher, row_to_record, is_stored_row, is_valid_create_input}
use ilist.Upload.Stored.{is_safe_integer, is_valid_part}
use ilist.Upload.Statements.{owned_by}
use ilist.Upload.Run.{
  Statement, accepts, admits, change, apply, run, claim_part, record_part, release_part,
  claim_terminal, complete_session, release_terminal, mark_aborted, touch,
}
use ilist.Upload.Run.Invariant.{IsStored, apply-IsStored, run-IsStored}
use ilist.Upload.Run.Final.{Agrees, apply-Agrees, run-Agrees}
use ilist.Upload.Provider.{UploadTable, UploadWorld, ProviderCall}
use ilist.Upload.Store.{
  Action, check, encrypt_credential, send, get_owned_row, as_record, get_owned_upload_session,
  reread, new_row, required, insert_row, create_upload_session_record, claim_upload_part,
  release_upload_part_claim, claim_terminal_operation, complete_upload_session_record,
  release_terminal_operation_claim, mark_upload_session_aborted,
  touch_upload_session_cleanup_attempt,
}

-- The row passes `assertStoredRow`, and its status fits its completed item.
pub record IsSound (row : UploadSessionRow) : Type 0 where
  pub stored : IsStored row
  pub agrees : Agrees row

abbrev pub AllSound : UploadTable → Type 0
AllSound = All IsSound

apply-IsSound :
    (s : Statement) (row : UploadSessionRow)
    → accepts s ≡ true
    → IsSound row
    → IsSound (apply s row)
apply-IsSound s row a h = record {
  stored = apply-IsStored s row a h.stored;
  agrees = apply-Agrees s row h.agrees;
}

pub run-IsSound :
    (ss : List Statement) (row : UploadSessionRow)
    → All (λ s. accepts s ≡ true) ss
    → IsSound row
    → IsSound (run ss row)
run-IsSound ss row a h = record {
  stored = run-IsStored ss row a h.stored;
  agrees = run-Agrees ss row h.agrees;
}

change-IsSound :
    (s : Statement) (row : UploadSessionRow)
    → accepts s ≡ true
    → IsSound row
    → admits s row ≡ true
    → IsSound (change s row)
unfolding apply
change-IsSound s row a h g = rw (g, apply) at (apply-IsSound s row a h)

module _ (o : Outside UploadTable) (codec : Codec) (cipher : Cipher) (fair : Fair AllSound o) where
  pub Keeps-check :
      {A : Type 0} (b : Bool) (message : String) (f : Unit {0} → Exec UploadWorld A)
      → (b ≡ true → Keeps AllSound (f tt))
      → Keeps AllSound (check o codec cipher b message >>= f)
  unfolding check ◌>>=◌
  Keeps-check true message f k = record { at = λ w h. (k refl).at w h }
  Keeps-check false message f k = record { at = λ w h. h }

  pub Keeps-send :
      (owner id : String) (s : Statement)
      → accepts s ≡ true
      → Keeps AllSound (send o codec cipher owner id s)
  unfolding send
  Keeps-send owner id s a = Keeps-statement o _ fair (λ t.
      All-updated IsSound _ (change s) t
        (λ r p hit. change-IsSound s r a p (and_split (owned_by owner id r) (admits s r) hit).1))

  pub Keeps-get_owned_row :
      (owner id : String) → Keeps AllSound (get_owned_row o codec cipher owner id)
  unfolding get_owned_row
  Keeps-get_owned_row owner id = Keeps-statement o _ fair (λ t h. h)

  Keeps-as_record : (row : Option UploadSessionRow) → Keeps AllSound (as_record o codec cipher row)
  unfolding as_record
  Keeps-as_record none = Keeps-pure none
  Keeps-as_record (some row) =
      Keeps-bind _ _ (Keeps-lift (row_to_record codec cipher row)) (λ r. Keeps-pure (some r))

  pub Keeps-get_owned :
      (owner id : String) → Keeps AllSound (get_owned_upload_session o codec cipher owner id)
  unfolding get_owned_upload_session
  Keeps-get_owned owner id = Keeps-bind _ _ (Keeps-get_owned_row owner id) Keeps-as_record

  Keeps-reread : (n : ℕ) (owner id : String) → Keeps AllSound (reread o codec cipher n owner id)
  unfolding reread
  Keeps-reread n owner id = Keeps-if (n == 1) _ _ (Keeps-get_owned owner id) (Keeps-pure none)

  pub Keeps-encrypt :
      (state : Json) (id : String) → Keeps AllSound (encrypt_credential o codec cipher state id)
  unfolding encrypt_credential
  Keeps-encrypt state id = record { at = λ w h. h }

  pub Keeps-claim_upload_part :
      (owner id : String) (n expires now : ℕ)
      → Keeps AllSound (claim_upload_part o codec cipher owner id n expires now)
  unfolding claim_upload_part
  Keeps-claim_upload_part owner id n expires now =
      Keeps-check _ _ _
        (λ a. Keeps-bind _ _ (Keeps-send owner id _ a) (λ c. Keeps-reread c owner id))

  pub Keeps-release_upload_part_claim :
      (owner id : String) (n expires : ℕ)
      → Keeps AllSound (release_upload_part_claim o codec cipher owner id n expires)
  unfolding release_upload_part_claim accepts
  Keeps-release_upload_part_claim owner id n expires = Keeps-check _ _ _ (λ a.
      Keeps-bind _ _ (Keeps-date_now o) (λ now.
        Keeps-bind _ _ (Keeps-send owner id (release_part n expires now) a)
          (λ c. Keeps-pure (c == 1))))

  pub Keeps-claim_terminal_operation :
      (owner id : String) (op : TerminalOperation) (who : String) (expires now : ℕ)
      → Keeps AllSound (claim_terminal_operation o codec cipher owner id op who expires now)
  unfolding claim_terminal_operation
  Keeps-claim_terminal_operation owner id op who expires now =
      Keeps-check _ _ _
        (λ a. Keeps-bind _ _ (Keeps-send owner id _ a) (λ c. Keeps-reread c owner id))

  pub Keeps-complete_upload_session_record :
      (owner id who : String) (expires : ℕ) (item : StorageItem)
      → Keeps AllSound (complete_upload_session_record o codec cipher owner id who expires item)
  unfolding complete_upload_session_record accepts
  Keeps-complete_upload_session_record owner id who expires item = Keeps-check _ _ _ (λ a.
      Keeps-check _ _ _ (λ _. Keeps-bind _ _ (Keeps-date_now o) (λ now.
        Keeps-bind _ _ (Keeps-send owner id (complete_session who expires _ now) a)
          (λ c. Keeps-reread c owner id))))

  pub Keeps-release_terminal_operation_claim :
      (owner id : String) (op : TerminalOperation) (who : String) (expires : ℕ)
      → Keeps AllSound (release_terminal_operation_claim o codec cipher owner id op who expires)
  unfolding release_terminal_operation_claim accepts
  Keeps-release_terminal_operation_claim owner id op who expires = Keeps-check _ _ _ (λ a.
      Keeps-bind _ _ (Keeps-date_now o) (λ now.
        Keeps-bind _ _ (Keeps-send owner id (release_terminal op who expires now) a)
          (λ c. Keeps-pure (c == 1))))

  pub Keeps-mark_upload_session_aborted :
      (owner id who : String) (expires : ℕ)
      → Keeps AllSound (mark_upload_session_aborted o codec cipher owner id who expires)
  unfolding mark_upload_session_aborted accepts
  Keeps-mark_upload_session_aborted owner id who expires = Keeps-check _ _ _ (λ a.
      Keeps-bind _ _ (Keeps-date_now o) (λ now.
        Keeps-bind _ _ (Keeps-send owner id (mark_aborted who expires now) a)
          (λ c. Keeps-reread c owner id)))

  pub Keeps-touch :
      (id : String) (at : ℕ)
      → Keeps AllSound (touch_upload_session_cleanup_attempt o codec cipher id at)
  unfolding touch_upload_session_cleanup_attempt accepts
  Keeps-touch id at = Keeps-check _ _ _ (λ a.
      Keeps-bind _ _
        (Keeps-statement o _ fair (λ t. All-updated IsSound _ (change (touch at)) t (λ r p hit.
          change-IsSound (touch at) r (and_split (not (text_eq id "")) _ a).1 p
            (and_split (text_eq r.id id) (admits (touch at) r) hit).1)))
        (λ c. Keeps-pure (c == 1)))
