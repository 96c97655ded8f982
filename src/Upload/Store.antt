-- ===== src/Upload/Store.antt =====
-- The functions of worker/upload-session-store.ts. Every awaited statement may find the table
-- changed by other requests, and may fail.
pub mod Parts
pub mod Lists
pub mod Safety
use ilist.Base.{
  ℕ, ◌+◌, String, Bool, true, false, not, Option, none, some, List, [], ◌∷◌, ◌++◌, ◌&&◌, ◌||◌,
  if◌then◌else◌, text_eq, leb, ltb, ◌==◌, is_none, is_number, same_text, find_first, exists_in,
  keep, take,
}
use ilist.Base.Exec.{
  Exec, Outside, World, Result, ok, err, failure, pure, throw, lift, attempt, ◌>>=◌, ◌>>◌,
  statement, date_now, random_uuid,
}
use ilist.Base.Table.{update_where, select_first}
use ilist.Json.{Json, Codec, max_safe}
use ilist.Upload.Row.{
  UploadSessionRow, UploadSessionRecord, CompletedUploadPart, StorageItem, TerminalOperation,
  CreateUploadSessionRecordInput, RecordUploadPartInput, active, is_active, is_aborted,
  is_operation, abort, is_open,
}
use ilist.Upload.Stored.{
  is_object, is_safe_integer, is_valid_part, is_valid_item, sort_parts, has_number,
}
use ilist.Upload.Check.{Cipher, encrypt_state, row_to_record, is_valid_create_input}
use ilist.Upload.Encode.{parts_json, item_json}
use ilist.Upload.Statements.{owned_by, is_cleanable, is_resumable}
use ilist.Upload.Run.{
  Statement, claim_part, record_part, release_part, claim_terminal, complete_session,
  release_terminal, mark_aborted, touch, accepts, admits, change,
}
use ilist.Upload.Provider.{UploadTable, UploadWorld}

-- `INSERT`, which the primary key refuses for an id in use
abbrev pub insert_row : UploadSessionRow → UploadTable → Bool × UploadTable
insert_row row t =
    if exists_in (λ r. text_eq r.id row.id) t then (false, t) else (true, t ++ (row ∷ []))

unfoldable pub same_part : CompletedUploadPart → CompletedUploadPart → Bool
same_part left right =
    left.part_number == right.part_number
    && left.size == right.size
    && same_text left.etag right.etag

abbrev pub found_part : ℕ → List CompletedUploadPart → Option CompletedUploadPart
found_part n parts = find_first (has_number n) parts

-- a different part under the same number
abbrev pub mismatched : Option CompletedUploadPart → CompletedUploadPart → Bool
mismatched none part = false
mismatched (some existing) part = not (same_part existing part)

abbrev pub is_refused : UploadSessionRecord → Bool
is_refused r = is_aborted r.status || is_operation r.terminal_operation abort

module _ (o : Outside UploadTable) (codec : Codec) (cipher : Cipher) where
  abbrev Action : Type 0 → Type 0
  Action A = Exec UploadWorld A

  unfoldable pub check : Bool → String → Action (Unit {0})
  check true message = pure tt
  check false message = throw (failure message)

  -- `encryptCredential` draws a fresh nonce
  unfoldable pub encrypt_credential : Json → String → Action String
  encrypt_credential state id w =
      (ok (encrypt_state codec cipher w.tick state id), record w { tick = w.tick + 1 })

  unfoldable pub send : String → String → Statement → Action ℕ
  send owner id s = statement o (update_where (λ r. owned_by owner id r && admits s r) (change s))

  unfoldable pub get_owned_row : String → String → Action (Option UploadSessionRow)
  get_owned_row owner id = statement o (select_first (owned_by owner id))

  unfoldable pub as_record : Option UploadSessionRow → Action (Option UploadSessionRecord)
  as_record none = pure none
  as_record (some row) = do r ← lift (row_to_record codec cipher row); pure (some r)

  unfoldable pub get_owned_upload_session : String → String → Action (Option UploadSessionRecord)
  unfolding get_owned_row as_record
  get_owned_upload_session owner id = do row ← get_owned_row owner id; as_record row

  -- `if (result.meta.changes !== 1) return null; return getOwnedUploadSession(…)`
  unfoldable pub reread : ℕ → String → String → Action (Option UploadSessionRecord)
  reread n owner id = if n == 1 then get_owned_upload_session owner id else pure none

  unfoldable pub new_row :
      String → String → CreateUploadSessionRecordInput → String → ℕ → UploadSessionRow
  new_row owner id input ciphertext now = record {
    id = id;
    owner_session_id = owner;
    mount_id = input.mount_id;
    parent_item_id = input.parent_item_id;
    name = input.name;
    size = input.size;
    content_type = input.content_type;
    part_size = input.part_size;
    provider_state_ciphertext = ciphertext;
    parts_json = "[]";
    completed_item_json = none;
    status = active;
    active_part_number = none;
    active_part_expires_at = none;
    terminal_operation = none;
    terminal_owner = none;
    terminal_expires_at = none;
    cleanup_attempted_at = 0;
    expires_at = input.expires_at;
    created_at = now;
    updated_at = now;
  }

  unfoldable pub required : Option UploadSessionRecord → String → Action UploadSessionRecord
  required none message = throw (failure message)
  required (some r) message = pure r

  unfoldable pub create_upload_session_record :
      String → CreateUploadSessionRecordInput → Action UploadSessionRecord
  unfolding encrypt_credential new_row required
  create_upload_session_record owner input = do
    check (is_valid_create_input owner input) "Upload session input is invalid"
    id ← random_uuid o
    now ← date_now o
    ciphertext ← encrypt_credential input.provider_state id
    inserted ← statement o (insert_row (new_row owner id input ciphertext now))
    check inserted "UNIQUE constraint failed: upload_sessions.id"
    found ← get_owned_upload_session owner id
    required found "Created upload session was not found"

  unfoldable pub claim_upload_part :
      String → String → ℕ → ℕ → ℕ → Action (Option UploadSessionRecord)
  unfolding send reread
  claim_upload_part owner id part_number claim_expires_at now = do
    check (accepts (claim_part part_number claim_expires_at now)) "Upload part claim is invalid"
    n ← send owner id (claim_part part_number claim_expires_at now)
    reread n owner id

  unfoldable pub release_upload_part_claim : String → String → ℕ → ℕ → Action Bool
  unfolding send
  release_upload_part_claim owner id part_number claim_expires_at = do
    check (is_safe_integer part_number 1 && is_safe_integer claim_expires_at 0)
        "Upload part claim is invalid"
    now ← date_now o
    n ← send owner id (release_part part_number claim_expires_at now)
    pure (n == 1)

  unfoldable pub claim_terminal_operation :
      String → String → TerminalOperation → String → ℕ → ℕ → Action (Option UploadSessionRecord)
  unfolding send reread
  claim_terminal_operation owner id operation terminal_owner terminal_expires_at now = do
    check (accepts (claim_terminal operation terminal_owner terminal_expires_at now))
        "Upload terminal operation claim is invalid"
    n ← send owner id (claim_terminal operation terminal_owner terminal_expires_at now)
    reread n owner id

  abbrev pub valid_claim : String → ℕ → Bool
  valid_claim terminal_owner terminal_expires_at =
      not (text_eq terminal_owner "") && is_safe_integer terminal_expires_at 0

  unfoldable pub complete_upload_session_record :
      String → String → String → ℕ → StorageItem → Action (Option UploadSessionRecord)
  unfolding send reread
  complete_upload_session_record owner id terminal_owner terminal_expires_at item = do
    check (valid_claim terminal_owner terminal_expires_at)
        "Upload terminal operation claim is invalid"
    check (is_valid_item item) "Completed upload item is invalid"
    now ← date_now o
    n ←
        send owner id (
          complete_session terminal_owner terminal_expires_at (codec.stringify (item_json item))
            now)
    reread n owner id

  unfoldable pub release_terminal_operation_claim :
      String → String → TerminalOperation → String → ℕ → Action Bool
  unfolding send
  release_terminal_operation_claim owner id operation terminal_owner terminal_expires_at = do
    check (valid_claim terminal_owner terminal_expires_at)
        "Upload terminal operation claim is invalid"
    now ← date_now o
    n ← send owner id (release_terminal operation terminal_owner terminal_expires_at now)
    pure (n == 1)

  unfoldable pub mark_upload_session_aborted :
      String → String → String → ℕ → Action (Option UploadSessionRecord)
  unfolding send reread
  mark_upload_session_aborted owner id terminal_owner terminal_expires_at = do
    check (valid_claim terminal_owner terminal_expires_at)
        "Upload terminal operation claim is invalid"
    now ← date_now o
    n ← send owner id (mark_aborted terminal_owner terminal_expires_at now)
    reread n owner id

  unfoldable pub touch_upload_session_cleanup_attempt : String → ℕ → Action Bool
  touch_upload_session_cleanup_attempt id attempted_at = do
    check (not (text_eq id "") && is_safe_integer attempted_at 0)
        "Upload cleanup attempt is invalid"
    n ← statement o (
        update_where (λ r. text_eq r.id id && admits (touch attempted_at) r)
          (change (touch attempted_at)))
    pure (n == 1)
