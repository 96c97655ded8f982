-- ===== src/Upload/Check.antt =====
-- `assertStoredRow`, `rowToRecord` and `assertCreateInput` of worker/upload-session-store.ts.
-- Checks that TypeScript's column types make true (`typeof row.name === 'string'`) are left out.
use Prim.Native.String
use ilist.Base.{
  ℕ, String, Bool, false, not, Option, none, some, List, ◌&&◌, ◌||◌, if◌then◌else◌, text_eq,
  is_none,
}
use ilist.Base.Exec.{Result, ok, err, failure}
use ilist.Json.{Json, Codec}
use ilist.Upload.Row.{
  UploadSessionRow, UploadSessionRecord, StorageItem, CompletedUploadPart, active, completing,
  completed, aborted, is_operation, complete, abort, CreateUploadSessionRecordInput,
}
use ilist.Upload.Stored.{is_object, is_safe_integer, parse_parts, parse_completed_item}

-- `encryptCredential` and `decryptCredential` under the Worker's key, for one context text. The
-- number is the random nonce of a call; `none` says that decryption throws.
pub record Cipher : Type 0 where
  pub encrypt : ℕ → Json → String → String
  pub decrypt : String → String → Option Json

abbrev pub is_safe_column : Option ℕ → ℕ → Bool
is_safe_column none minimum = false
is_safe_column (some n) minimum = is_safe_integer n minimum

-- a text column that is neither NULL nor empty
abbrev pub is_filled : Option String → Bool
is_filled none = false
is_filled (some s) = not (text_eq s "")

unfoldable pub valid_active_claim : UploadSessionRow → Bool
valid_active_claim row =
    (is_none row.active_part_number && is_none row.active_part_expires_at)
    || (is_safe_column row.active_part_number 1 && is_safe_column row.active_part_expires_at 0)

abbrev pub no_terminal_claim : UploadSessionRow → Bool
no_terminal_claim row =
    is_none row.terminal_operation && is_none row.terminal_owner && is_none row.terminal_expires_at

unfoldable pub valid_terminal_claim : UploadSessionRow → Bool
valid_terminal_claim row =
    no_terminal_claim row
    || ((is_operation row.terminal_operation complete || is_operation row.terminal_operation abort)
        && is_filled row.terminal_owner
        && is_safe_column row.terminal_expires_at 0)

unfoldable pub terminal_claim_matches_status : UploadSessionRow → Bool
terminal_claim_matches_status row = elim row.status [
  | active ↦ no_terminal_claim row || is_operation row.terminal_operation abort
  | completing ↦ no_terminal_claim row || is_operation row.terminal_operation complete
  | completed ↦ no_terminal_claim row
  | aborted ↦ no_terminal_claim row
]

unfoldable pub claims_do_not_overlap : UploadSessionRow → Bool
claims_do_not_overlap row = no_terminal_claim row || is_none row.active_part_number

-- the columns that no statement but the INSERT writes, and the cleanup time
unfoldable pub valid_columns : UploadSessionRow → Bool
valid_columns row =
    not (text_eq row.id "")
    && not (text_eq row.owner_session_id "")
    && not (text_eq row.mount_id "")
    && is_safe_integer row.size 0
    && is_safe_integer row.part_size 1
    && is_safe_integer row.cleanup_attempted_at 0
    && is_safe_integer row.expires_at 0

-- `assertStoredRow`, as a test
unfoldable pub is_stored_row : UploadSessionRow → Bool
unfolding valid_active_claim valid_terminal_claim terminal_claim_matches_status
    claims_do_not_overlap valid_columns
is_stored_row row =
    valid_columns row
    && valid_active_claim row
    && valid_terminal_claim row
    && terminal_claim_matches_status row
    && claims_do_not_overlap row

unfoldable pub context : String → String
context id = String.◌++◌ "upload-session:" id

unfoldable pub decrypted_state : Option Json → Result Json
decrypted_state none = err (failure "Credential decryption failed")
decrypted_state (some state) =
    if is_object state
    then ok state
    else err (failure "Stored upload session provider state is invalid")

module _ (codec : Codec) (cipher : Cipher) where
  abbrev pub encrypt_state : ℕ → Json → String → String
  unfolding context
  encrypt_state nonce state id = cipher.encrypt nonce state (context id)

  abbrev pub and_then : {A B : Type 0} → Result A → (A → Result B) → Result B
  and_then (ok a) f = f a
  and_then (err e) f = err e

  unfoldable pub to_record :
      UploadSessionRow → Json → List CompletedUploadPart → Option StorageItem → UploadSessionRecord
  to_record row state parts item = record {
    id = row.id;
    owner_session_id = row.owner_session_id;
    mount_id = row.mount_id;
    parent_item_id = row.parent_item_id;
    name = row.name;
    size = row.size;
    content_type = row.content_type;
    part_size = row.part_size;
    provider_state = state;
    parts = parts;
    completed_item = item;
    status = row.status;
    active_part_number = row.active_part_number;
    active_part_expires_at = row.active_part_expires_at;
    terminal_operation = row.terminal_operation;
    terminal_owner = row.terminal_owner;
    terminal_expires_at = row.terminal_expires_at;
    cleanup_attempted_at = row.cleanup_attempted_at;
    expires_at = row.expires_at;
    created_at = row.created_at;
    updated_at = row.updated_at;
  }

  -- `rowToRecord`
  unfoldable pub row_to_record : UploadSessionRow → Result UploadSessionRecord
  unfolding is_stored_row decrypted_state context to_record
  row_to_record row =
      if is_stored_row row
      then and_then
          (decrypted_state (cipher.decrypt row.provider_state_ciphertext (context row.id)))
          (λ state. and_then (parse_parts codec row.parts_json) (λ parts.
            and_then (parse_completed_item codec row.completed_item_json)
              (λ item. ok (to_record row state parts item))))
      else err (failure "Stored upload session row is invalid")

-- `assertCreateInput`, as a test
unfoldable pub is_valid_create_input : String → CreateUploadSessionRecordInput → Bool
is_valid_create_input owner_session_id input =
    not (text_eq owner_session_id "")
    && not (text_eq input.mount_id "")
    && is_safe_integer input.size 0
    && is_safe_integer input.part_size 1
    && is_safe_integer input.expires_at 0
    && is_object input.provider_state
