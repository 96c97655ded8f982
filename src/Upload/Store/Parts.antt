-- ===== src/Upload/Store/Parts.antt =====
-- `recordUploadPart`: read the row, then write it only if it is still what was read.
use ilist.Base.{
  String, Bool, true, not, Option, none, some, List, [], ◌∷◌, ◌++◌, ◌&&◌, if◌then◌else◌, is_number,
  is_none, is_some, ◌==◌,
}
use mathlib.Core.Option
use ilist.Base.Exec.{Outside, pure, lift, ◌>>=◌, ◌>>◌, date_now}
use ilist.Json.{Codec}
use ilist.Upload.Row.{
  UploadSessionRow, UploadSessionRecord, CompletedUploadPart, StorageItem, RecordUploadPartInput,
  is_active,
}
use ilist.Upload.Stored.{is_object, is_safe_integer, is_valid_part, is_valid_item, sort_parts}
use ilist.Upload.Check.{Cipher, row_to_record}
use ilist.Upload.Encode.{parts_json, item_json}
use ilist.Upload.Run.{record_part}
use ilist.Upload.Provider.{UploadTable}
use ilist.Upload.Store.{
  Action, check, encrypt_credential, send, get_owned_row, get_owned_upload_session, found_part,
  mismatched, is_refused,
}

abbrev pub valid_optional_item : Option StorageItem → Bool
valid_optional_item none = true
valid_optional_item (some item) = is_valid_item item

abbrev pub owns_claim : UploadSessionRecord → RecordUploadPartInput → Bool
owns_claim r input =
    is_active r.status
    && is_number r.active_part_number input.part.part_number
    && is_number r.active_part_expires_at input.claim_expires_at
    && is_none r.terminal_operation

-- `existing ? record.parts : [...record.parts, input.part].sort(…)`
unfoldable pub next_parts :
    List CompletedUploadPart → CompletedUploadPart → List CompletedUploadPart
next_parts parts part =
    if is_some (found_part part.part_number parts) then parts else sort_parts (parts ++ (part ∷ []))

module _ (o : Outside UploadTable) (codec : Codec) (cipher : Cipher) where
  abbrev pub when_found : {A : Type 0} → Option CompletedUploadPart → A → Option A
  when_found none a = none
  when_found (some part) a = some a

  unfoldable pub after_race :
      CompletedUploadPart
      → Option UploadSessionRecord
      → Action o codec cipher (Option UploadSessionRecord)
  after_race part none = pure none
  after_race part (some current) = if is_refused current then pure none else do
    check o codec cipher (not (mismatched (found_part part.part_number current.parts) part))
        "Recorded upload part does not match"
    pure (when_found (found_part part.part_number current.parts) current)

  unfoldable pub write_part :
      String
      → String
      → UploadSessionRow
      → UploadSessionRecord
      → RecordUploadPartInput
      → Action o codec cipher (Option UploadSessionRecord)
  unfolding after_race next_parts encrypt_credential send
  write_part owner id row r input = do
    ciphertext ← encrypt_credential o codec cipher input.provider_state id
    now ← date_now o
    n ← send o codec cipher owner id (
        record_part row ciphertext (codec.stringify (parts_json (next_parts r.parts input.part)))
          (Option.map (λ item. codec.stringify (item_json item)) input.completed_item)
          input.part.part_number input.claim_expires_at now)
    current ← get_owned_upload_session o codec cipher owner id
    if n == 1 then pure current else after_race input.part current

  unfoldable pub matched :
      String
      → String
      → RecordUploadPartInput
      → UploadSessionRow
      → UploadSessionRecord
      → Action o codec cipher (Option UploadSessionRecord)
  unfolding write_part
  matched owner id input row r = do
    check o codec cipher (not (mismatched (found_part input.part.part_number r.parts) input.part))
        "Recorded upload part does not match"
    if owns_claim r input
        then write_part owner id row r input
        else pure (when_found (found_part input.part.part_number r.parts) r)

  unfoldable pub record_into :
      String
      → String
      → RecordUploadPartInput
      → UploadSessionRow
      → Action o codec cipher (Option UploadSessionRecord)
  unfolding matched
  record_into owner id input row = do
    r ← lift (row_to_record codec cipher row)
    if is_refused r then pure none else matched owner id input row r

  unfoldable pub record_found :
      String
      → String
      → RecordUploadPartInput
      → Option UploadSessionRow
      → Action o codec cipher (Option UploadSessionRecord)
  unfolding record_into
  record_found owner id input none = pure none
  record_found owner id input (some row) = record_into owner id input row

  unfoldable pub record_upload_part :
      String → String → RecordUploadPartInput → Action o codec cipher (Option UploadSessionRecord)
  unfolding record_found get_owned_row
  record_upload_part owner id input = do
    check o codec cipher (is_safe_integer input.claim_expires_at 0) "Upload part claim is invalid"
    check o codec cipher (is_valid_part input.part) "Upload part is invalid"
    check o codec cipher (is_object input.provider_state) "Upload session provider state is invalid"
    check o codec cipher (valid_optional_item input.completed_item)
        "Completed upload item is invalid"
    row ← get_owned_row o codec cipher owner id
    record_found owner id input row
