-- ===== src/Upload/Store/Safety/Parts.antt =====
-- `recordUploadPart` of worker/upload-session-store.ts and the invariant of the rows.
use ilist.Base.{String, true, Option, none, some, ◌≡◌, arith, ◌==◌}
use ilist.Base.Exec.{Outside}
use ilist.Base.Keeps.{Keeps, Fair, Keeps-pure, Keeps-lift, Keeps-if, Keeps-bind, Keeps-date_now}
use ilist.Json.{Codec}
use ilist.Upload.Row.{
  UploadSessionRow, UploadSessionRecord, CompletedUploadPart, RecordUploadPartInput,
}
use ilist.Upload.Check.{Cipher, row_to_record}
use ilist.Upload.Stored.{is_safe_integer, is_valid_part}
use ilist.Upload.Run.{accepts}
use ilist.Upload.Provider.{UploadTable}
use ilist.Upload.Store.{is_refused}
use ilist.Upload.Store.Parts.{
  after_race, write_part, matched, record_into, record_found, record_upload_part,
}
use ilist.Upload.Store.Safety.{
  AllSound, Keeps-check, Keeps-send, Keeps-encrypt, Keeps-get_owned, Keeps-get_owned_row,
}

module _ (o : Outside UploadTable) (codec : Codec) (cipher : Cipher) (fair : Fair AllSound o) where
  Keeps-after_race :
      (part : CompletedUploadPart) (r : Option UploadSessionRecord)
      → Keeps AllSound (after_race o codec cipher part r)
  unfolding after_race
  Keeps-after_race part none = Keeps-pure none
  Keeps-after_race part (some r) =
      Keeps-if (is_refused r) _ _ (Keeps-pure none)
        (Keeps-check o codec cipher fair _ _ _ (λ _. Keeps-pure _))

  module _ (owner id : String) (input : RecordUploadPartInput)
      (expires_fit : is_safe_integer input.claim_expires_at 0 ≡ true)
      (part_fits : is_valid_part input.part ≡ true) where
    Keeps-write_part :
        (row : UploadSessionRow) (r : UploadSessionRecord)
        → Keeps AllSound (write_part o codec cipher owner id row r input)
    unfolding write_part accepts is_valid_part
    Keeps-write_part row r =
        Keeps-bind _ _ (Keeps-encrypt o codec cipher fair input.provider_state id) (λ ciphertext.
          Keeps-bind _ _ (Keeps-date_now o) (λ now.
            Keeps-bind _ _ (Keeps-send o codec cipher fair owner id _ (ground arith)) (λ n.
              Keeps-bind _ _ (Keeps-get_owned o codec cipher fair owner id) (λ current.
                Keeps-if (n == 1) _ _ (Keeps-pure current) (Keeps-after_race input.part current)))))

    Keeps-record_found :
        (row : Option UploadSessionRow)
        → Keeps AllSound (record_found o codec cipher owner id input row)
    unfolding record_found record_into matched
    Keeps-record_found none = Keeps-pure none
    Keeps-record_found (some row) =
        Keeps-bind _ _ (Keeps-lift (row_to_record codec cipher row)) (λ r.
          Keeps-if (is_refused r) _ _ (Keeps-pure none) (
            Keeps-check o codec cipher fair _ _ _
              (λ _. Keeps-if _ _ _ (Keeps-write_part row r) (Keeps-pure _))))

  pub Keeps-record_upload_part :
      (owner id : String) (input : RecordUploadPartInput)
      → Keeps AllSound (record_upload_part o codec cipher owner id input)
  unfolding record_upload_part
  Keeps-record_upload_part owner id input = Keeps-check o codec cipher fair _ _ _ (λ e.
      Keeps-check o codec cipher fair _ _ _ (λ p. Keeps-check o codec cipher fair _ _ _ (λ _.
        Keeps-check o codec cipher fair _ _ _ (λ _.
          Keeps-bind _ _ (Keeps-get_owned_row o codec cipher fair owner id)
            (Keeps-record_found owner id input e p)))))
