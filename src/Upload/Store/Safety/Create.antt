-- ===== src/Upload/Store/Safety/Create.antt =====
-- `createUploadSessionRecord` of worker/upload-session-store.ts and the invariant of the rows.
use ilist.Base.{
  ℕ, String, true, Option, none, some, [], ◌∷◌, ◌++◌, ◌≡◌, ◌≢◌, arith, All, Bool-cases, inl, inr,
  text_eq, exists_in, eq_iff,
}
use ilist.Base.Exec.{◌>>=◌, Exec, Outside, random_uuid, failure}
use ilist.Base.Keeps.{
  Keeps, Fair, Keeps-pure, Keeps-throw, Keeps-bind, Keeps-date_now, Keeps-statement,
}
use ilist.Json.{Codec}
use ilist.Upload.Row.{UploadSessionRow, UploadSessionRecord, CreateUploadSessionRecordInput}
use ilist.Upload.Check.{Cipher, is_stored_row, is_valid_create_input}
use ilist.Upload.Provider.{UploadTable, UploadWorld}
use ilist.Upload.Store.{new_row, required, insert_row, create_upload_session_record}
use ilist.Upload.Store.Safety.{IsSound, AllSound, Keeps-check, Keeps-encrypt, Keeps-get_owned}

-- `crypto.randomUUID()` is never empty
abbrev pub HasIds : Outside UploadTable → Type 0
HasIds o = (n : ℕ) → o.uuid n ≢ ""

All-snoc :
    (P : UploadSessionRow → Type 0) (t : UploadTable) (r : UploadSessionRow)
    → All P t
    → P r
    → All P (t ++ (r ∷ []))
All-snoc P [] r h p = (p, tt)
All-snoc P (x ∷ xs) r (q, h) p = (q, All-snoc P xs r h p)

insert_row-AllSound :
    (r : UploadSessionRow) (t : UploadTable) → IsSound r → AllSound t → AllSound (insert_row r t).1
insert_row-AllSound r t p h = elim (Bool-cases (exists_in (λ x. text_eq x.id r.id) t)) [
  | inl used ↦ rw used h
  | inr fresh ↦ rw fresh (All-snoc IsSound t r h p)
]

module _ (o : Outside UploadTable) (codec : Codec) (cipher : Cipher) (fair : Fair AllSound o)
    (ids : HasIds o) where
  new_row-IsSound :
      (owner id : String) (input : CreateUploadSessionRecordInput) (ciphertext : String) (now : ℕ)
      → id ≢ ""
      → is_valid_create_input owner input ≡ true
      → IsSound (new_row o codec cipher owner id input ciphertext now)
  unfolding new_row is_stored_row is_valid_create_input
  new_row-IsSound owner id input ciphertext now filled valid = record {
    stored = ground (arith, eq_iff id "");
    agrees = record { no_item = λ e. cc; an_item = λ e. cc };
  }

  Keeps-required :
      (r : Option UploadSessionRecord) (message : String)
      → Keeps AllSound (required o codec cipher r message)
  unfolding required
  Keeps-required none message = Keeps-throw (failure message)
  Keeps-required (some r) message = Keeps-pure r

  -- the identifier that the rest of the function is given is not empty
  Keeps-random_uuid :
      {A : Type 0} (f : String → Exec UploadWorld A)
      → ((id : String) → id ≢ "" → Keeps AllSound (f id))
      → Keeps AllSound (random_uuid o >>= f)
  unfolding random_uuid ◌>>=◌
  Keeps-random_uuid f k = record { at = λ w h. (k (o.uuid w.tick) (ids w.tick)).at _ h }

  pub Keeps-create_upload_session_record :
      (owner : String) (input : CreateUploadSessionRecordInput)
      → Keeps AllSound (create_upload_session_record o codec cipher owner input)
  unfolding create_upload_session_record
  Keeps-create_upload_session_record owner input = Keeps-check o codec cipher fair _ _ _ (λ valid.
      Keeps-random_uuid _ (λ id filled. Keeps-bind _ _ (Keeps-date_now o) (λ now.
        Keeps-bind _ _ (Keeps-encrypt o codec cipher fair input.provider_state id) (λ text.
          Keeps-bind _ _
            (Keeps-statement o _ fair (λ t h.
              insert_row-AllSound _ t (new_row-IsSound owner id input text now filled valid) h))
            (λ inserted. Keeps-check o codec cipher fair _ _ _ (λ _.
              Keeps-bind _ _ (Keeps-get_owned o codec cipher fair owner id)
                (λ r. Keeps-required r _)))))))
