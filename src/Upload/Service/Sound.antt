-- ===== src/Upload/Service/Sound.antt =====
-- What the requests of worker/upload-service.ts and the writes of worker/upload-session-store.ts
-- do to upload_sessions while other requests run between their statements.
use ilist.Base.{ℕ, String}
use ilist.Base.Exec.{Outside}
use ilist.Json.{Codec}
use ilist.Upload.Row.{CreateUploadSessionRecordInput, RecordUploadPartInput}
use ilist.Upload.Check.{Cipher}
use ilist.Upload.Provider.{UploadTable, UploadWorld, Provider}
use ilist.Upload.Rivals.{Rivals, Proper, among, among-Fair}
use ilist.Upload.Store.{create_upload_session_record}
use ilist.Upload.Store.Parts.{record_upload_part}
use ilist.Upload.Store.Safety.{AllSound}
use ilist.Upload.Store.Safety.Create.{HasIds, Keeps-create_upload_session_record}
use ilist.Upload.Store.Safety.Parts.{Keeps-record_upload_part}
use ilist.Upload.Service.Parts.{PartRequest}
use ilist.Upload.Service.PartUpload.{upload_resumable_part}
use ilist.Upload.Service.Finish.{complete_resumable_upload}
use ilist.Upload.Service.Abort.{abort_resumable_upload, cleanup_expired_uploads}
use ilist.Upload.Service.Safety.PartUpload.{Keeps-upload_resumable_part}
use ilist.Upload.Service.Safety.Finish.{Keeps-complete_resumable_upload}
use ilist.Upload.Service.Safety.Abort.{Keeps-abort_resumable_upload, Keeps-cleanup_expired_uploads}

module _ (o : Outside UploadTable) (codec : Codec) (cipher : Cipher) (rivals : Rivals)
    (proper : Proper rivals) (w : UploadWorld) (h : AllSound w.table) where
  -- Creating a session leaves every row sound, whether it succeeds or throws, if random
  -- identifiers are not empty, all rows are sound before it and the statements of the other
  -- requests that run in between pass the store's argument checks.
  create_upload_session_record-AllSound :
      (owner : String) (input : CreateUploadSessionRecordInput)
      → HasIds (among rivals o)
      → AllSound (create_upload_session_record (among rivals o) codec cipher owner input w).1.table
  create_upload_session_record-AllSound owner input ids =
      (Keeps-create_upload_session_record (among rivals o) codec cipher (among-Fair rivals o proper)
          ids owner input).at
        w h

  -- Recording a part leaves every row sound, whatever the part, the item and the provider's state
  -- are, and whether it succeeds or throws, if all rows are sound before it and the statements of
  -- the other requests that run in between pass the store's argument checks.
  record_upload_part-AllSound :
      (owner id : String) (input : RecordUploadPartInput)
      → AllSound (record_upload_part (among rivals o) codec cipher owner id input w).1.table
  record_upload_part-AllSound owner id input =
      (Keeps-record_upload_part (among rivals o) codec cipher (among-Fair rivals o proper) owner id
          input).at
        w h

  module _ (provider : Provider) where
    -- Uploading a part leaves every row sound, whether it succeeds or throws and whatever the
    -- provider answers, if all rows are sound before it and the statements of the other requests
    -- that run in between pass the store's argument checks.
    pub upload_resumable_part-AllSound :
        (owner id : String) (n : ℕ) (request : PartRequest)
        → AllSound
            (upload_resumable_part
              (among rivals o)
              codec
              cipher
              provider
              owner
              id
              n
              request
              w).1.table
    upload_resumable_part-AllSound owner id n request =
        (Keeps-upload_resumable_part (among rivals o) codec cipher provider
            (among-Fair rivals o proper) owner id n request).at
          w h

    -- Completing an upload leaves every row sound, whether it succeeds or throws and whatever the
    -- provider answers, if all rows are sound before
    -- it and the statements of the other requests that run in between pass the store's argument
    -- checks.
    pub complete_resumable_upload-AllSound :
        (owner id : String)
        → AllSound
            (complete_resumable_upload (among rivals o) codec cipher provider owner id w).1.table
    complete_resumable_upload-AllSound owner id =
        (Keeps-complete_resumable_upload (among rivals o) codec cipher provider
            (among-Fair rivals o proper) owner id).at
          w h

    -- Aborting an upload leaves every row sound, whether it succeeds or throws and whatever the
    -- provider answers, if all rows are sound before
    -- it and the statements of the other requests that run in between pass the store's argument
    -- checks.
    pub abort_resumable_upload-AllSound :
        (owner id : String)
        → AllSound
            (abort_resumable_upload (among rivals o) codec cipher provider owner id w).1.table
    abort_resumable_upload-AllSound owner id =
        (Keeps-abort_resumable_upload (among rivals o) codec cipher provider
            (among-Fair rivals o proper) owner id).at
          w h

    -- The cleanup of expired uploads leaves every row sound, however many it handles and whichever
    -- of its steps fail, if all rows are sound before
    -- it and the statements of the other requests that run in between pass the store's argument
    -- checks.
    pub cleanup_expired_uploads-AllSound :
        (limit : ℕ)
        → AllSound (cleanup_expired_uploads (among rivals o) codec cipher provider limit w).1.table
    cleanup_expired_uploads-AllSound limit =
        (Keeps-cleanup_expired_uploads (among rivals o) codec cipher provider
            (among-Fair rivals o proper) limit).at
          w h
