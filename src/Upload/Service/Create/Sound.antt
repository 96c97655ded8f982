-- ===== src/Upload/Service/Create/Sound.antt =====
-- `createResumableUpload` and the invariant of the rows.
use ilist.Base.{String, Option, none, some}
use ilist.Base.Exec.{Outside, Result, ok, err}
use ilist.Base.Keeps.{Keeps, Fair}
use ilist.Json.{Json, Codec}
use ilist.Upload.Check.{Cipher}
use ilist.Upload.Provider.{UploadTable, UploadWorld, Provider}
use ilist.Upload.Rivals.{Rivals, Proper, among, among-Fair}
use ilist.Upload.Store.Safety.{AllSound}
use ilist.Upload.Store.Safety.Create.{HasIds, Keeps-create_upload_session_record}
use ilist.Upload.Service.Safety.{flow}
use ilist.Upload.Service.Safety.Abort.{Keeps-cleanup_expired_uploads}
use ilist.Upload.Service.Create.{
  UploadSessionView, UploadBody, ExternalItem, Creation, ProviderUploadSession, cleanup_quietly,
  best_effort_abort, abort_if_object, or_give_back, store_session, checked_provider_session,
  provider_created, create_resumable_upload,
}

module _ (o : Outside UploadTable) (codec : Codec) (cipher : Cipher) (provider : Provider)
    (creation : Creation) where
  module _ (fair : Fair AllSound o) (ids : HasIds o) where
    Keeps-cleanup_quietly : Keeps AllSound (cleanup_quietly o codec cipher provider creation)
    unfolding cleanup_quietly
    Keeps-cleanup_quietly = search (flow, Keeps-cleanup_expired_uploads)

    Keeps-best_effort_abort :
        (state : Json) → Keeps AllSound (best_effort_abort o codec cipher provider creation state)
    unfolding best_effort_abort
    Keeps-best_effort_abort state = search flow

    Keeps-abort_if_object :
        (state : Option Json)
        → Keeps AllSound (abort_if_object o codec cipher provider creation state)
    unfolding abort_if_object
    Keeps-abort_if_object none = search flow
    Keeps-abort_if_object (some state) = search Keeps-best_effort_abort

    Keeps-or_give_back :
        (state : Json) (r : Result UploadSessionView)
        → Keeps AllSound (or_give_back o codec cipher provider creation state r)
    unfolding or_give_back
    Keeps-or_give_back state (ok view) = search flow
    Keeps-or_give_back state (err e) = search (flow, Keeps-best_effort_abort)

    Keeps-store_session :
        (owner : String) (item : ExternalItem) (body : UploadBody) (session : ProviderUploadSession)
        → Keeps AllSound (store_session o codec cipher provider creation owner item body session)
    unfolding store_session
    Keeps-store_session owner item body session =
        search (flow, Keeps-create_upload_session_record, Keeps-or_give_back) depth 8

    Keeps-checked_provider_session :
        (owner : String) (item : ExternalItem) (body : UploadBody) (value : Json)
        (session : Option ProviderUploadSession)
        → Keeps AllSound (
            checked_provider_session o codec cipher provider creation owner item body value session)
    unfolding checked_provider_session
    Keeps-checked_provider_session owner item body value none = search (flow, Keeps-abort_if_object)
    Keeps-checked_provider_session owner item body value (some session) = search Keeps-store_session

    Keeps-provider_created :
        (owner : String) (item : ExternalItem) (body : UploadBody) (answer : Result Json)
        → Keeps AllSound (provider_created o codec cipher provider creation owner item body answer)
    unfolding provider_created
    Keeps-provider_created owner item body (err e) = search flow
    Keeps-provider_created owner item body (ok value) =
        search (flow, Keeps-checked_provider_session)

    Keeps-create_resumable_upload :
        (owner : String) (input : Json)
        → Keeps AllSound (create_resumable_upload o codec cipher provider creation owner input)
    unfolding create_resumable_upload
    Keeps-create_resumable_upload owner input =
        search (flow, Keeps-cleanup_quietly, Keeps-provider_created) depth 12

-- Creating an upload leaves every row sound, whatever its body is and the provider answers and
-- whether it succeeds or throws, if random identifiers are not empty, all rows are sound before it
-- and the statements of the other requests that run in between pass the store's argument checks.
pub create_resumable_upload-AllSound :
    (o : Outside UploadTable) (codec : Codec) (cipher : Cipher) (provider : Provider)
    (creation : Creation) (rivals : Rivals) (owner : String) (input : Json) (w : UploadWorld)
    → Proper rivals
    → HasIds (among rivals o)
    → AllSound w.table
    → AllSound
        (create_resumable_upload
          (among rivals o)
          codec
          cipher
          provider
          creation
          owner
          input
          w).1.table
create_resumable_upload-AllSound o codec cipher provider creation rivals owner input w proper ids
      h =
    (Keeps-create_resumable_upload (among rivals o) codec cipher provider creation
        (among-Fair rivals o proper) ids owner input).at
      w h
