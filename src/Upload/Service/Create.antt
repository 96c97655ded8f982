-- ===== src/Upload/Service/Create.antt =====
-- `createResumableUpload`, `getResumableUpload` and `listResumableUploads` of
-- worker/upload-service.ts. What `resolveExternalEntry`, the provider and `encodeExternalId` answer
-- are parameters.
pub mod Sound
use ilist.Base.{
  ℕ, ◌+◌, String, Bool, true, false, not, Option, none, some, List, [], ◌∷◌, ◌&&◌, ◌||◌, leb, ltb,
  text_eq, is_some, is_none, map, if◌then◌else◌,
}
use ilist.Base.Exec.{
  Outside, Result, ok, err, Failure, http_error, pure, throw, lift, attempt, ◌>>=◌, ◌>>◌, date_now,
  provider_call,
}
use ilist.Json.{Json, null, num, str, obj, Fields, get, max_safe, Codec}
use ilist.Upload.Row.{
  UploadSessionRecord, CompletedUploadPart, CreateUploadSessionRecordInput, Status,
}
use ilist.Upload.Check.{Cipher}
use ilist.Upload.Stored.{as_fields, is_object, safe_number}
use ilist.FileSystem.Names.{validate_entry_name}
use ilist.Upload.Provider.{UploadTable, Provider, ProviderCall}
use ilist.Upload.Store.{create_upload_session_record}
use ilist.Upload.Store.Lists.{list_owned_active_upload_sessions}
use ilist.Upload.Service.Errors.{
  upload_part_invalid, upload_unsupported, upload_provider_invalid, upload_state_persist_failed,
  normalize_provider_error,
}
use ilist.Upload.Service.Parts.{UploadPartView}
use ilist.Upload.Service.Tiling.{uploaded_bytes}
use ilist.Upload.Service.Session.{
  Handler, ask, is_resumable_driver, owned_session, require_current_now,
}
use ilist.Upload.Service.Abort.{cleanup_expired_uploads, default_cleanup_limit}

pub record UploadSessionView : Type 0 where
  pub id : String
  pub part_size : ℕ
  pub size : ℕ
  pub uploaded_parts : List UploadPartView
  pub expires_at : ℕ
  pub status : Status
  pub name : String
  pub parent_item_id : String
  pub mount_id : String
  pub uploaded_bytes : ℕ

-- a body that passed `validateCreateInput`
pub record UploadBody : Type 0 where
  pub parent_id : String
  pub name : String
  pub size : ℕ
  pub content_type : Option String

-- what `resolveExternalEntry` finds: the mount, the item, and what the driver can do
pub record ExternalItem : Type 0 where
  pub mount_id : String
  pub item_id : String
  pub driver_type : String
  pub is_folder : Bool
  pub has_adapter : Bool

-- The answers from outside, by the number of the event.
pub record Creation : Type 0 where
  pub resolve_external_entry : ℕ → String → Result (Option ExternalItem)
  pub create : ℕ → ProviderCall → Result Json
  pub encode_external_id : String → String → String

abbrev pub large_upload_threshold_bytes : ℕ
large_upload_threshold_bytes = 10485760

abbrev pub upload_part_size_bytes : ℕ
upload_part_size_bytes = 10485760

-- the last time that a Date has
abbrev pub max_date : ℕ
max_date = 8640000000000000

abbrev content_type_of : Option Json → Option (Option String)
content_type_of none = some none
content_type_of (some null) = some none
content_type_of (some (str s)) = some (some s)
content_type_of _ = none

abbrev checked_size : Option Json → Option ℕ
checked_size (some (num n)) =
    if leb large_upload_threshold_bytes n && leb n max_safe then some n else none
checked_size _ = none

abbrev checked_text : Option Json → Option String
checked_text (some (str s)) = some s
checked_text _ = none

abbrev body_with : String → ℕ → Option String → Result String → Result UploadBody
body_with parent_id size content_type (ok name) =
    ok (record { parent_id = parent_id; name = name; size = size; content_type = content_type })
body_with parent_id size content_type (err e) = err e

abbrev body_of :
    Option String → Option String → Option ℕ → Option (Option String) → Result UploadBody
body_of (some parent_id) (some name) (some size) (some content_type) =
    body_with parent_id size content_type (validate_entry_name name false)
body_of _ _ _ _ = err upload_part_invalid

abbrev checked_fields : Option Fields → Result UploadBody
checked_fields none = err upload_part_invalid
checked_fields (some fs) =
    if is_some (get "partSize" fs)
    then err upload_part_invalid
    else body_of (checked_text (get "parentId" fs)) (checked_text (get "name" fs))
        (checked_size (get "size" fs)) (content_type_of (get "contentType" fs))

unfoldable pub validate_create_input : Json → Result UploadBody
unfolding as_fields validate_entry_name
validate_create_input input = checked_fields (as_fields input)

abbrev checked_folder : Option ExternalItem → Result ExternalItem
checked_folder none = err upload_unsupported
checked_folder (some item) =
    if item.is_folder && is_resumable_driver item.driver_type && item.has_adapter
    then ok item
    else err upload_unsupported

-- a session that the provider opened
pub record ProviderUploadSession : Type 0 where
  pub state : Json
  pub expires_at : ℕ

abbrev checked_session : ℕ → Option Json → Option ℕ → Option ProviderUploadSession
checked_session now (some state) (some expires_at) =
    if is_object state && ltb now expires_at && leb expires_at max_date
    then some (record { state = state; expires_at = expires_at })
    else none
checked_session now _ _ = none

abbrev session_of : ℕ → Option Fields → Option ProviderUploadSession
session_of now none = none
session_of now (some fs) = checked_session now (get "state" fs) (safe_number (get "expiresAt" fs) 0)

-- `validProviderSession`, with what it lets pass
unfoldable pub valid_provider_session : ℕ → Json → Option ProviderUploadSession
unfolding as_fields safe_number
valid_provider_session now value = session_of now (as_fields value)

abbrev object_state : Option Json → Option Json
object_state none = none
object_state (some state) = if is_object state then some state else none

abbrev state_in : Option Fields → Option Json
state_in none = none
state_in (some fs) = object_state (get "state" fs)

unfoldable pub to_part_view : CompletedUploadPart → UploadPartView
to_part_view part = record { part_number = part.part_number; size = part.size }

module _ (o : Outside UploadTable) (codec : Codec) (cipher : Cipher) (provider : Provider)
    (creation : Creation) where
  -- `toSessionView`, whose `expirationIso` throws on a time that no Date has
  unfoldable pub to_session_view : UploadSessionRecord → Result UploadSessionView
  unfolding to_part_view uploaded_bytes
  to_session_view r =
      if leb r.expires_at max_date
      then ok (record {
        id = r.id;
        part_size = r.part_size;
        size = r.size;
        uploaded_parts = map to_part_view r.parts;
        expires_at = r.expires_at;
        status = r.status;
        name = r.name;
        parent_item_id = creation.encode_external_id r.mount_id r.parent_item_id;
        mount_id = r.mount_id;
        uploaded_bytes = uploaded_bytes r.parts;
      })
      else err upload_provider_invalid

  unfoldable pub cleanup_quietly : Handler (Unit {0})
  unfolding cleanup_expired_uploads
  cleanup_quietly = do
    _ ← attempt (cleanup_expired_uploads o codec cipher provider default_cleanup_limit)
    pure tt

  unfoldable pub best_effort_abort : Json → Handler (Unit {0})
  best_effort_abort state = do
    _ ← attempt (
        provider_call o (ProviderCall.abort state)
          (λ n. provider.abort n (ProviderCall.abort state)))
    pure tt

  unfoldable pub abort_if_object : Option Json → Handler (Unit {0})
  unfolding best_effort_abort
  abort_if_object none = pure tt
  abort_if_object (some state) = best_effort_abort state

  unfoldable pub new_session :
      ExternalItem → UploadBody → ProviderUploadSession → CreateUploadSessionRecordInput
  new_session item body session = record {
    mount_id = item.mount_id;
    parent_item_id = item.item_id;
    name = body.name;
    size = body.size;
    content_type = body.content_type;
    part_size = upload_part_size_bytes;
    provider_state = session.state;
    expires_at = session.expires_at;
  }

  -- the provider's session is given back if it cannot be stored
  unfoldable pub or_give_back : Json → Result UploadSessionView → Handler UploadSessionView
  unfolding best_effort_abort
  or_give_back state (ok view) = pure view
  or_give_back state (err e) = do best_effort_abort state; throw upload_state_persist_failed

  unfoldable pub store_session :
      String → ExternalItem → UploadBody → ProviderUploadSession → Handler UploadSessionView
  unfolding create_upload_session_record new_session to_session_view or_give_back
  store_session owner item body session = do
    outcome ← attempt (do
      r ← create_upload_session_record o codec cipher owner (new_session item body session)
      lift (to_session_view r))
    or_give_back session.state outcome

  unfoldable pub checked_provider_session :
      String
      → ExternalItem
      → UploadBody
      → Json
      → Option ProviderUploadSession
      → Handler UploadSessionView
  unfolding as_fields abort_if_object store_session
  checked_provider_session owner item body value none = do
    abort_if_object (state_in (as_fields value))
    throw upload_provider_invalid
  checked_provider_session owner item body value (some session) =
      store_session owner item body session

  unfoldable pub provider_created :
      String → ExternalItem → UploadBody → Result Json → Handler UploadSessionView
  unfolding valid_provider_session checked_provider_session normalize_provider_error
  provider_created owner item body (err e) = throw (normalize_provider_error e)
  provider_created owner item body (ok value) = do
    now ← date_now o
    checked_provider_session owner item body value (valid_provider_session now value)

  abbrev create_call : ExternalItem → UploadBody → ProviderCall
  create_call item body =
      ProviderCall.create item.item_id body.name body.size body.content_type upload_part_size_bytes

  unfoldable pub create_resumable_upload : String → Json → Handler UploadSessionView
  unfolding cleanup_quietly validate_create_input ask is_resumable_driver provider_created
  create_resumable_upload owner input = do
    cleanup_quietly
    body ← lift (validate_create_input input)
    found ← ask (λ n. creation.resolve_external_entry n body.parent_id)
    item ← lift (checked_folder found)
    answer ←
        attempt
          (provider_call o (create_call item body) (λ n. creation.create n (create_call item body)))
    provider_created owner item body answer

  unfoldable pub get_resumable_upload : String → String → Handler UploadSessionView
  unfolding owned_session require_current_now to_session_view
  get_resumable_upload owner id = do
    r ← owned_session o codec cipher provider owner id
    require_current_now o codec cipher provider r
    lift (to_session_view r)

  abbrev all_views : List UploadSessionRecord → Result (List UploadSessionView)
  all_views [] = ok []
  all_views (r ∷ rs) = both_views (to_session_view r) (all_views rs)
    where
      both_views :
          Result UploadSessionView
          → Result (List UploadSessionView)
          → Result (List UploadSessionView)
      both_views (ok view) (ok views) = ok (view ∷ views)
      both_views (err e) views = err e
      both_views (ok view) (err e) = err e

  unfoldable pub list_resumable_uploads : String → Handler (List UploadSessionView)
  unfolding cleanup_quietly list_owned_active_upload_sessions to_session_view
  list_resumable_uploads owner = do
    cleanup_quietly
    now ← date_now o
    records ← list_owned_active_upload_sessions o codec cipher owner now 50
    lift (all_views records)
