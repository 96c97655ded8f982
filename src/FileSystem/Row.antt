-- ===== src/FileSystem/Row.antt =====
-- EntryRow, StorageRecoveryOperationRow and the two tables with the bucket (worker/types.ts).
use ilist.Base.{ℕ, String, Bool, true, false, Option, List}

pub data EntryKind : Type 0 where
  file folder : EntryKind

pub data EntryStatus : Type 0 where
  uploading ready deleting : EntryStatus

pub record EntryRow : Type 0 where
  pub id : String
  pub parent_id : Option String
  pub name : String
  pub kind : EntryKind
  pub storage_key : Option String
  pub size : ℕ
  pub content_type : Option String
  pub etag : Option String
  pub status : EntryStatus
  pub lifecycle_owner : Option String
  pub is_public : ℕ
  pub sort_order : ℕ
  pub description : String
  pub created_at : ℕ
  pub updated_at : ℕ

pub data OperationKind : Type 0 where
  upload_cleanup delete_tree : OperationKind

pub data OperationState : Type 0 where
  held pending running retry completed : OperationState

pub record OperationRow : Type 0 where
  pub id : String
  pub entry_id : String
  pub operation_kind : OperationKind
  pub storage_key : Option String
  pub attempt_owner : String
  pub phase : String
  pub payload : String
  pub state : OperationState
  pub claim_owner : Option String
  pub claim_expires_at : Option ℕ
  pub attempts : ℕ
  pub last_error : Option String
  pub created_at : ℕ
  pub updated_at : ℕ

-- the tables, and the keys of the blobs that the bucket holds
pub record FileStore : Type 0 where
  pub entries : List EntryRow
  pub operations : List OperationRow
  pub blobs : List String

abbrev pub is_file : EntryKind → Bool
is_file file = true
is_file folder = false

abbrev pub is_folder : EntryKind → Bool
is_folder file = false
is_folder folder = true

abbrev pub is_uploading : EntryStatus → Bool
is_uploading uploading = true
is_uploading _ = false

abbrev pub is_ready : EntryStatus → Bool
is_ready ready = true
is_ready _ = false

abbrev pub is_deleting : EntryStatus → Bool
is_deleting deleting = true
is_deleting _ = false

abbrev pub is_held : OperationState → Bool
is_held held = true
is_held _ = false

abbrev pub is_pending : OperationState → Bool
is_pending pending = true
is_pending _ = false

abbrev pub is_running : OperationState → Bool
is_running running = true
is_running _ = false

abbrev pub is_retry : OperationState → Bool
is_retry retry = true
is_retry _ = false

abbrev pub is_completed : OperationState → Bool
is_completed completed = true
is_completed _ = false

abbrev pub is_upload_cleanup : OperationKind → Bool
is_upload_cleanup upload_cleanup = true
is_upload_cleanup delete_tree = false
