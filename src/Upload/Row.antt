-- ===== src/Upload/Row.antt =====
-- The rows of the table upload_sessions and the records that the program reads from them
-- (worker/types.ts and worker/upload-session-store.ts). Times are milliseconds; the ISO texts of
-- `created_at` and `updated_at` stand for the times that they print.
use ilist.Base.{ℕ, String, Bool, true, false, Option, none, some, List}
use ilist.Json.{Json}

pub data Status : Type 0 where
  active completing completed aborted : Status

pub data TerminalOperation : Type 0 where
  complete abort : TerminalOperation

pub record UploadSessionRow : Type 0 where
  pub id : String
  pub owner_session_id : String
  pub mount_id : String
  pub parent_item_id : String
  pub name : String
  pub size : ℕ
  pub content_type : Option String
  pub part_size : ℕ
  pub provider_state_ciphertext : String
  pub parts_json : String
  pub completed_item_json : Option String
  pub status : Status
  pub active_part_number : Option ℕ
  pub active_part_expires_at : Option ℕ
  pub terminal_operation : Option TerminalOperation
  pub terminal_owner : Option String
  pub terminal_expires_at : Option ℕ
  pub cleanup_attempted_at : ℕ
  pub expires_at : ℕ
  pub created_at : ℕ
  pub updated_at : ℕ

pub record CompletedUploadPart : Type 0 where
  pub part_number : ℕ
  pub size : ℕ
  pub etag : Option String

pub data ItemKind : Type 0 where
  file folder : ItemKind

pub record StorageItem : Type 0 where
  pub id : String
  pub parent_id : Option String
  pub name : String
  pub kind : ItemKind
  pub size : Option ℕ
  pub content_type : Option String
  pub modified_at : Option String
  pub etag : Option String

pub record UploadSessionRecord : Type 0 where
  pub id : String
  pub owner_session_id : String
  pub mount_id : String
  pub parent_item_id : String
  pub name : String
  pub size : ℕ
  pub content_type : Option String
  pub part_size : ℕ
  pub provider_state : Json
  pub parts : List CompletedUploadPart
  pub completed_item : Option StorageItem
  pub status : Status
  pub active_part_number : Option ℕ
  pub active_part_expires_at : Option ℕ
  pub terminal_operation : Option TerminalOperation
  pub terminal_owner : Option String
  pub terminal_expires_at : Option ℕ
  pub cleanup_attempted_at : ℕ
  pub expires_at : ℕ
  pub created_at : ℕ
  pub updated_at : ℕ

pub record CreateUploadSessionRecordInput : Type 0 where
  pub mount_id : String
  pub parent_item_id : String
  pub name : String
  pub size : ℕ
  pub content_type : Option String
  pub part_size : ℕ
  pub provider_state : Json
  pub expires_at : ℕ

pub record RecordUploadPartInput : Type 0 where
  pub claim_expires_at : ℕ
  pub part : CompletedUploadPart
  pub provider_state : Json
  pub completed_item : Option StorageItem

abbrev pub is_active : Status → Bool
is_active active = true
is_active _ = false

abbrev pub is_completing : Status → Bool
is_completing completing = true
is_completing _ = false

abbrev pub is_completed : Status → Bool
is_completed completed = true
is_completed _ = false

abbrev pub is_aborted : Status → Bool
is_aborted aborted = true
is_aborted _ = false

-- `status IN ('active', 'completing')`
abbrev pub is_open : Status → Bool
is_open active = true
is_open completing = true
is_open _ = false

abbrev pub is_complete : TerminalOperation → Bool
is_complete complete = true
is_complete abort = false

abbrev pub is_abort : TerminalOperation → Bool
is_abort complete = false
is_abort abort = true

-- `terminal_operation = ?`, false on NULL
abbrev pub is_operation : Option TerminalOperation → TerminalOperation → Bool
is_operation none op = false
is_operation (some complete) op = is_complete op
is_operation (some abort) op = is_abort op
