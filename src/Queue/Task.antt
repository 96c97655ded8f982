-- ===== src/Queue/Task.antt =====
-- Tasks and actions of ui/features/uploads/upload-reducer.ts.
use ilist.Base.{ℕ, String, Bool, Option, List}

pub data UploadStatus : Type 0 where
  queued creating uploading paused completing completed failed cancelled : UploadStatus

pub data Transport : Type 0 where
  single multipart : Transport

-- what the reducer reads of a `File`
pub record LocalFile : Type 0 where
  pub name : String
  pub size : ℕ
  pub last_modified : ℕ

-- `needs_rebind` and `restart_session` are false where the source leaves them undefined
pub record UploadTask : Type 0 where
  pub id : String
  pub parent_id : String
  pub the_file : LocalFile
  pub status : UploadStatus
  pub transport : Transport
  pub uploaded_bytes : ℕ
  pub progress : ℕ
  pub session_id : Option String
  pub part_number : Option ℕ
  pub part_count : Option ℕ
  pub uploaded_parts : Option (List ℕ)
  pub needs_rebind : Bool
  pub file_name : Option String
  pub expected_size : Option ℕ
  pub expected_last_modified : Option ℕ
  pub restart_session : Bool
  pub error : Option String

-- the actions on one task, without its id
pub data TaskAction : Type 0 where
  started : Bool → TaskAction
  -- the session, its parts, their number, and the bytes so far
  session : String → List ℕ → ℕ → ℕ → TaskAction
  part_confirmed : ℕ → ℕ → TaskAction
  -- the bytes so far, all bytes, the part and the number of parts
  progress : ℕ → ℕ → Option ℕ → Option ℕ → TaskAction
  pause resume finish done cancel retry release : TaskAction
  fail : String → TaskAction
  rebind : LocalFile → TaskAction

pub data UploadAction : Type 0 where
  enqueue : List UploadTask → UploadAction
  remove : String → UploadAction
  clear_completed : UploadAction
  on_task : String → TaskAction → UploadAction
