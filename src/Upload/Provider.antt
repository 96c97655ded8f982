-- ===== src/Upload/Provider.antt =====
-- The storage providers as the upload service sees them (worker/drivers/types.ts). The drivers'
-- answers are a parameter; the calls made are recorded.
use ilist.Base.{Bool, ℕ, String, Option, List}
use ilist.Base.Exec.{Result, World}
use ilist.Json.{Json}
use ilist.Upload.Row.{UploadSessionRow, CompletedUploadPart, StorageItem}

pub data ProviderCall : Type 0 where
  upload_part : (state : Json) (part_number offset total_size size : ℕ) → ProviderCall
  complete :
      (state : Json) (parts : List CompletedUploadPart) (completed_item : Option StorageItem)
      → ProviderCall
  abort : (state : Json) → ProviderCall
  create :
      (parent_id name : String) (size : ℕ) (content_type : Option String) (part_size : ℕ)
      → ProviderCall

pub record ProviderUploadPartResult : Type 0 where
  pub state : Option Json
  pub part : CompletedUploadPart
  pub completed_item : Option StorageItem

-- The answers from outside, by the number of the event: `getMount` (the driver type of the mount),
-- `createDriver` (whether the driver has a resumable adapter) and the adapter's own.
pub record Provider : Type 0 where
  pub get_mount : ℕ → String → Result (Option String)
  pub create_driver : ℕ → String → Result Bool
  pub upload_part : ℕ → ProviderCall → Result ProviderUploadPartResult
  pub complete : ℕ → ProviderCall → Result StorageItem
  pub abort : ℕ → ProviderCall → Result (Unit {0})

abbrev pub UploadTable : Type 0
UploadTable = List UploadSessionRow

abbrev pub UploadWorld : Type 0
UploadWorld = World UploadTable ProviderCall
