-- ===== src/FileSystem/Whole/Requests.antt =====
-- The requests of worker/file-system.ts as one data type, and what a run of them leaves.
use ilist.Base.{ℕ, String, Bool, Option, List, [], ◌∷◌}
use ilist.Base.Exec.{Outside, World, pure, attempt, ◌>>=◌}
use ilist.Base.Keeps.{Keeps, Fair, Keeps-bind, Keeps-pure, Keeps-attempt}
use ilist.Json.{Codec}
use ilist.FileSystem.Row.{FileStore}
use ilist.FileSystem.Entries.{Metadata, EntryPatch}
use ilist.FileSystem.Db.{Action}
use ilist.FileSystem.Edit.{create_folder, patch_entry, move_entries, set_entries_visibility}
use ilist.FileSystem.Recover.Tree.{reconcile_storage_recovery}
use ilist.FileSystem.Remove.{delete_entry_trees}
use ilist.FileSystem.Copy.{copy_entries}
use ilist.FileSystem.Receive.{FileUpload, upload_file}
use ilist.FileSystem.Rivals.{Write, among, among-Fair}
use ilist.FileSystem.Whole.{IsWhole}
use ilist.FileSystem.Whole.Edit.{
  Keeps-create_folder, Keeps-patch_entry, Keeps-move_entries, Keeps-set_entries_visibility,
}
use ilist.FileSystem.Whole.Recover.{Keeps-reconcile_storage_recovery, Keeps-delete_entry_trees}
use ilist.FileSystem.Whole.Copy.{Keeps-copy_entries}
use ilist.FileSystem.Whole.Receive.{Keeps-upload_file}

pub data Request : Type 0 where
  create : String → String → Request
  patch : String → EntryPatch → Request
  move : List String → String → Request
  -- with the levels that the copy may go down
  copy : ℕ → List String → String → Request
  show_all : List String → Bool → Request
  upload : FileUpload → Request
  remove : ℕ → List String → Request
  -- by a worker, with the limits of blobs and operations
  reconcile : String → ℕ → ℕ → Request

-- What the rest of the Worker and R2 say: JSON, the ETag of a blob, and its metadata once stored.
pub record Platform : Type 0 where
  pub codec : Codec
  pub etag_of : String → Option String
  pub stored : String → Metadata

module _ (o : Outside FileStore) (platform : Platform) where
  abbrev ignored : {A : Type 0} → Action A → Action (Unit {0})
  ignored m = do _ ← attempt m; pure tt

  unfoldable pub handle : Request → Action (Unit {0})
  handle (create parent_id name) = ignored (create_folder o parent_id name)
  handle (patch id fields) = ignored (patch_entry o id fields)
  handle (move ids destination_id) = ignored (move_entries o ids destination_id)
  handle (copy depth ids destination_id) =
      ignored (copy_entries o platform.codec platform.etag_of depth ids destination_id)
  handle (show_all ids is_public) = ignored (set_entries_visibility o ids is_public)
  handle (upload input) = ignored (upload_file o platform.codec platform.stored input)
  handle (remove max_entries ids) = ignored (delete_entry_trees o platform.codec max_entries ids)
  handle (reconcile worker_owner max_blob_deletes limit) =
      ignored (reconcile_storage_recovery o platform.codec worker_owner max_blob_deletes limit)

  unfoldable pub handle_all : List Request → Action (Unit {0})
  unfolding handle
  handle_all [] = pure tt
  handle_all (request ∷ requests) = handle request >>= λ _. handle_all requests

  module _ (fair : Fair IsWhole o) where
    Keeps-ignored : {A : Type 0} (m : Action A) → Keeps IsWhole m → Keeps IsWhole (ignored m)
    Keeps-ignored m k = Keeps-bind _ _ (Keeps-attempt m k) (λ _. Keeps-pure tt)

    Keeps-handle : (request : Request) → Keeps IsWhole (handle request)
    unfolding handle
    Keeps-handle (create parent_id name) = search (Keeps-ignored, Keeps-create_folder)
    Keeps-handle (patch id fields) = search (Keeps-ignored, Keeps-patch_entry)
    Keeps-handle (move ids destination_id) = search (Keeps-ignored, Keeps-move_entries)
    Keeps-handle (copy depth ids destination_id) = search (Keeps-ignored, Keeps-copy_entries)
    Keeps-handle (show_all ids is_public) = search (Keeps-ignored, Keeps-set_entries_visibility)
    Keeps-handle (upload input) = search (Keeps-ignored, Keeps-upload_file)
    Keeps-handle (remove max_entries ids) = search (Keeps-ignored, Keeps-delete_entry_trees)
    Keeps-handle (reconcile worker_owner max_blob_deletes limit) =
        search (Keeps-ignored, Keeps-reconcile_storage_recovery)

    Keeps-handle_all : (requests : List Request) → Keeps IsWhole (handle_all requests)
    unfolding handle_all
    Keeps-handle_all [] = Keeps-pure tt
    Keeps-handle_all (request ∷ requests) =
        Keeps-bind _ _ (Keeps-handle request) (λ _. Keeps-handle_all requests)

-- The two tables stay whole under any run of requests, whatever writes of other requests come
-- between their steps and whichever steps fail: the ids of the entries stay distinct, every parent
-- is a row, every chain of parents ends, the ids of the operations stay distinct, and no entry
-- gets two operations of a kind that are not completed.
pub handle_all-IsWhole :
    (o : Outside FileStore) (platform : Platform) (schedule : ℕ → List Write)
    (requests : List Request) (w : World FileStore (Unit {0}))
    → IsWhole w.table
    → IsWhole (handle_all (among schedule o) platform requests w).1.table
handle_all-IsWhole o platform schedule requests w h =
    (Keeps-handle_all (among schedule o) platform (among-Fair schedule o) requests).at w h
