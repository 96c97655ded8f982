-- ===== src/FileSystem/Whole/Copy.antt =====
-- `copyEntries` and the invariant.
use ilist.Base.{ℕ, zero, suc, String, Option, none, some, List, [], ◌∷◌}
use ilist.Base.Exec.{Outside, Result, ok, err}
use ilist.Base.Keeps.{Keeps, Fair, Keeps-bind}
use ilist.Json.{Codec}
use ilist.FileSystem.Row.{EntryRow, FileStore}
use ilist.FileSystem.Db.{Action}
use ilist.FileSystem.Whole.{IsWhole, flow, db_rules, entry_rules, Keeps-batch}
use ilist.FileSystem.Whole.Edit.{
  Keeps-require_folder, Keeps-require_mutable, Keeps-ensure_name_available, Keeps-checked_target,
}
use ilist.FileSystem.Whole.Recover.{Keeps-delete_entry_trees}
use ilist.FileSystem.Copy.{
  copy_blob, copy_file, copy_children, or_take_back, copy_folder, copy_native_entry_tree, copy_one,
  copy_entries,
}

module _ (o : Outside FileStore) (codec : Codec) (etag_of : String → Option String)
    (fair : Fair IsWhole o) where
  Keeps-copy_blob :
      (source : EntryRow) (parent_id name : String) (now : ℕ) (new_id key : String)
      → Keeps IsWhole (copy_blob o codec etag_of source parent_id name now new_id key)
  unfolding copy_blob
  Keeps-copy_blob source parent_id name now new_id key =
      search (flow, db_rules, entry_rules) depth 14

  Keeps-copy_file :
      (source : EntryRow) (parent_id name : String) (now : ℕ) (new_id : String)
      (key : Option String)
      → Keeps IsWhole (copy_file o codec etag_of source parent_id name now new_id key)
  unfolding copy_file
  Keeps-copy_file source parent_id name now new_id none = search flow
  Keeps-copy_file source parent_id name now new_id (some key) = search Keeps-copy_blob

  module _ (copy : EntryRow → String → Action String)
      (k : (source : EntryRow) (parent_id : String) → Keeps IsWhole (copy source parent_id)) where
    Keeps-copy_children :
        (new_id : String) (rows : List EntryRow)
        → Keeps IsWhole (copy_children o codec etag_of copy new_id rows)
    unfolding copy_children
    Keeps-copy_children new_id [] = search flow
    Keeps-copy_children new_id (row ∷ rows) =
        Keeps-bind _ _ (k row new_id) (λ _. Keeps-copy_children new_id rows)

    Keeps-or_take_back :
        (new_id : String) (r : Result (Unit {0}))
        → Keeps IsWhole (or_take_back o codec etag_of new_id r)
    unfolding or_take_back
    Keeps-or_take_back new_id (ok _) = search flow
    Keeps-or_take_back new_id (err e) = search (flow, Keeps-delete_entry_trees)

    Keeps-copy_folder :
        (source : EntryRow) (parent_id name : String) (now : ℕ) (new_id : String)
        → Keeps IsWhole (copy_folder o codec etag_of copy source parent_id name now new_id)
    unfolding copy_folder
    Keeps-copy_folder source parent_id name now new_id =
        search (flow, db_rules, entry_rules, Keeps-copy_children, Keeps-or_take_back) depth 12

  Keeps-copy_native_entry_tree :
      (depth : ℕ) (source : EntryRow) (parent_id : String)
      → Keeps IsWhole (copy_native_entry_tree o codec etag_of depth source parent_id)
  unfolding copy_native_entry_tree
  Keeps-copy_native_entry_tree zero source parent_id = search flow
  Keeps-copy_native_entry_tree (suc n) source parent_id =
      let below =
        Keeps-copy_folder (copy_native_entry_tree o codec etag_of n)
          (Keeps-copy_native_entry_tree n) in
      search (flow, Keeps-ensure_name_available, Keeps-copy_file, below) depth 12

  Keeps-copy_one :
      (depth : ℕ) (destination : EntryRow) (id : String)
      → Keeps IsWhole (copy_one o codec etag_of depth destination id)
  unfolding copy_one
  Keeps-copy_one depth destination id =
      search
        (
          flow, Keeps-require_mutable, Keeps-checked_target, Keeps-ensure_name_available,
          Keeps-copy_native_entry_tree,
        )
        depth 14

  pub Keeps-copy_entries :
      (depth : ℕ) (ids : List String) (destination_id : String)
      → Keeps IsWhole (copy_entries o codec etag_of depth ids destination_id)
  unfolding copy_entries
  Keeps-copy_entries depth ids destination_id =
      search (flow, Keeps-require_folder, Keeps-batch, Keeps-copy_one)
