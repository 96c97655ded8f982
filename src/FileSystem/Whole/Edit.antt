-- ===== src/FileSystem/Whole/Edit.antt =====
-- `createFolder`, `patchEntry`, `moveEntries`, `setEntriesVisibility` and the invariant.
use ilist.Base.{String, Bool, Option, none, some, List}
use ilist.Base.Exec.{Outside}
use ilist.Base.Keeps.{Keeps, Fair}
use ilist.FileSystem.Row.{EntryRow, FileStore}
use ilist.FileSystem.Entries.{EntryPatch}
use ilist.FileSystem.Whole.{IsWhole, flow, db_rules, entry_rules, Keeps-batch}
use ilist.FileSystem.Edit.{
  require_folder, require_mutable, ensure_name_available, shown, insert_or_conflict, create_folder,
  available_in, checked_name, or_missing, patch_entry, checked_target, move_one, move_entries,
  show_one, set_entries_visibility,
}

module _ (o : Outside FileStore) (fair : Fair IsWhole o) where
  pub Keeps-require_folder : (id : String) → Keeps IsWhole (require_folder o id)
  unfolding require_folder
  Keeps-require_folder id = search (flow, db_rules)

  pub Keeps-require_mutable : (id : String) → Keeps IsWhole (require_mutable o id)
  unfolding require_mutable
  Keeps-require_mutable id = search (flow, db_rules)

  pub Keeps-ensure_name_available :
      (parent_id name : String) (except_id : Option String)
      → Keeps IsWhole (ensure_name_available o parent_id name except_id)
  unfolding ensure_name_available
  Keeps-ensure_name_available parent_id name except_id = search (flow, db_rules) depth 7

  pub Keeps-shown : (row : EntryRow) → Keeps IsWhole (shown o row)
  unfolding shown
  Keeps-shown row = search (flow, db_rules)

  Keeps-insert_or_conflict : (row : EntryRow) → Keeps IsWhole (insert_or_conflict o row)
  unfolding insert_or_conflict
  Keeps-insert_or_conflict row = search (flow, db_rules, entry_rules) depth 9

  pub Keeps-create_folder :
      (parent_id name : String) → Keeps IsWhole (create_folder o parent_id name)
  unfolding create_folder
  Keeps-create_folder parent_id name =
      search
        (
          flow, Keeps-require_folder, Keeps-ensure_name_available, Keeps-insert_or_conflict,
          Keeps-shown,
        )
        depth 12

  Keeps-available_in :
      (parent_id : Option String) (name except_id : String)
      → Keeps IsWhole (available_in o parent_id name except_id)
  unfolding available_in
  Keeps-available_in none name except_id = search flow
  Keeps-available_in (some parent_id) name except_id = search Keeps-ensure_name_available

  Keeps-checked_name :
      (row : EntryRow) (name : Option String) → Keeps IsWhole (checked_name o row name)
  unfolding checked_name
  Keeps-checked_name row none = search flow
  Keeps-checked_name row (some name) = search (flow, Keeps-available_in)

  Keeps-or_missing : (row : Option EntryRow) → Keeps IsWhole (or_missing o row)
  Keeps-or_missing none = search flow
  Keeps-or_missing (some row) = search flow

  pub Keeps-patch_entry :
      (id : String) (patch : EntryPatch) → Keeps IsWhole (patch_entry o id patch)
  unfolding patch_entry
  Keeps-patch_entry id patch =
      search
        (
          flow, db_rules, entry_rules, Keeps-require_mutable, Keeps-checked_name, Keeps-or_missing,
          Keeps-shown,
        )
        depth 14

  pub Keeps-checked_target :
      (row destination : EntryRow) (code : String)
      → Keeps IsWhole (checked_target o row destination code)
  unfolding checked_target
  Keeps-checked_target row destination code = search (flow, db_rules) depth 8

  Keeps-move_one :
      (destination : EntryRow) (id : String) → Keeps IsWhole (move_one o destination id)
  unfolding move_one
  Keeps-move_one destination id =
      search
        (
          flow, db_rules, entry_rules, Keeps-require_mutable, Keeps-checked_target,
          Keeps-ensure_name_available,
        )
        depth 14

  pub Keeps-move_entries :
      (ids : List String) (destination_id : String)
      → Keeps IsWhole (move_entries o ids destination_id)
  unfolding move_entries
  Keeps-move_entries ids destination_id =
      search (flow, Keeps-require_folder, Keeps-batch, Keeps-move_one)

  Keeps-show_one : (is_public : Bool) (id : String) → Keeps IsWhole (show_one o is_public id)
  unfolding show_one
  Keeps-show_one is_public id = search (flow, db_rules, entry_rules, Keeps-require_mutable) depth 10

  pub Keeps-set_entries_visibility :
      (ids : List String) (is_public : Bool)
      → Keeps IsWhole (set_entries_visibility o ids is_public)
  unfolding set_entries_visibility
  Keeps-set_entries_visibility ids is_public = search (Keeps-batch, Keeps-show_one)
