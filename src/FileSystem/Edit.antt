-- ===== src/FileSystem/Edit.antt =====
-- The requests of worker/file-system.ts that change entries in place: folders, fields, moves and
-- visibility.
use ilist.Base.{
  ℕ, String, Bool, true, false, not, Option, none, some, List, ◌&&◌, text_eq, is_text, find_first,
  exists_in, if◌then◌else◌,
}
use ilist.Base.Exec.{
  Outside, Result, ok, err, Failure, failure, http_error, pure, throw, lift, attempt, ◌>>=◌, ◌>>◌,
  date_now, random_uuid,
}
use ilist.FileSystem.Row.{EntryRow, FileStore, folder, ready, is_folder, is_ready}
use ilist.FileSystem.Entries.{is_entry, is_child, EntryPatch}
use ilist.FileSystem.Names.{validate_entry_name}
use ilist.FileSystem.Api.{Entry, entry_to_api}
use ilist.FileSystem.Store.{
  Entries, insert_entry_under_ready_parent, update_ready_entry_fields, move_ready_entry,
}
use ilist.FileSystem.Ancestors.{list_ancestor_rows, is_effectively_public}
use ilist.FileSystem.Db.{Action, read_entries, write_entries, stamp_entries}
use ilist.FileSystem.Errors.{
  or_name_conflict, name_conflict, entry_not_found, mutation_conflict, known_code,
  known_or_conflict, BatchResult, batch,
}

unfoldable pub get_entry_by_id : String → Entries → Option EntryRow
get_entry_by_id id t = find_first (is_entry id) t

unfoldable pub get_child_by_name : String → String → Entries → Option EntryRow
get_child_by_name parent_id name t = find_first (λ r. is_child parent_id r && text_eq r.name name) t

abbrev pub or_throw : {A : Type 0} → Failure → Bool → Action A → Action A
or_throw e true next = next
or_throw e false next = throw e

-- `catch (error) { throw entryNameConflict(error, name) ?? error; }`
abbrev pub or_conflict : {A : Type 0} → Result A → Action A
or_conflict (ok a) = pure a
or_conflict (err e) = throw (or_name_conflict e)

abbrev checked_folder : Option EntryRow → Result EntryRow
checked_folder none = err entry_not_found
checked_folder (some row) =
    if is_folder row.kind && is_ready row.status then ok row else err entry_not_found

abbrev checked_mutable : Option EntryRow → Result EntryRow
checked_mutable none = err entry_not_found
checked_mutable (some row) =
    if not (is_ready row.status)
    then err mutation_conflict
    else if text_eq row.id "root"
    then err (http_error 400 "ROOT_ENTRY_IMMUTABLE")
    else ok row

abbrev is_free : Option EntryRow → Option String → Bool
is_free none except_id = true
is_free (some existing) except_id = is_text except_id existing.id

unfoldable pub new_folder : String → EntryRow → String → ℕ → EntryRow
new_folder id parent name now = record {
  id = id;
  parent_id = some parent.id;
  name = name;
  kind = folder;
  storage_key = none;
  size = 0;
  content_type = none;
  etag = none;
  status = ready;
  lifecycle_owner = none;
  is_public = parent.is_public;
  sort_order = 0;
  description = "";
  created_at = now;
  updated_at = now;
}

module _ (o : Outside FileStore) where
  unfoldable pub require_folder : String → Action EntryRow
  unfolding read_entries get_entry_by_id
  require_folder id = do row ← read_entries o (get_entry_by_id id); lift (checked_folder row)

  unfoldable pub require_mutable : String → Action EntryRow
  unfolding read_entries get_entry_by_id
  require_mutable id = do row ← read_entries o (get_entry_by_id id); lift (checked_mutable row)

  unfoldable pub ensure_name_available : String → String → Option String → Action (Unit {0})
  unfolding read_entries get_child_by_name
  ensure_name_available parent_id name except_id = do
    existing ← read_entries o (get_child_by_name parent_id name)
    or_throw name_conflict (is_free existing except_id) (pure tt)

  -- `entryToApi(row, true, await isEffectivelyPublic(db, row.id))`
  unfoldable pub shown : EntryRow → Action Entry
  unfolding read_entries is_effectively_public entry_to_api
  shown row = do
    effective ← read_entries o (is_effectively_public row.id)
    pure (entry_to_api row true effective)

  -- an insertion in a `try` that knows conflicts of names
  unfoldable pub insert_or_conflict : EntryRow → Action (Unit {0})
  unfolding write_entries insert_entry_under_ready_parent or_name_conflict
  insert_or_conflict row = do
    outcome ← attempt (do
      written ← write_entries o (insert_entry_under_ready_parent row)
      or_throw entry_not_found written (pure tt))
    or_conflict outcome

  unfoldable pub create_folder : String → String → Action Entry
  unfolding require_folder validate_entry_name ensure_name_available new_folder insert_or_conflict
      shown
  create_folder parent_id requested = do
    parent ← require_folder parent_id
    name ← lift (validate_entry_name requested (text_eq parent.id "root"))
    ensure_name_available parent.id name none
    now ← date_now o
    id ← random_uuid o
    insert_or_conflict (new_folder id parent name now)
    shown (new_folder id parent name now)

  unfoldable pub available_in : Option String → String → String → Action (Unit {0})
  unfolding ensure_name_available
  available_in none name except_id = pure tt
  available_in (some parent_id) name except_id =
      ensure_name_available parent_id name (some except_id)

  -- the new name, if there is one, and that it is available
  unfoldable pub checked_name : EntryRow → Option String → Action (Unit {0})
  unfolding validate_entry_name available_in
  checked_name row none = pure tt
  checked_name row (some requested) = do
    name ← lift (validate_entry_name requested (is_text row.parent_id "root"))
    available_in row.parent_id name row.id

  abbrev pub or_missing : Option EntryRow → Action EntryRow
  or_missing none = throw (failure "TypeError")
  or_missing (some row) = pure row

  unfoldable pub patch_entry : String → EntryPatch → Action Entry
  unfolding require_mutable checked_name stamp_entries update_ready_entry_fields or_name_conflict
      read_entries get_entry_by_id shown
  patch_entry id patch = do
    row ← require_mutable id
    checked_name row patch.name
    outcome ← attempt (do
      changed ← stamp_entries o (update_ready_entry_fields id patch)
      or_throw mutation_conflict changed (pure tt))
    or_conflict outcome
    found ← read_entries o (get_entry_by_id id)
    updated ← or_missing found
    shown updated

  -- a folder may not go into itself or beneath itself
  unfoldable pub checked_target : EntryRow → EntryRow → String → Action (Unit {0})
  unfolding read_entries list_ancestor_rows
  checked_target row destination code =
      if is_folder row.kind
      then (do
        ancestors ← read_entries o (list_ancestor_rows destination.id)
        or_throw (http_error 400 code) (not (exists_in (is_entry row.id) ancestors)) (pure tt))
      else pure tt

  unfoldable pub move_one : EntryRow → String → Action (Unit {0})
  unfolding require_mutable validate_entry_name checked_target ensure_name_available stamp_entries
      move_ready_entry
  move_one destination id = do
    row ← require_mutable id
    name ← lift (validate_entry_name row.name (text_eq destination.id "root"))
    checked_target row destination "INVALID_MOVE_TARGET"
    ensure_name_available destination.id name (some row.id)
    changed ← stamp_entries o (move_ready_entry row.id destination.id)
    or_throw mutation_conflict changed (pure tt)

  unfoldable pub move_entries : List String → String → Action BatchResult
  unfolding require_folder batch move_one known_or_conflict
  move_entries ids destination_id = do
    destination ← require_folder destination_id
    batch (move_one destination) (known_or_conflict "MOVE_FAILED") ids

  unfoldable pub show_one : Bool → String → Action (Unit {0})
  unfolding require_mutable stamp_entries update_ready_entry_fields
  show_one is_public id = do
    row ← require_mutable id
    changed ← stamp_entries o (
        update_ready_entry_fields id (record {
          name = none;
          description = none;
          sort_order = none;
          is_public = some is_public;
        }))
    or_throw mutation_conflict changed (pure tt)

  unfoldable pub set_entries_visibility : List String → Bool → Action BatchResult
  unfolding batch show_one
  set_entries_visibility ids is_public =
      batch (show_one is_public) (known_code "VISIBILITY_UPDATE_FAILED") ids
