-- ===== src/FileSystem/Copy.antt =====
-- `copyEntries` of worker/file-system.ts. A copy goes down as many levels as its fuel says; the
-- program goes down as far as its stack. R2 keeps a blob's metadata: its ETag is a parameter.
use ilist.Base.{ℕ, zero, suc, String, Option, none, some, List, [], ◌∷◌, text_eq, if◌then◌else◌}
use ilist.Base.Exec.{
  Outside, Result, ok, err, failure, http_error, pure, throw, lift, attempt, ◌>>=◌, ◌>>◌, date_now,
  random_uuid,
}
use ilist.Json.{Codec}
use ilist.FileSystem.Row.{EntryRow, FileStore, file, folder, ready, is_folder}
use ilist.FileSystem.Names.{validate_entry_name, storage_key_for_entry}
use ilist.FileSystem.Store.{insert_entry_under_ready_parent, list_child_rows}
use ilist.FileSystem.Entries.{given_text}
use ilist.FileSystem.Db.{Action, read_entries, write_entries, get_blob, put_blob, delete_blob}
use ilist.FileSystem.Errors.{entry_not_found, known_or_conflict, BatchResult, batch}
use ilist.FileSystem.Edit.{
  require_folder, require_mutable, ensure_name_available, checked_target, or_throw,
}
use ilist.FileSystem.Remove.{delete_entry_trees}

unfoldable pub copied_folder : String → EntryRow → String → String → ℕ → EntryRow
copied_folder id source parent_id name now = record source {
  id = id;
  parent_id = some parent_id;
  name = name;
  kind = folder;
  storage_key = none;
  size = 0;
  content_type = none;
  etag = none;
  status = ready;
  lifecycle_owner = none;
  created_at = now;
  updated_at = now;
}

abbrev or_etag : Option String → Option String → Option String
or_etag none old = old
or_etag (some new) old = some new

unfoldable pub copied_file :
    String → EntryRow → String → String → String → Option String → ℕ → EntryRow
copied_file id source parent_id name storage_key etag now = record source {
  id = id;
  parent_id = some parent_id;
  name = name;
  kind = file;
  storage_key = some storage_key;
  etag = or_etag etag source.etag;
  status = ready;
  lifecycle_owner = none;
  created_at = now;
  updated_at = now;
}

module _ (o : Outside FileStore) (codec : Codec) (etag_of : String → Option String) where
  unfoldable pub copy_blob : EntryRow → String → String → ℕ → String → String → Action String
  unfolding get_blob put_blob delete_blob copied_file storage_key_for_entry write_entries
      insert_entry_under_ready_parent
  copy_blob source parent_id name now new_id source_key = do
    there ← get_blob o source_key
    or_throw entry_not_found there (pure tt)
    owner ← random_uuid o
    let storage_key = storage_key_for_entry new_id (some owner)
    put_blob o storage_key
    written ← write_entries o (
        insert_entry_under_ready_parent
          (copied_file new_id source parent_id name storage_key (etag_of source_key) now))
    if written
        then pure new_id
        else (do _ ← attempt (delete_blob o storage_key); throw entry_not_found)

  unfoldable pub copy_file : EntryRow → String → String → ℕ → String → Option String → Action String
  unfolding copy_blob
  copy_file source parent_id name now new_id none = throw (http_error 500 "STORAGE_KEY_MISSING")
  copy_file source parent_id name now new_id (some key) =
      copy_blob source parent_id name now new_id key

  unfoldable pub copy_children :
      (EntryRow → String → Action String) → String → List EntryRow → Action (Unit {0})
  copy_children copy new_id [] = pure tt
  copy_children copy new_id (child ∷ rest) = do
    _ ← copy child new_id
    copy_children copy new_id rest

  -- a failed copy of a folder takes back what it wrote
  unfoldable pub or_take_back : String → Result (Unit {0}) → Action String
  unfolding delete_entry_trees
  or_take_back new_id (ok _) = pure new_id
  or_take_back new_id (err e) = do
    _ ← attempt (delete_entry_trees o codec 1000 (new_id ∷ []))
    throw e

  unfoldable pub copy_folder :
      (EntryRow → String → Action String) → EntryRow → String → String → ℕ → String → Action String
  unfolding write_entries insert_entry_under_ready_parent copied_folder read_entries list_child_rows
      copy_children or_take_back
  copy_folder copy source parent_id name now new_id = do
    written ←
        write_entries o
          (insert_entry_under_ready_parent (copied_folder new_id source parent_id name now))
    or_throw entry_not_found written (pure tt)
    outcome ← attempt (do
      children ← read_entries o (list_child_rows source.id)
      copy_children copy new_id children)
    or_take_back new_id outcome

  unfoldable pub copy_native_entry_tree : ℕ → EntryRow → String → Action String
  unfolding validate_entry_name ensure_name_available copy_folder copy_file
  copy_native_entry_tree zero source parent_id = throw (failure "RangeError")
  copy_native_entry_tree (suc n) source parent_id = do
    name ← lift (validate_entry_name source.name (text_eq parent_id "root"))
    ensure_name_available o parent_id name none
    now ← date_now o
    new_id ← random_uuid o
    if is_folder source.kind
        then copy_folder (copy_native_entry_tree n) source parent_id name now new_id
        else copy_file source parent_id name now new_id (given_text source.storage_key)

  unfoldable pub copy_one : ℕ → EntryRow → String → Action (Unit {0})
  unfolding require_mutable validate_entry_name checked_target ensure_name_available
      copy_native_entry_tree
  copy_one depth destination id = do
    row ← require_mutable o id
    name ← lift (validate_entry_name row.name (text_eq destination.id "root"))
    checked_target o row destination "INVALID_COPY_TARGET"
    ensure_name_available o destination.id name none
    _ ← copy_native_entry_tree depth row destination.id
    pure tt

  unfoldable pub copy_entries : ℕ → List String → String → Action BatchResult
  unfolding require_folder batch copy_one known_or_conflict
  copy_entries depth ids destination_id = do
    destination ← require_folder o destination_id
    batch (copy_one depth destination) (known_or_conflict "COPY_FAILED") ids
