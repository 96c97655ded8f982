-- ===== src/FileSystem/Entries.antt =====
-- The WHERE and SET clauses of worker/db.ts on the rows of entries.
pub mod Run
use ilist.Base.{
  ℕ, String, Bool, true, false, Option, none, some, ◌&&◌, ◌||◌, ◌==◌, ltb, is_text, text_eq,
  if◌then◌else◌, text_le,
}
use ilist.FileSystem.Row.{
  EntryKind, EntryStatus, EntryRow, uploading, ready, deleting, is_file, is_folder, is_uploading,
  is_ready, is_deleting,
}

-- a text that JavaScript takes for true
abbrev pub given_text : Option String → Option String
given_text none = none
given_text (some s) = if text_eq s "" then none else some s

abbrev pub is_entry : String → EntryRow → Bool
is_entry id row = text_eq row.id id

abbrev pub is_child : String → EntryRow → Bool
is_child parent_id row = is_text row.parent_id parent_id

-- the EXISTS clause of an insertion or a move
abbrev pub is_ready_folder : String → EntryRow → Bool
is_ready_folder id row = is_entry id row && (is_folder row.kind && is_ready row.status)

-- `status = … AND lifecycle_owner = ?`
unfoldable pub is_uploading_by : String → EntryRow → Bool
is_uploading_by owner row = is_uploading row.status && is_text row.lifecycle_owner owner

unfoldable pub is_deleting_by : String → EntryRow → Bool
is_deleting_by owner row = is_deleting row.status && is_text row.lifecycle_owner owner

-- what the bucket says of a stored blob
pub record Metadata : Type 0 where
  pub size : ℕ
  pub content_type : Option String
  pub etag : Option String

unfoldable pub set_finalized : Metadata → ℕ → EntryRow → EntryRow
set_finalized metadata now row = record row {
  size = metadata.size;
  content_type = metadata.content_type;
  etag = metadata.etag;
  status = ready;
  lifecycle_owner = none;
  updated_at = now;
}

-- the fields of `updateReadyEntryFields` and `patchEntry`, where `none` is a field left out
pub record EntryPatch : Type 0 where
  pub name : Option String
  pub description : Option String
  pub sort_order : Option ℕ
  pub is_public : Option Bool

abbrev pub or_old : {A : Type 0} → Option A → A → A
or_old none old = old
or_old (some new) old = new

abbrev pub public_number : Option Bool → ℕ → ℕ
public_number none old = old
public_number (some is_public) old = if is_public then 1 else 0

unfoldable pub set_fields : EntryPatch → ℕ → EntryRow → EntryRow
set_fields patch now row = record row {
  name = or_old patch.name row.name;
  description = or_old patch.description row.description;
  sort_order = or_old patch.sort_order row.sort_order;
  is_public = public_number patch.is_public row.is_public;
  updated_at = now;
}

unfoldable pub set_parent : String → ℕ → EntryRow → EntryRow
set_parent destination_id now row = record row { parent_id = some destination_id; updated_at = now }

unfoldable pub set_deleting : String → ℕ → EntryRow → EntryRow
set_deleting owner now row = record row {
  status = deleting;
  lifecycle_owner = some owner;
  updated_at = now;
}

-- `ORDER BY kind DESC, sort_order ASC, name ASC`: folders first
unfoldable pub child_order : EntryRow → EntryRow → Bool
child_order a b =
    if is_folder a.kind && is_file b.kind
    then true
    else (if is_file a.kind && is_folder b.kind
        then false
        else (if a.sort_order == b.sort_order
            then text_le a.name b.name
            else ltb a.sort_order b.sort_order))
