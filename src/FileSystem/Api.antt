-- ===== src/FileSystem/Api.antt =====
-- What the interface sees of an entry (worker/entries.ts).
use ilist.Base.{ℕ, String, Bool, false, not, Option, none, ◌&&◌, ◌==◌, text_eq}
use ilist.FileSystem.Row.{EntryKind, EntryRow, is_file, is_folder}

pub record EntryCapabilities : Type 0 where
  pub open_folder : Bool
  pub preview : Bool
  pub download : Bool
  pub upload : Bool
  pub multipart_upload : Bool
  pub create_folder : Bool
  pub rename : Bool
  pub move : Bool
  pub copy : Bool
  pub delete : Bool
  pub change_visibility : Bool

pub record Entry : Type 0 where
  pub id : String
  pub parent_id : Option String
  pub name : String
  pub kind : EntryKind
  pub size : ℕ
  pub content_type : Option String
  pub updated_at : ℕ
  pub is_public : Bool
  pub effective_public : Bool
  pub sort_order : ℕ
  pub description : String
  pub mount_path : Option String
  pub capabilities : EntryCapabilities

unfoldable pub capabilities_of : EntryRow → Bool → EntryCapabilities
capabilities_of row admin =
    let changeable = admin && not (text_eq row.id "root") in
    record {
      open_folder = is_folder row.kind;
      preview = is_file row.kind;
      download = is_file row.kind;
      upload = admin && is_folder row.kind;
      multipart_upload = false;
      create_folder = admin && is_folder row.kind;
      rename = changeable;
      move = changeable;
      copy = changeable;
      delete = changeable;
      change_visibility = changeable;
    }

unfoldable pub entry_to_api : EntryRow → Bool → Bool → Entry
unfolding capabilities_of
entry_to_api row admin effective_public = record {
  id = row.id;
  parent_id = row.parent_id;
  name = row.name;
  kind = row.kind;
  size = row.size;
  content_type = row.content_type;
  updated_at = row.updated_at;
  is_public = row.is_public == 1;
  effective_public = effective_public;
  sort_order = row.sort_order;
  description = row.description;
  mount_path = none;
  capabilities = capabilities_of row admin;
}
