-- ===== src/FileSystem/Listing.antt =====
-- `resolveEntryPath`, `breadcrumbsFor` and `listDirectory` of worker/entries.ts, over the segments
-- of a path. The browser's trimming and lower-casing of names and the encoding of paths are
-- parameters.
pub mod Visible
use Prim.Native.String.{String}
use ilist.Base.{
  ℕ, Bool, true, false, not, Option, none, some, List, [], ◌∷◌, ◌++◌, ◌&&◌, ◌||◌, ◌==◌, text_eq,
  keep, map, if◌then◌else◌,
}
use ilist.Base.Exec.{
  Exec, Outside, Result, ok, err, Failure, http_error, pure, throw, lift, ◌>>=◌, ◌>>◌,
}
use ilist.FileSystem.Row.{EntryRow, FileStore, is_folder, is_ready}
use ilist.FileSystem.Api.{Entry, entry_to_api}
use ilist.FileSystem.Names.{codes}
use ilist.FileSystem.Store.{list_child_rows}
use ilist.FileSystem.Ancestors.{list_ancestor_rows, is_effectively_public}
use ilist.FileSystem.Db.{Action, read_entries}
use ilist.FileSystem.Errors.{entry_not_found, includes_codes}
use ilist.FileSystem.Edit.{get_entry_by_id, get_child_by_name, or_throw}

pub record Breadcrumb : Type 0 where
  pub id : String
  pub name : String
  pub path : String

pub record DirectoryResponse : Type 0 where
  pub current : Entry
  pub breadcrumbs : List Breadcrumb
  pub items : List Entry

-- `String.prototype.trim`, `toLocaleLowerCase` and `encodeVirtualPath`
pub record Texts : Type 0 where
  pub trim : String → String
  pub to_lower : String → String
  pub encode_virtual_path : List String → String

-- what a visitor, or the administrator, may go through
unfoldable pub may_pass : Bool → EntryRow → Bool
may_pass admin row = is_ready row.status && (admin || row.is_public == 1)

abbrev passed : Bool → Option EntryRow → Result EntryRow
passed admin none = err entry_not_found
passed admin (some row) = if may_pass admin row then ok row else err entry_not_found

abbrev root_or_missing : Option EntryRow → Result EntryRow
root_or_missing none = err (http_error 500 "ROOT_ENTRY_MISSING")
root_or_missing (some row) = ok row

unfoldable pub matches_name_filter : Texts → String → Option String → Bool
matches_name_filter texts name none = true
matches_name_filter texts name (some query) =
    let needle = texts.to_lower (texts.trim query) in
    text_eq needle "" || includes_codes (codes (texts.to_lower name)) (codes needle)

abbrev last_first : List EntryRow → List EntryRow
last_first [] = []
last_first (row ∷ rows) = last_first rows ++ (row ∷ [])

-- the crumbs below these segments
unfoldable pub crumbs : Texts → List String → List EntryRow → List Breadcrumb
crumbs texts segments [] = []
crumbs texts segments (row ∷ rows) =
    let root = text_eq row.id "root" in
    let here = if root then segments else segments ++ (row.name ∷ []) in
    record {
      id = row.id;
      name = if root then "iList" else row.name;
      path = texts.encode_virtual_path here;
    }
    ∷ crumbs texts here rows

module _ (o : Outside FileStore) (texts : Texts) where
  -- the loop over the segments
  unfoldable pub walk_path : Bool → List String → EntryRow → Action EntryRow
  unfolding read_entries get_child_by_name may_pass
  walk_path admin [] current = pure current
  walk_path admin (segment ∷ segments) current = do
    found ← read_entries o (get_child_by_name current.id segment)
    next ← lift (passed admin found)
    walk_path admin segments next

  unfoldable pub visible_to : Bool → EntryRow → Action EntryRow
  unfolding read_entries is_effectively_public
  visible_to true current = pure current
  visible_to false current = do
    effective ← read_entries o (is_effectively_public current.id)
    or_throw entry_not_found effective (pure current)

  unfoldable pub resolve_entry_path : List String → Bool → Action EntryRow
  unfolding read_entries get_entry_by_id walk_path visible_to
  resolve_entry_path segments admin = do
    found ← read_entries o (get_entry_by_id "root")
    root ← lift (root_or_missing found)
    current ← walk_path admin segments root
    visible_to admin current

  unfoldable pub breadcrumbs_for : String → Action (List Breadcrumb)
  unfolding read_entries list_ancestor_rows crumbs
  breadcrumbs_for id = do
    rows ← read_entries o (list_ancestor_rows id)
    pure (crumbs texts [] (last_first rows))

  unfoldable pub shown_to : Bool → EntryRow → Action Entry
  unfolding read_entries is_effectively_public entry_to_api
  shown_to admin row = do
    effective ← read_entries o (is_effectively_public row.id)
    pure (entry_to_api row admin effective)

  unfoldable pub shown_all : Bool → List EntryRow → Action (List Entry)
  unfolding shown_to
  shown_all admin [] = pure []
  shown_all admin (row ∷ rows) = do
    item ← shown_to admin row
    rest ← shown_all admin rows
    pure (item ∷ rest)

  -- the rows that the listing shows
  unfoldable pub visible_rows : Bool → Option String → List EntryRow → List EntryRow
  unfolding matches_name_filter
  visible_rows admin name_filter rows =
      keep (λ row. (admin || row.is_public == 1) && matches_name_filter texts row.name name_filter)
        rows

  unfoldable pub list_directory : List String → Bool → Option String → Action DirectoryResponse
  unfolding resolve_entry_path read_entries list_child_rows shown_to breadcrumbs_for shown_all
      visible_rows
  list_directory segments admin name_filter = do
    current ← resolve_entry_path segments admin
    or_throw (http_error 400 "NOT_A_FOLDER") (is_folder current.kind) (pure tt)
    rows ← read_entries o (list_child_rows current.id)
    current_entry ← shown_to admin current
    breadcrumbs ← breadcrumbs_for current.id
    items ← shown_all admin (visible_rows admin name_filter rows)
    pure (record { current = current_entry; breadcrumbs = breadcrumbs; items = items })
