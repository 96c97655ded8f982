-- ===== src/FileSystem/Store.antt =====
-- The statements of worker/db.ts on the table entries, with the constraints and triggers that
-- migrations/0002_entries.sql puts on them: a statement that breaks one is refused with its text.
pub mod Operations
pub mod Keep
pub mod Exclusive
pub mod Descendants
pub mod Claim
use ilist.Base.{
  ℕ, zero, suc, ◌+◌, String, Bool, true, false, not, Option, none, some, List, [], ◌∷◌, ◌++◌, ◌&&◌,
  ◌||◌, ◌==◌, text_eq, is_text, is_none, is_some, find_first, keep, exists_in, if◌then◌else◌,
  length, map,
}
use ilist.Base.Exec.{Result, ok, err, failure}
use ilist.Base.Table.{updated, deleted}
use ilist.FileSystem.Row.{EntryRow, is_file, is_folder, is_ready}
use ilist.FileSystem.Entries.{
  is_entry, is_child, is_ready_folder, is_uploading_by, is_deleting_by, Metadata, EntryPatch,
  set_finalized, set_fields, set_parent, set_deleting, child_order,
}
use ilist.FileSystem.Tree.{parent_of, is_beneath}

abbrev pub Entries : Type 0
Entries = List EntryRow

-- what a statement answers, and the table after it
abbrev pub Outcome : Type 0 → Type 0
Outcome A = Result A × Entries

abbrev pub unique_id : String
unique_id = "UNIQUE constraint failed: entries.id"

abbrev pub unique_name : String
unique_name = "UNIQUE constraint failed: entries.parent_id, entries.name"

abbrev unique_storage_key : String
unique_storage_key = "UNIQUE constraint failed: entries.storage_key"

abbrev same : Option String → Option String → Bool
same none b = false
same (some a) b = is_text b a

-- another row with this parent and name, or with this storage key; NULL is never equal
unfoldable pub takes_name : EntryRow → EntryRow → Bool
takes_name row r =
    not (is_entry row.id r) && same row.parent_id r.parent_id && text_eq r.name row.name

unfoldable pub takes_storage_key : EntryRow → EntryRow → Bool
takes_storage_key row r = not (is_entry row.id r) && same row.storage_key r.storage_key

-- the CHECK of the canonical root, and of the other rows' parents and storage keys
unfoldable pub is_checked : EntryRow → Bool
is_checked row =
    (is_some row.parent_id || text_eq row.id "root")
    && (not (text_eq row.id "root")
        || (is_none row.parent_id
            && text_eq row.name ""
            && is_folder row.kind
            && row.size == 0
            && is_none row.content_type
            && is_none row.etag
            && is_ready row.status
            && row.is_public == 1
            && row.sort_order == 0
            && text_eq row.description ""))
    && (if is_file row.kind then is_some row.storage_key else is_none row.storage_key)

-- why the table cannot hold this row in place of the one with its id
unfoldable pub constraint : Entries → EntryRow → Option String
unfolding is_checked takes_name takes_storage_key
constraint t row =
    if not (is_checked row)
    then some "CHECK constraint failed"
    else if exists_in (takes_name row) t
    then some unique_name
    else if exists_in (takes_storage_key row) t
    then some unique_storage_key
    else none

abbrev pub refused : {A : Type 0} → Entries → String → Outcome A
refused t message = (err (failure message), t)

abbrev pub unless : {A : Type 0} → Option String → Entries → Outcome A → Outcome A
unless none t outcome = outcome
unless (some message) t outcome = refused t message

abbrev parent_is : (EntryRow → Bool) → Entries → Option String → Bool
parent_is test t none = true
parent_is test t (some parent_id) = exists_in (λ r. is_entry parent_id r && test r) t

-- why a new row is refused
unfoldable pub insert_constraint : Entries → EntryRow → Option String
unfolding constraint
insert_constraint t row =
    if is_text row.parent_id row.id
    then some "entry cannot be its own parent"
    else if exists_in (is_entry row.id) t
    then some unique_id
    else if not (parent_is (λ r. true) t row.parent_id)
    then some "FOREIGN KEY constraint failed"
    else if not (parent_is (λ r. is_folder r.kind) t row.parent_id)
    then some "parent entry must be a folder"
    else constraint t row

unfoldable pub insert_entry : EntryRow → Entries → Outcome (Unit {0})
unfolding insert_constraint
insert_entry row t = unless (insert_constraint t row) t (ok tt, row ∷ t)

abbrev pub number_of : Outcome (Unit {0}) → Outcome Bool
number_of (ok _, t) = (ok true, t)
number_of (err e, t) = (err e, t)

-- `INSERT … SELECT … WHERE EXISTS`: whether a row was written
abbrev pub insert_beneath : Option String → EntryRow → Entries → Outcome Bool
insert_beneath none row t = (err (failure "Entry parent is required"), t)
insert_beneath (some parent_id) row t =
    if text_eq parent_id ""
    then (err (failure "Entry parent is required"), t)
    else if exists_in (is_ready_folder parent_id) t
    then number_of (insert_entry row t)
    else (ok false, t)

unfoldable pub insert_entry_under_ready_parent : EntryRow → Entries → Outcome Bool
unfolding insert_entry
insert_entry_under_ready_parent row t = insert_beneath row.parent_id row t

-- the row that the WHERE clause finds
unfoldable pub update_found :
    String → (EntryRow → Bool) → (EntryRow → EntryRow) → Entries → Option EntryRow → Outcome Bool
unfolding constraint
update_found id test change t none = (ok false, t)
update_found id test change t (some row) =
    unless (constraint t (change row)) t (ok true, updated (λ r. is_entry id r && test r) change t)

-- `UPDATE entries SET change WHERE id = ? AND test`, whether a row changed
unfoldable pub update_entry :
    String → (EntryRow → Bool) → (EntryRow → EntryRow) → Entries → Outcome Bool
unfolding update_found
update_entry id test change t =
    update_found id test change t (find_first (λ r. is_entry id r && test r) t)

unfoldable pub finalize_uploaded_entry : String → String → Metadata → ℕ → Entries → Outcome Bool
unfolding update_entry
finalize_uploaded_entry id owner metadata now t =
    update_entry id (is_uploading_by owner) (set_finalized metadata now) t

unfoldable pub update_ready_entry_fields : String → EntryPatch → ℕ → Entries → Outcome Bool
unfolding update_entry
update_ready_entry_fields id fields now t =
    update_entry id (λ r. is_ready r.status) (set_fields fields now) t

-- the triggers of an UPDATE of parent_id
unfoldable pub move_trigger : String → String → Entries → Option String
unfolding is_beneath
move_trigger id destination_id t =
    if not (text_eq id "root") && text_eq id destination_id
    then some "entry cannot be its own parent"
    else elim (is_beneath (suc (length t)) t id destination_id) [
      | some false ↦ none
      | _ ↦ some "entry cannot be moved beneath a descendant"
    ]

unfoldable pub move_ready_entry : String → String → ℕ → Entries → Outcome Bool
unfolding update_entry move_trigger
move_ready_entry id destination_id now t =
    if exists_in (is_ready_folder destination_id) t
      && exists_in (λ r. is_entry id r && is_ready r.status) t
    then unless (move_trigger id destination_id t) t
        (update_entry id (λ r. is_ready r.status) (set_parent destination_id now) t)
    else (ok false, t)

-- `DELETE FROM entries WHERE id = ? AND test`
unfoldable pub delete_entry : String → (EntryRow → Bool) → Entries → Outcome Bool
delete_entry id test t =
    if not (exists_in (λ r. is_entry id r && test r) t)
    then (ok false, t)
    else if text_eq id "root"
    then refused t "cannot delete canonical root"
    else if exists_in (is_child id) t
    then refused t "FOREIGN KEY constraint failed"
    else (ok true, deleted (λ r. is_entry id r && test r) t)

unfoldable pub delete_uploading_entry : String → String → Entries → Outcome Bool
unfolding delete_entry
delete_uploading_entry id owner t = delete_entry id (is_uploading_by owner) t

unfoldable pub delete_deleting_entry : String → String → Entries → Outcome Bool
unfolding delete_entry
delete_deleting_entry id owner t = delete_entry id (is_deleting_by owner) t

-- the rows below those rows, level by level
unfoldable pub levels : ℕ → Entries → Entries → Entries
levels zero t above = []
levels (suc n) t above =
    let rest = levels n t (keep (λ r. exists_in (λ p. is_child p.id r) above) t) in
    if exists_in (λ r. true) above then above ++ rest else []

unfoldable pub list_descendant_rows : String → Entries → Entries
unfolding levels
list_descendant_rows id t = levels (suc (length t)) t (keep (is_entry id) t)

unfoldable pub count_descendant_rows : String → Entries → ℕ
unfolding list_descendant_rows
count_descendant_rows id t = length (list_descendant_rows id t)

-- all rows of the tree, or none of them
unfoldable pub claim_entry_tree_for_deletion : String → String → ℕ → Entries → Outcome Bool
unfolding list_descendant_rows
claim_entry_tree_for_deletion id owner now t =
    let rows = list_descendant_rows id t in
    if exists_in (λ r. not (is_ready r.status)) rows
    then (ok false, t)
    else if exists_in (is_entry "root") rows
    then refused t "CHECK constraint failed"
    else (
      ok (exists_in (λ r. true) rows),
      updated (λ r. exists_in (is_entry r.id) rows) (set_deleting owner now) t,
    )

-- `ORDER BY` of `listChildRows`
unfoldable pub insert_child : EntryRow → Entries → Entries
insert_child row [] = row ∷ []
insert_child row (r ∷ rs) =
    let rest = insert_child row rs in if child_order row r then row ∷ r ∷ rs else r ∷ rest

unfoldable pub in_child_order : Entries → Entries
unfolding insert_child
in_child_order [] = []
in_child_order (row ∷ rows) = insert_child row (in_child_order rows)

unfoldable pub list_child_rows : String → Entries → Entries
unfolding in_child_order
list_child_rows parent_id t =
    in_child_order (keep (λ r. is_child parent_id r && is_ready r.status) t)
