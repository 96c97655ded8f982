-- ===== src/FileSystem/Ancestors.antt =====
-- `listAncestorRows` of worker/db.ts, and who may see an entry (worker/entries.ts).
pub mod Public
use ilist.Base.{
  ℕ, zero, suc, String, Bool, true, false, not, Option, none, some, List, [], ◌∷◌, ◌&&◌, ◌==◌,
  text_eq, find_first, exists_in, is_some, if◌then◌else◌,
}
use ilist.FileSystem.Row.{EntryRow, is_ready}
use ilist.FileSystem.Entries.{is_entry}
use ilist.FileSystem.Store.{Entries}

abbrev pub ancestry_limit : ℕ
ancestry_limit = 256

abbrev pub after_row : EntryRow → Option (List EntryRow) → Option (List EntryRow)
after_row row none = none
after_row row (some rows) = some (row ∷ rows)

abbrev no_more : Option String → EntryRow → Option (List EntryRow)
no_more none row = some (row ∷ [])
no_more (some parent_id) row = none

abbrev parent_row : Option String → Entries → Option EntryRow
parent_row none t = none
parent_row (some parent_id) t = find_first (is_entry parent_id) t

-- the recursive query, from a row upwards; none on a cycle, and where `n` rows above it still
-- have a parent
unfoldable pub climb : ℕ → List String → Entries → Option EntryRow → Option (List EntryRow)
climb n seen t none = some []
climb zero seen t (some row) =
    if exists_in (text_eq row.id) seen then none else no_more row.parent_id row
climb (suc n) seen t (some row) =
    let rest = climb n (row.id ∷ seen) t (parent_row row.parent_id t) in
    if exists_in (text_eq row.id) seen then none else after_row row rest

abbrev pub or_empty : Option (List EntryRow) → List EntryRow
or_empty none = []
or_empty (some rows) = rows

unfoldable pub list_ancestor_rows : String → Entries → List EntryRow
unfolding climb
list_ancestor_rows id t = or_empty (climb ancestry_limit [] t (find_first (is_entry id) t))

-- ready and public
abbrev pub is_open : EntryRow → Bool
is_open row = is_ready row.status && row.is_public == 1

unfoldable pub are_open : List EntryRow → Bool
are_open rows = exists_in (λ r. true) rows && not (exists_in (λ r. not (is_open r)) rows)

unfoldable pub is_effectively_public : String → Entries → Bool
unfolding list_ancestor_rows are_open
is_effectively_public id t = are_open (list_ancestor_rows id t)
