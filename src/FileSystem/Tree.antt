-- ===== src/FileSystem/Tree.antt =====
-- The tree of entries: parent_id, the recursive trigger of migrations/0002_entries.sql, and the
-- well-formedness of the table.
pub mod Keep
pub mod Update
pub mod Delete
pub mod Insert
pub mod Move
pub mod Fuel
use ilist.Base.{
  ℕ, zero, suc, String, Bool, true, false, Option, none, some, List, [], ◌∷◌, ◌≡◌, ◌&&◌, text_eq,
  find_first, exists_in, is_some, if◌then◌else◌, length,
}
use ilist.FileSystem.Row.{EntryRow}
use ilist.FileSystem.Entries.{is_entry, is_child}

abbrev pub parent_in : Option EntryRow → Option String
parent_in none = none
parent_in (some row) = row.parent_id

unfoldable pub parent_of : List EntryRow → String → Option String
parent_of t id = parent_in (find_first (is_entry id) t)

-- `SELECT 1 FROM ancestors WHERE id = NEW.id`, from `id` upwards; none when `n` steps do not
-- reach the top
abbrev pub at_parent : (String → Option Bool) → Option String → Option Bool
at_parent next none = some false
at_parent next (some parent_id) = next parent_id

unfoldable pub is_beneath : ℕ → List EntryRow → String → String → Option Bool
is_beneath zero t target id = none
is_beneath (suc n) t target id =
    let rest = at_parent (is_beneath n t target) (parent_of t id) in
    if text_eq id target then some true else rest

-- going from parent to parent from this id comes to an end
pub data Rooted (t : List EntryRow) : String → Type 0 where
  top : {id : String} → parent_of t id ≡ none → Rooted t id
  under :
      {id parent_id : String} → parent_of t id ≡ some parent_id → Rooted t parent_id → Rooted t id

-- the primary key
abbrev pub AreDistinct : List EntryRow → Type 0
AreDistinct [] = Unit
AreDistinct (row ∷ rows) = (exists_in (is_entry row.id) rows ≡ false) × AreDistinct rows

pub record IsTree (t : List EntryRow) : Type 0 where
  pub distinct : AreDistinct t
  -- the foreign key
  pub closed :
      (id parent_id : String)
      → parent_of t id ≡ some parent_id
      → is_some (find_first (is_entry parent_id) t) ≡ true
  pub rooted : (id : String) → Rooted t id
