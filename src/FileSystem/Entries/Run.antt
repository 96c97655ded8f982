-- ===== src/FileSystem/Entries/Run.antt =====
-- The statements of worker/db.ts on one row of entries as one data type, run in any order. A row
-- that is deleted is gone.
use ilist.Base.{
  ℕ, String, Bool, false, Option, none, some, List, [], ◌∷◌, ◌≡◌, refl, arith, All, text_eq,
  if◌then◌else◌,
}
use ilist.FileSystem.Row.{EntryRow, is_ready}
use ilist.FileSystem.Entries.{
  Metadata, EntryPatch, is_uploading_by, is_deleting_by, set_finalized, set_fields, set_parent,
  set_deleting,
}

-- each with the time, if it writes one; a deletion of a tree marks a row with its owner
pub data Statement : Type 0 where
  finalize : String → Metadata → ℕ → Statement
  update : EntryPatch → ℕ → Statement
  move : String → ℕ → Statement
  mark : String → ℕ → Statement
  delete_uploading delete_deleting : String → Statement

unfoldable pub apply_row : Statement → EntryRow → Option EntryRow
apply_row (finalize owner metadata now) row =
    some (if is_uploading_by owner row then set_finalized metadata now row else row)
apply_row (update patch now) row =
    some (if is_ready row.status then set_fields patch now row else row)
apply_row (move destination now) row =
    some (if is_ready row.status then set_parent destination now row else row)
apply_row (mark owner now) row =
    some (if is_ready row.status then set_deleting owner now row else row)
apply_row (delete_uploading owner) row = if is_uploading_by owner row then none else some row
apply_row (delete_deleting owner) row = if is_deleting_by owner row then none else some row

abbrev pub apply : Statement → Option EntryRow → Option EntryRow
apply s none = none
apply s (some row) = apply_row s row

unfoldable pub run : List Statement → Option EntryRow → Option EntryRow
run [] row = row
run (s ∷ ss) row = run ss (apply s row)

-- the statement names the owner of the upload or the deletion
abbrev pub names : String → Statement → Bool
names owner (finalize who metadata now) = text_eq owner who
names owner (delete_uploading who) = text_eq owner who
names owner (delete_deleting who) = text_eq owner who
names owner _ = false

apply_owned :
    (owner : String) (s : Statement) (row : EntryRow)
    → names owner s ≡ false
    → row.lifecycle_owner ≡ some owner
    → is_ready row.status ≡ false
    → apply_row s row ≡ some row
unfolding apply_row is_uploading_by is_deleting_by
apply_owned owner (finalize who metadata now) row f e h = ground arith
apply_owned owner (update patch now) row f e h = ground arith
apply_owned owner (move destination now) row f e h = ground arith
apply_owned owner (mark who now) row f e h = ground arith
apply_owned owner (delete_uploading who) row f e h = ground arith
apply_owned owner (delete_deleting who) row f e h = ground arith

-- An upload or a deletion owns its row: while an entry is not ready, no statements that do not name
-- its owner, in any number and order, change it or delete it.
pub run_owned :
    (owner : String) (ss : List Statement) (row : EntryRow)
    → All (λ s. names owner s ≡ false) ss
    → row.lifecycle_owner ≡ some owner
    → is_ready row.status ≡ false
    → run ss (some row) ≡ some row
unfolding run
run_owned owner [] row f e h = refl
run_owned owner (s ∷ ss) row (f, more) e h =
    rw (apply_owned owner s row f e h) (run_owned owner ss row more e h)
