-- ===== src/FileSystem/Store/Claim.antt =====
-- What the claim of a tree for deletion does to the rows beneath an entry.
use ilist.Base.{
  ℕ, String, true, not, some, ◌≡◌, refl, ◌∙◌, inl, inr, eq_iff, find_first, exists_in, Bool-cases,
}
use ilist.Base.Exec.{ok}
use ilist.Base.Table.{updated}
use ilist.FileSystem.Row.{EntryRow, is_ready}
use ilist.FileSystem.Entries.{is_entry, set_deleting}
use ilist.FileSystem.Tree.{IsTree}
use ilist.FileSystem.Tree.Keep.{found_id}
use ilist.FileSystem.Tree.Fuel.{ancestor}
use ilist.FileSystem.Tree.Update.{find_first-updated}
use ilist.FileSystem.Store.{Entries, claim_entry_tree_for_deletion, list_descendant_rows}
use ilist.FileSystem.Store.Descendants.{has_id, list_descendant_rows-ancestor}

claimed_row_of :
    (rows : Entries) (owner : String) (now : ℕ) (row : EntryRow) (t : Entries) (x : String)
    → find_first (is_entry x) t ≡ some row
    → has_id x rows ≡ true
    → find_first
        (is_entry x)
        (updated (λ r. exists_in (is_entry r.id) rows) (set_deleting owner now) t)
      ≡ some (set_deleting owner now row)
unfolding set_deleting
claimed_row_of rows owner now row t x found e =
    let same = (eq_iff row.id x).0 (found_id x t row found) in
    find_first-updated (λ r. exists_in (is_entry r.id) rows) (set_deleting owner now) (λ r. refl) x
      t
    ∙ rw (found, same, e) refl

-- A claim of a tree takes all of it: if the claim succeeds, then in a table whose ids are distinct,
-- whose parents are rows and in which every chain of parents ends, each row that stands at the
-- entry or any number of steps beneath it becomes a row that is deleting and has this owner.
pub claim_entry_tree_for_deletion-ancestor :
    (id owner x : String) (now k : ℕ) (row : EntryRow) (t : Entries)
    → IsTree t
    → (claim_entry_tree_for_deletion id owner now t).0 ≡ ok true
    → ancestor t k x ≡ some id
    → find_first (is_entry x) t ≡ some row
    → find_first (is_entry x) (claim_entry_tree_for_deletion id owner now t).1
      ≡ some (set_deleting owner now row)
unfolding claim_entry_tree_for_deletion
claim_entry_tree_for_deletion-ancestor id owner x now k row t h claimed above found =
    elim (Bool-cases (exists_in (λ r. not (is_ready r.status)) (list_descendant_rows id t))) [
      | inl busy ↦ let no = rw busy at claimed in absurd (cc)
      | inr free ↦ elim (Bool-cases (exists_in (is_entry "root") (list_descendant_rows id t))) [
        | inl root ↦ let no = rw (free, root) at claimed in absurd (cc)
        | inr other ↦
            rw (free, other)
              (claimed_row_of (list_descendant_rows id t) owner now row t x found
                (list_descendant_rows-ancestor t id x k row h found above))
      ]
    ]
