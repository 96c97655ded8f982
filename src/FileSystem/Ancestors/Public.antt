-- ===== src/FileSystem/Ancestors/Public.antt =====
-- What `isEffectivelyPublic` says of the entries above an entry.
use ilist.Base.{
  ℕ, zero, suc, String, Bool, true, false, not, Option, none, some, List, [], ◌∷◌, ◌≡◌, sym, ap,
  ◌∙◌, inl, inr, arith, text_eq, find_first, exists_in, if◌then◌else◌, Option-cases,
}
use ilist.FileSystem.Row.{EntryRow}
use ilist.FileSystem.Entries.{is_entry}
use ilist.FileSystem.Store.{Entries}
use ilist.FileSystem.Tree.{parent_of, parent_in}
use ilist.FileSystem.Tree.Fuel.{ancestor, ancestor-parent_of, ancestor-none}
use ilist.FileSystem.Ancestors.{
  climb, or_empty, list_ancestor_rows, is_open, are_open, is_effectively_public, ancestry_limit,
  after_row, parent_row,
}

-- a walk that was not given up found only open rows
abbrev is_clear : Option (List EntryRow) → Bool
is_clear none = false
is_clear (some rows) = not (exists_in (λ r. not (is_open r)) rows)

climb_head :
    (n : ℕ) (seen : List String) (t : Entries) (row : EntryRow)
    → is_clear (climb n seen t (some row)) ≡ true
    → is_open row ≡ true
unfolding climb
climb_head zero seen t row e = ground arith
climb_head (suc n) seen t row e = ground arith

clear_rest :
    (b : Bool) (row : EntryRow) (rest : Option (List EntryRow))
    → is_clear (if b then none else after_row row rest) ≡ true
    → is_clear rest ≡ true
clear_rest b row none e = ground arith
clear_rest b row (some rows) e = ground arith

climb_rest :
    (n : ℕ) (seen : List String) (t : Entries) (row : EntryRow) (p : String)
    → row.parent_id ≡ some p
    → is_clear (climb n seen t (some row)) ≡ true
    → (m : ℕ) × (is_clear (climb m (row.id ∷ seen) t (find_first (is_entry p) t)) ≡ true)
unfolding climb
climb_rest zero seen t row p named e = absurd (ground arith)
climb_rest (suc n) seen t row p named e = (
  n,
  ap (λ q. is_clear (climb n (row.id ∷ seen) t (parent_row q t))) (sym named)
      ∙ clear_rest (exists_in (text_eq row.id) seen) row _ e,
)

parent_of_found :
    (t : Entries) (id : String) (found : Option EntryRow)
    → find_first (is_entry id) t ≡ found
    → parent_of t id ≡ parent_in found
unfolding parent_of
parent_of_found t id found e = ap parent_in e

open_above :
    (k n : ℕ) (seen : List String) (t : Entries) (id x : String) (row : EntryRow)
    → is_clear (climb n seen t (find_first (is_entry id) t)) ≡ true
    → ancestor t k id ≡ some x
    → find_first (is_entry x) t ≡ some row
    → is_open row ≡ true
unfolding ancestor
open_above zero n seen t id x row e above found =
    let here : id ≡ x = ground arith in climb_head n seen t row (rw found at (rw here at e))
open_above (suc k) n seen t id x row e above found =
    elim (Option-cases (find_first (is_entry id) t)) [
      | inl missing ↦
          let no = ancestor-none t k id (parent_of_found t id none missing) in absurd (cc)
      | inr (r, there) ↦ elim (Option-cases r.parent_id) [
        | inl top_row ↦
            let no = ancestor-none t k id (parent_of_found t id (some r) there ∙ top_row) in
            absurd (cc)
        | inr (p, named) ↦
            let (m, rest) = climb_rest n seen t r p named (rw there at e) in
            let up = ancestor-parent_of t k id p (parent_of_found t id (some r) there ∙ named) in
            open_above k m (r.id ∷ seen) t p x row rest (sym up ∙ above) found
      ]
    ]

are_open_clear :
    (walk : Option (List EntryRow)) → are_open (or_empty walk) ≡ true → is_clear walk ≡ true
unfolding are_open
are_open_clear none e = cc
are_open_clear (some rows) e = ground arith

-- An entry that is effectively public has nothing private above it: the entry itself and every
-- row that any number of steps from parent to parent reaches is ready and public.
pub is_effectively_public-ancestor :
    (id x : String) (k : ℕ) (row : EntryRow) (t : Entries)
    → is_effectively_public id t ≡ true
    → ancestor t k id ≡ some x
    → find_first (is_entry x) t ≡ some row
    → is_open row ≡ true
unfolding is_effectively_public list_ancestor_rows are_open
is_effectively_public-ancestor id x k row t e above found =
    open_above k ancestry_limit [] t id x row
      (are_open_clear (climb ancestry_limit [] t (find_first (is_entry id) t)) e) above found
