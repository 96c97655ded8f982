-- ===== src/FileSystem/Tree/Move.antt =====
-- Trees after a move of ready rows that the trigger of migrations/0002_entries.sql lets pass.
use ilist.Base.{
  ℕ, String, Bool, true, false, Option, none, some, List, ◌≡◌, refl, sym, ◌∙◌, inl, inr, ◌⊎◌, arith,
  text_eq, find_first, is_some, Bool-cases, ◌&&◌, eq_iff,
}
use ilist.Base.Table.{updated}
use ilist.FileSystem.Row.{EntryRow, is_ready}
use ilist.FileSystem.Entries.{is_entry, set_parent}
use ilist.FileSystem.Tree.{parent_in, parent_of, is_beneath, IsTree, Rooted, under}
use ilist.FileSystem.Tree.Keep.{found_id, Rooted-is_beneath, Rooted-changed, Rooted-same}
use ilist.FileSystem.Tree.Update.{
  touched_in, find_first-updated, is_some-updated, AreDistinct-updated,
}

module _ (id destination : String) (now : ℕ) (t : List EntryRow) where
  abbrev is_moved : EntryRow → Bool
  is_moved r = is_entry id r && is_ready r.status

  abbrev moved : List EntryRow
  moved = updated is_moved (set_parent destination now) t

  set_parent_id : (r : EntryRow) → (set_parent destination now r).id ≡ r.id
  unfolding set_parent
  set_parent_id r = refl

  -- a row keeps its parent, or it is the moved one
  parent_in-moved :
      (x : String) (row : Option EntryRow)
      → ((r : EntryRow) → row ≡ some r → text_eq r.id x ≡ true)
      → (parent_in (touched_in is_moved (set_parent destination now) set_parent_id row)
          ≡ parent_in row)
        ⊎ (text_eq x id ≡ true)
          × (parent_in (touched_in is_moved (set_parent destination now) set_parent_id row)
              ≡ some destination)
  unfolding set_parent
  parent_in-moved x none found = inl refl
  parent_in-moved x (some r) found =
      let here = (eq_iff r.id x).0 (found r refl) in
      elim (Bool-cases (is_moved r)) [
        | inl hit ↦ let e : text_eq r.id id ≡ true = ground arith in inr (rw here at e, rw hit)
        | inr miss ↦ inl (rw miss)
      ]

  parent_of-moved :
      (x : String)
      → (parent_of moved x ≡ parent_of t x)
        ⊎ (text_eq x id ≡ true) × (parent_of moved x ≡ some destination)
  unfolding parent_of
  parent_of-moved x =
      rw (find_first-updated is_moved (set_parent destination now) set_parent_id x t)
        (parent_in-moved x (find_first (is_entry x) t) (found_id x t))

  unmoved : (x : String) → text_eq x id ≡ false → parent_of moved x ≡ parent_of t x
  unmoved x miss = elim (parent_of-moved x) [
    | inl same ↦ same
    | inr (hit, new) ↦ absurd (ground arith)
  ]

  module _ (h : IsTree t) (there : is_some (find_first (is_entry destination) t) ≡ true) (n : ℕ)
      (apart : is_beneath n t id destination ≡ some false) where
    Rooted-target : Rooted moved destination
    Rooted-target = Rooted-is_beneath t moved id unmoved n destination apart

    same_everywhere :
        parent_of moved id ≡ parent_of t id → (x : String) → parent_of moved x ≡ parent_of t x
    same_everywhere same x = elim (Bool-cases (text_eq x id)) [
      | inl hit ↦ rw ((eq_iff x id).0 hit) same
      | inr miss ↦ unmoved x miss
    ]

    Rooted-moved : (x : String) → Rooted moved x
    Rooted-moved x = elim (parent_of-moved id) [
      | inl same ↦ Rooted-same t moved (same_everywhere same) x (h.rooted x)
      | inr (hit, new) ↦ Rooted-changed t moved id unmoved (under new Rooted-target) x (h.rooted x)
    ]

    still_there :
        (p : String)
        → is_some (find_first (is_entry p) t) ≡ true
        → is_some (find_first (is_entry p) moved) ≡ true
    still_there p e = rw (is_some-updated is_moved (set_parent destination now) set_parent_id p t) e

    closed-moved :
        (x p : String) → parent_of moved x ≡ some p → is_some (find_first (is_entry p) moved) ≡ true
    closed-moved x p e = elim (parent_of-moved x) [
      | inl same ↦ still_there p (h.closed x p (sym same ∙ e))
      | inr (hit, new) ↦
          let here : destination ≡ p = ground arith in still_there p (rw here at there)
    ]

    pub IsTree-moved : IsTree moved
    IsTree-moved = record {
      distinct =
          AreDistinct-updated is_moved (set_parent destination now) set_parent_id t h.distinct;
      closed = closed-moved;
      rooted = Rooted-moved;
    }
