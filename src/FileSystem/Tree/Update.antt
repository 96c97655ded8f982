-- ===== src/FileSystem/Tree/Update.antt =====
-- Trees after an UPDATE that leaves the ids.
use ilist.Base.{
  String, Bool, Option, none, some, List, [], ◌∷◌, ◌≡◌, refl, sym, ◌∙◌, inl, inr, text_eq,
  find_first, exists_in, is_some, if◌then◌else◌, Bool-cases,
}
use ilist.Base.Table.{updated}
use ilist.FileSystem.Row.{EntryRow}
use ilist.FileSystem.Entries.{is_entry}
use ilist.FileSystem.Tree.{parent_in, parent_of, AreDistinct, IsTree, Rooted, top, under}

module _ (test : EntryRow → Bool) (change : EntryRow → EntryRow)
    (same_id : (r : EntryRow) → (change r).id ≡ r.id) where
  abbrev touched : EntryRow → EntryRow
  touched r = if test r then change r else r

  touched_id : (r : EntryRow) → (touched r).id ≡ r.id
  touched_id r = elim (Bool-cases (test r)) [ inl hit ↦ rw hit (same_id r) | inr miss ↦ rw miss ]

  abbrev pub touched_in : Option EntryRow → Option EntryRow
  touched_in none = none
  touched_in (some r) = some (touched r)

  pub find_first-updated :
      (x : String) (t : List EntryRow)
      → find_first (is_entry x) (updated test change t) ≡ touched_in (find_first (is_entry x) t)
  find_first-updated x [] = refl
  find_first-updated x (r ∷ t) = elim (Bool-cases (text_eq r.id x)) [
    | inl hit ↦ rw (touched_id r, hit)
    | inr miss ↦ rw (touched_id r, miss) (find_first-updated x t)
  ]

  exists_in-updated :
      (x : String) (t : List EntryRow)
      → exists_in (is_entry x) (updated test change t) ≡ exists_in (is_entry x) t
  exists_in-updated x [] = refl
  exists_in-updated x (r ∷ t) = rw (touched_id r, exists_in-updated x t)

  pub AreDistinct-updated :
      (t : List EntryRow) → AreDistinct t → AreDistinct (updated test change t)
  AreDistinct-updated [] h = tt
  AreDistinct-updated (r ∷ t) (fresh, h) =
      (rw (touched_id r, exists_in-updated r.id t) fresh, AreDistinct-updated t h)

  is_some-touched : (row : Option EntryRow) → is_some (touched_in row) ≡ is_some row
  is_some-touched none = refl
  is_some-touched (some r) = refl

  pub is_some-updated :
      (x : String) (t : List EntryRow)
      → is_some (find_first (is_entry x) (updated test change t))
        ≡ is_some (find_first (is_entry x) t)
  is_some-updated x t = rw (find_first-updated x t) (is_some-touched (find_first (is_entry x) t))

  -- the change leaves the parents as well
  module _ (same_parent : (r : EntryRow) → (change r).parent_id ≡ r.parent_id) where
    parent_in-touched : (row : Option EntryRow) → parent_in (touched_in row) ≡ parent_in row
    parent_in-touched none = refl
    parent_in-touched (some r) = elim (Bool-cases (test r)) [
      | inl hit ↦ rw hit (same_parent r)
      | inr miss ↦ rw miss
    ]

    parent_of-updated :
        (x : String) (t : List EntryRow) → parent_of (updated test change t) x ≡ parent_of t x
    unfolding parent_of
    parent_of-updated x t =
        rw (find_first-updated x t) (parent_in-touched (find_first (is_entry x) t))

    Rooted-updated :
        (t : List EntryRow) (x : String) → Rooted t x → Rooted (updated test change t) x
    Rooted-updated t x (top e) = top (parent_of-updated x t ∙ e)
    Rooted-updated t x (under e up) = under (parent_of-updated x t ∙ e) (Rooted-updated t _ up)

    pub IsTree-updated : (t : List EntryRow) → IsTree t → IsTree (updated test change t)
    IsTree-updated t h = record {
      distinct = AreDistinct-updated t h.distinct;
      closed =
          λ id p e. rw (is_some-updated p t) (h.closed id p (sym (parent_of-updated id t) ∙ e));
      rooted = λ id. Rooted-updated t id (h.rooted id);
    }
