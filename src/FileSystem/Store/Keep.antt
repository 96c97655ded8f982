-- ===== src/FileSystem/Store/Keep.antt =====
-- The statements on entries leave a tree.
use ilist.Base.{
  ℕ, suc, String, Bool, true, false, not, Option, none, some, [], ◌∷◌, ◌≡◌, refl, inl, inr, arith,
  text_eq, find_first, exists_in, is_some, ◌&&◌, Bool-cases, length,
}
use ilist.Base.Exec.{ok, err}
use ilist.Base.Table.{updated}
use ilist.FileSystem.Row.{EntryRow, is_folder, is_ready}
use ilist.FileSystem.Entries.{
  is_entry, is_child, is_ready_folder, is_uploading_by, is_deleting_by, Metadata, EntryPatch,
  set_finalized, set_fields, set_parent, set_deleting,
}
use ilist.FileSystem.Tree.{IsTree, is_beneath}
use ilist.FileSystem.Tree.Update.{IsTree-updated}
use ilist.FileSystem.Tree.Delete.{IsTree-deleted}
use ilist.FileSystem.Tree.Insert.{IsTree-insert}
use ilist.FileSystem.Tree.Move.{IsTree-moved}
use ilist.FileSystem.Store.{
  Entries, Outcome, constraint, unless, update_found, number_of, insert_beneath, insert_constraint,
  insert_entry, insert_entry_under_ready_parent, update_entry, finalize_uploaded_entry,
  update_ready_entry_fields, move_trigger, move_ready_entry, delete_entry, delete_uploading_entry,
  delete_deleting_entry, claim_entry_tree_for_deletion, list_descendant_rows,
}

-- the table after a statement is a tree
pub record Leaves {A : Type 0} (outcome : Outcome A) : Type 0 where
  pub tree : IsTree outcome.1

unless-Leaves :
    {A : Type 0} (why : Option String) (t : Entries) (outcome : Outcome A)
    → IsTree t
    → (why ≡ none → Leaves outcome)
    → Leaves (unless why t outcome)
unless-Leaves none t outcome h k = k refl
unless-Leaves (some message) t outcome h k = record { tree = h }

update_found-Leaves :
    (id : String) (test : EntryRow → Bool) (change : EntryRow → EntryRow) (t : Entries)
    (found : Option EntryRow)
    → IsTree t
    → IsTree (updated (λ r. is_entry id r && test r) change t)
    → Leaves (update_found id test change t found)
unfolding update_found
update_found-Leaves id test change t none h k = record { tree = h }
update_found-Leaves id test change t (some row) h k =
    unless-Leaves (constraint t (change row)) t (ok true, _) h (λ e. record { tree = k })

update_entry-Leaves :
    (id : String) (test : EntryRow → Bool) (change : EntryRow → EntryRow) (t : Entries)
    → IsTree t
    → IsTree (updated (λ r. is_entry id r && test r) change t)
    → Leaves (update_entry id test change t)
unfolding update_entry
update_entry-Leaves id test change t h k =
    update_found-Leaves id test change t (find_first (λ r. is_entry id r && test r) t) h k

pub finalize_uploaded_entry-Leaves :
    (id owner : String) (metadata : Metadata) (now : ℕ) (t : Entries)
    → IsTree t
    → Leaves (finalize_uploaded_entry id owner metadata now t)
unfolding finalize_uploaded_entry set_finalized
finalize_uploaded_entry-Leaves id owner metadata now t h =
    update_entry-Leaves id (is_uploading_by owner) (set_finalized metadata now) t h (
      IsTree-updated (λ r. is_entry id r && is_uploading_by owner r) (set_finalized metadata now)
        (λ r. refl) (λ r. refl) t h)

pub update_ready_entry_fields-Leaves :
    (id : String) (fields : EntryPatch) (now : ℕ) (t : Entries)
    → IsTree t
    → Leaves (update_ready_entry_fields id fields now t)
unfolding update_ready_entry_fields set_fields
update_ready_entry_fields-Leaves id fields now t h =
    update_entry-Leaves id (λ r. is_ready r.status) (set_fields fields now) t h
      (IsTree-updated (λ r. is_entry id r && is_ready r.status) (set_fields fields now) (λ r. refl)
        (λ r. refl) t h)

present :
    (test : EntryRow → Bool) (id : String) (t : Entries)
    → exists_in (λ r. is_entry id r && test r) t ≡ true
    → is_some (find_first (is_entry id) t) ≡ true
present test id [] e = cc
present test id (r ∷ t) e = elim (Bool-cases (text_eq r.id id)) [
  | inl hit ↦ rw hit (ground arith)
  | inr miss ↦ let rest = present test id t (ground arith) in ground arith
]

apart :
    (id destination : String) (t : Entries)
    → move_trigger id destination t ≡ none
    → is_beneath (suc (length t)) t id destination ≡ some false
unfolding move_trigger
apart id destination t e = ground arith

pub move_ready_entry-Leaves :
    (id destination : String) (now : ℕ) (t : Entries)
    → IsTree t
    → Leaves (move_ready_entry id destination now t)
unfolding move_ready_entry
move_ready_entry-Leaves id destination now t h =
    elim (Bool-cases (exists_in (is_ready_folder destination) t)) [
      | inr miss ↦ rw miss (record { tree = h })
      | inl hit ↦ elim (Bool-cases (exists_in (λ r. is_entry id r && is_ready r.status) t)) [
        | inr miss ↦ rw (hit, miss) (record { tree = h })
        | inl ready_row ↦
            let there = present (λ r. is_folder r.kind && is_ready r.status) destination t hit in
            rw (hit, ready_row)
              (unless-Leaves (move_trigger id destination t) t _ h (λ e.
                update_entry-Leaves id (λ r. is_ready r.status) (set_parent destination now) t h
                  (IsTree-moved id destination now t h there (suc (length t))
                    (apart id destination t e))))
      ]
    ]

delete_entry-Leaves :
    (id : String) (test : EntryRow → Bool) (t : Entries)
    → IsTree t
    → Leaves (delete_entry id test t)
unfolding delete_entry
delete_entry-Leaves id test t h = elim (Bool-cases (exists_in (λ r. is_entry id r && test r) t)) [
  | inr missing ↦ rw missing (record { tree = h })
  | inl there ↦ elim (Bool-cases (text_eq id "root")) [
    | inl root ↦ rw (there, root) (record { tree = h })
    | inr other ↦ elim (Bool-cases (exists_in (is_child id) t)) [
      | inl children ↦ rw (there, other, children) (record { tree = h })
      | inr bare ↦ rw (there, other, bare) (record { tree = IsTree-deleted id test t h bare })
    ]
  ]
]

pub delete_uploading_entry-Leaves :
    (id owner : String) (t : Entries) → IsTree t → Leaves (delete_uploading_entry id owner t)
unfolding delete_uploading_entry
delete_uploading_entry-Leaves id owner t h = delete_entry-Leaves id (is_uploading_by owner) t h

pub delete_deleting_entry-Leaves :
    (id owner : String) (t : Entries) → IsTree t → Leaves (delete_deleting_entry id owner t)
unfolding delete_deleting_entry
delete_deleting_entry-Leaves id owner t h = delete_entry-Leaves id (is_deleting_by owner) t h

pub claim_entry_tree_for_deletion-Leaves :
    (id owner : String) (now : ℕ) (t : Entries)
    → IsTree t
    → Leaves (claim_entry_tree_for_deletion id owner now t)
unfolding claim_entry_tree_for_deletion set_deleting
claim_entry_tree_for_deletion-Leaves id owner now t h =
    elim (Bool-cases (exists_in (λ r. not (is_ready r.status)) (list_descendant_rows id t))) [
      | inl busy ↦ rw busy (record { tree = h })
      | inr free ↦ elim (Bool-cases (exists_in (is_entry "root") (list_descendant_rows id t))) [
        | inl root ↦ rw (free, root) (record { tree = h })
        | inr other ↦
            rw (free, other)
              (record {
                tree = IsTree-updated _ (set_deleting owner now) (λ r. refl) (λ r. refl) t h;
              })
      ]
    ]

parent_named :
    (row : EntryRow) (p : String) (t : Entries)
    → row.parent_id ≡ some p
    → insert_constraint t row ≡ none
    → (exists_in (is_entry row.id) t ≡ false) × (exists_in (λ r. is_entry p r && true) t ≡ true)
unfolding insert_constraint
parent_named row p t named e = ground arith

insert_under-Leaves :
    (row : EntryRow) (p : String) (t : Entries)
    → row.parent_id ≡ some p
    → IsTree t
    → Leaves (insert_entry row t)
unfolding insert_entry
insert_under-Leaves row p t named h = unless-Leaves (insert_constraint t row) t _ h (λ e.
    let (fresh, there) = parent_named row p t named e in
    record { tree = IsTree-insert row t p fresh h named (present (λ r. true) p t there) })

number_of-Leaves : (outcome : Outcome (Unit {0})) → Leaves outcome → Leaves (number_of outcome)
number_of-Leaves (ok _, t) h = record { tree = h.tree }
number_of-Leaves (err e, t) h = record { tree = h.tree }

insert_beneath-Leaves :
    (parent_id : Option String) (row : EntryRow) (t : Entries)
    → row.parent_id ≡ parent_id
    → IsTree t
    → Leaves (insert_beneath parent_id row t)
insert_beneath-Leaves none row t named h = record { tree = h }
insert_beneath-Leaves (some p) row t named h = elim (Bool-cases (text_eq p "")) [
  | inl empty ↦ rw empty (record { tree = h })
  | inr given ↦ elim (Bool-cases (exists_in (is_ready_folder p) t)) [
    | inl there ↦
        rw (given, there)
          (number_of-Leaves (insert_entry row t) (insert_under-Leaves row p t named h))
    | inr missing ↦ rw (given, missing) (record { tree = h })
  ]
]

pub insert_entry_under_ready_parent-Leaves :
    (row : EntryRow) (t : Entries) → IsTree t → Leaves (insert_entry_under_ready_parent row t)
unfolding insert_entry_under_ready_parent
insert_entry_under_ready_parent-Leaves row t h = insert_beneath-Leaves row.parent_id row t refl h
