-- ===== src/FileSystem/Tree/Delete.antt =====
-- Trees after a DELETE of rows that no row names as its parent, and after an INSERT.
use ilist.Base.{
  String, Bool, true, false, none, some, List, [], ◌∷◌, ◌≡◌, refl, inl, inr, ◌⊎◌, arith, text_eq,
  find_first, exists_in, is_some, Bool-cases, ◌&&◌, eq_iff, eq_refl,
}
use ilist.Base.Table.{deleted}
use ilist.FileSystem.Row.{EntryRow}
use ilist.FileSystem.Entries.{is_entry, is_child}
use ilist.FileSystem.Tree.{parent_of, AreDistinct, IsTree, Rooted, top, under}

exists_in-deleted :
    (test : EntryRow → Bool) (x : String) (t : List EntryRow)
    → exists_in (is_entry x) t ≡ false
    → exists_in (is_entry x) (deleted test t) ≡ false
exists_in-deleted test x [] e = refl
exists_in-deleted test x (r ∷ t) e = elim (Bool-cases (test r)) [
  | inl hit ↦ rw hit (exists_in-deleted test x t (ground arith))
  | inr miss ↦ let rest = exists_in-deleted test x t (ground arith) in ground arith
]

pub AreDistinct-deleted :
    (test : EntryRow → Bool) (t : List EntryRow) → AreDistinct t → AreDistinct (deleted test t)
AreDistinct-deleted test [] h = tt
AreDistinct-deleted test (r ∷ t) (fresh, h) = elim (Bool-cases (test r)) [
  | inl hit ↦ rw hit (AreDistinct-deleted test t h)
  | inr miss ↦ rw miss (exists_in-deleted test r.id t fresh, AreDistinct-deleted test t h)
]

find_first_absent :
    (x : String) (t : List EntryRow)
    → exists_in (is_entry x) t ≡ false
    → find_first (is_entry x) t ≡ none
find_first_absent x [] e = refl
find_first_absent x (r ∷ t) e = let rest = find_first_absent x t (ground arith) in ground arith

-- rows of other ids stay
pub find_first-deleted :
    (id : String) (test : EntryRow → Bool) (x : String) (t : List EntryRow)
    → text_eq x id ≡ false
    → find_first (is_entry x) (deleted (λ r. is_entry id r && test r) t) ≡ find_first (is_entry x) t
find_first-deleted id test x [] e = refl
find_first-deleted id test x (r ∷ t) e = elim (Bool-cases (text_eq r.id x)) [
  | inl hit ↦ let same = (eq_iff r.id x).0 hit in rw (same, e) (ground arith)
  | inr miss ↦ let rest = find_first-deleted id test x t e in ground arith
]

-- of the row of that id, either it is deleted or it stays
find_first_either :
    (test : EntryRow → Bool) (x : String) (t : List EntryRow)
    → AreDistinct t
    → (find_first (is_entry x) (deleted test t) ≡ none)
      ⊎ (find_first (is_entry x) (deleted test t) ≡ find_first (is_entry x) t)
find_first_either test x [] h = inl refl
find_first_either test x (r ∷ t) (fresh, h) = elim (Bool-cases (test r)) [
  | inl hit ↦ elim (Bool-cases (text_eq r.id x)) [
    | inl here ↦
        let same = (eq_iff r.id x).0 here in
        inl (
          rw hit
            (find_first_absent x (deleted test t) (exists_in-deleted test x t (rw same at fresh))))
    | inr miss ↦ let rest = find_first_either test x t h in ground arith
  ]
  | inr stays ↦ elim (Bool-cases (text_eq r.id x)) [
    | inl here ↦ inr (rw (stays, here))
    | inr miss ↦ let rest = find_first_either test x t h in ground arith
  ]
]

childless :
    (id x : String) (t : List EntryRow)
    → exists_in (is_child id) t ≡ false
    → parent_of t x ≡ some id
    → ⊥
unfolding parent_of
childless id x [] e f = cc
childless id x (r ∷ t) e f = elim (Bool-cases (text_eq r.id x)) [
  | inl hit ↦ let named : r.parent_id ≡ some id = ground arith in ground (arith, eq_refl id)
  | inr miss ↦ childless id x t (ground arith) (ground arith)
]

module _ (id : String) (test : EntryRow → Bool) (t : List EntryRow) where
  abbrev rest_of : List EntryRow
  rest_of = deleted (λ r. is_entry id r && test r) t

  parent_of-deleted :
      (x p : String) → AreDistinct t → parent_of rest_of x ≡ some p → parent_of t x ≡ some p
  unfolding parent_of
  parent_of-deleted x p h e = elim (find_first_either (λ r. is_entry id r && test r) x t h) [
    | inl gone ↦ let f = e in absurd (cc)
    | inr same ↦ cc
  ]

  pub Rooted-deleted : (x : String) → AreDistinct t → Rooted t x → Rooted rest_of x
  unfolding parent_of
  Rooted-deleted x h (top e) = elim (find_first_either (λ r. is_entry id r && test r) x t h) [
    | inl gone ↦ top (rw gone)
    | inr same ↦ top (rw same e)
  ]
  Rooted-deleted x h (under e up) = elim (find_first_either (λ r. is_entry id r && test r) x t h) [
    | inl gone ↦ top (rw gone)
    | inr same ↦ under (rw same e) (Rooted-deleted _ h up)
  ]

  closed-deleted :
      (x p : String)
      → IsTree t
      → exists_in (is_child id) t ≡ false
      → parent_of rest_of x ≡ some p
      → is_some (find_first (is_entry p) rest_of) ≡ true
  closed-deleted x p h bare e =
      let named = parent_of-deleted x p h.distinct e in
      elim (Bool-cases (text_eq p id)) [
        | inl hit ↦ absurd (childless id x t bare (rw ((eq_iff p id).0 hit) at named))
        | inr other ↦ rw (find_first-deleted id test p t other) (h.closed x p named)
      ]

  pub IsTree-deleted : IsTree t → exists_in (is_child id) t ≡ false → IsTree rest_of
  IsTree-deleted h bare = record {
    distinct = AreDistinct-deleted (λ r. is_entry id r && test r) t h.distinct;
    closed = λ x p e. closed-deleted x p h bare e;
    rooted = λ x. Rooted-deleted x h.distinct (h.rooted x);
  }
