-- ===== src/FileSystem/Store/Descendants.antt =====
-- What lies beneath an entry: the query for these rows, and the triggers that refuse a move there.
use ilist.Base.{
  ℕ, zero, suc, String, Bool, true, false, some, [], ◌∷◌, ◌++◌, ◌≡◌, ◌≢◌, refl, sym, ap, ◌∙◌, inl,
  inr, arith, ◌||◌, text_eq, eq_iff, eq_refl, find_first, keep, exists_in, length, Bool-cases,
  Option-cases,
}
use ilist.FileSystem.Row.{EntryRow}
use ilist.FileSystem.Entries.{is_entry, is_child}
use ilist.FileSystem.Tree.{parent_of, parent_in, is_beneath, IsTree}
use ilist.FileSystem.Tree.Fuel.{ancestor, ancestor-parent_of, ancestor-none, is_beneath-length}
use ilist.FileSystem.Tree.Keep.{found_id}
use ilist.FileSystem.Store.{Entries, levels, list_descendant_rows}

-- the id is that of one of the rows
abbrev pub has_id : String → Entries → Bool
has_id x rows = exists_in (is_entry x) rows

has_id-append : (x : String) (a b : Entries) → has_id x (a ++ b) ≡ (has_id x a || has_id x b)
has_id-append x [] b = refl
has_id-append x (r ∷ a) b = let rest = has_id-append x a b in ground (arith, rest)

has_id-keep :
    (test : EntryRow → Bool) (x : String) (row : EntryRow) (t : Entries)
    → find_first (is_entry x) t ≡ some row
    → test row ≡ true
    → has_id x (keep test t) ≡ true
has_id-keep test x row [] e h = cc
has_id-keep test x row (r ∷ t) e h = elim (Bool-cases (text_eq r.id x)) [
  | inl here ↦ let same : r ≡ row = ground arith in rw (ap test same ∙ h) (ground arith)
  | inr miss ↦ let rest = has_id-keep test x row t (rw miss at e) h in ground arith
]

is_child_of :
    (row : EntryRow) (p : String) (above : Entries)
    → row.parent_id ≡ some p
    → has_id p above ≡ true
    → exists_in (λ q. is_child q.id row) above ≡ true
is_child_of row p [] named e = cc
is_child_of row p (q ∷ above) named e = elim (Bool-cases (text_eq q.id p)) [
  | inl here ↦ let same = (eq_iff q.id p).0 here in rw (named, same, eq_refl p) refl
  | inr miss ↦ let rest = is_child_of row p above named (ground arith) in ground arith
]

any_row : (x : String) (rows : Entries) → has_id x rows ≡ true → exists_in (λ r. true) rows ≡ true
any_row x [] e = cc
any_row x (r ∷ rows) e = refl

module _ (t : Entries) where
  abbrev children : Entries → Entries
  children above = keep (λ r. exists_in (λ p. is_child p.id r) above) t

  levels_above :
      (n : ℕ) (above : Entries) (x : String)
      → has_id x above ≡ true
      → has_id x (levels (suc n) t above) ≡ true
  unfolding levels
  levels_above n above x e =
      rw (any_row x above e) (has_id-append x above (levels n t (children above)) ∙ rw e)

  levels_below :
      (n : ℕ) (above : Entries) (x : String)
      → exists_in (λ r. true) above ≡ true
      → has_id x (levels n t (children above)) ≡ true
      → has_id x (levels (suc n) t above) ≡ true
  unfolding levels
  levels_below n above x some_row e =
      rw some_row (has_id-append x above (levels n t (children above)) ∙ ground arith)

  -- one level further reaches the children of what was found
  levels-child :
      (n : ℕ) (above : Entries) (row : EntryRow) (x p : String)
      → find_first (is_entry x) t ≡ some row
      → row.parent_id ≡ some p
      → has_id p (levels n t above) ≡ true
      → has_id x (levels (suc n) t above) ≡ true
  unfolding levels
  levels-child zero above row x p found named e = cc
  levels-child (suc n) above row x p found named e =
      elim (Bool-cases (exists_in (λ r. true) above)) [
        | inr empty ↦ let no = rw empty at e in absurd (cc)
        | inl some_row ↦
            let split =
              sym (has_id-append p above (levels n t (children above))) ∙ (rw some_row at e) in
            levels_below (suc n) above x some_row (elim (Bool-cases (has_id p above)) [
              | inl here ↦ levels_above n (children above) x (
                  has_id-keep (λ r. exists_in (λ q. is_child q.id r) above) x row t found
                    (is_child_of row p above named here))
              | inr further ↦
                  levels-child n (children above) row x p found named (rw further at split)
            ])
      ]

  parent_of_row :
      (x p : String) (row : EntryRow)
      → find_first (is_entry x) t ≡ some row
      → parent_of t x ≡ some p
      → row.parent_id ≡ some p
  unfolding parent_of
  parent_of_row x p row found e = ap parent_in (sym found) ∙ e

  levels-is_beneath :
      (n : ℕ) (id x : String) (row : EntryRow)
      → IsTree t
      → find_first (is_entry x) t ≡ some row
      → is_beneath n t id x ≡ some true
      → has_id x (levels n t (keep (is_entry id) t)) ≡ true
  unfolding is_beneath
  levels-is_beneath zero id x row h found e = cc
  levels-is_beneath (suc n) id x row h found e = elim (Bool-cases (text_eq x id)) [
    | inl here ↦
        let same = (eq_iff row.id x).0 (found_id x t row found) in
        levels_above n (keep (is_entry id) t) x
          (has_id-keep (is_entry id) x row t found (rw same here))
    | inr miss ↦ elim (Option-cases (parent_of t x)) [
      | inl none_above ↦ absurd (ground (arith, rw (miss, none_above) at e))
      | inr (p, above) ↦ elim (Option-cases (find_first (is_entry p) t)) [
        | inl missing ↦ let there = h.closed x p above in absurd (ground arith)
        | inr (q, there) ↦
            levels-child n (keep (is_entry id) t) row x p found (parent_of_row x p row found above)
              (levels-is_beneath n id p q h there (rw (miss, above) at e))
      ]
    ]
  ]

  is_beneath-ancestor :
      (n k : ℕ) (id x : String) → is_beneath n t id x ≡ some false → ancestor t k x ≢ some id
  unfolding is_beneath ancestor
  is_beneath-ancestor zero k id x e = cc
  is_beneath-ancestor (suc n) zero id x e =
      λ f. let same : x ≡ id = ground arith in let hit = eq_refl id in absurd (ground arith)
  is_beneath-ancestor (suc n) (suc k) id x e = λ f. elim (Option-cases (parent_of t x)) [
    | inl none_above ↦ let no = ancestor-none t k x none_above in absurd (cc)
    | inr (p, above) ↦ elim (Bool-cases (text_eq x id)) [
      | inl hit ↦ absurd (ground arith)
      | inr miss ↦
          is_beneath-ancestor n k id p (rw (miss, above) at e)
            (sym (ancestor-parent_of t k x p above) ∙ f)
    ]
  ]

  pub list_descendant_rows-ancestor :
      (id x : String) (k : ℕ) (row : EntryRow)
      → IsTree t
      → find_first (is_entry x) t ≡ some row
      → ancestor t k x ≡ some id
      → has_id x (list_descendant_rows id t) ≡ true
  unfolding list_descendant_rows
  list_descendant_rows-ancestor id x k row h found above =
      elim (Option-cases (is_beneath (suc (length t)) t id x)) [
        | inl none_yet ↦ let ends = is_beneath-length t id x h in absurd (ground arith)
        | inr (true, e) ↦ levels-is_beneath (suc (length t)) id x row h found e
        | inr (false, e) ↦ absurd (is_beneath-ancestor (suc (length t)) k id x e above)
      ]
