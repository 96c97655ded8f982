-- ===== src/FileSystem/Tree/Insert.antt =====
-- Trees after an INSERT of a new row under a row that is there, and after a move.
use ilist.Base.{
  String, true, false, some, List, [], ◌∷◌, ◌≡◌, refl, sym, ◌∙◌, inl, inr, arith, text_eq,
  find_first, exists_in, is_some, Bool-cases, eq_iff,
}
use ilist.FileSystem.Row.{EntryRow}
use ilist.FileSystem.Entries.{is_entry}
use ilist.FileSystem.Tree.{parent_of, IsTree, Rooted, top, under}

module _ (row : EntryRow) (t : List EntryRow) (p : String) where
  parent_of_other : (x : String) → text_eq row.id x ≡ false → parent_of (row ∷ t) x ≡ parent_of t x
  unfolding parent_of
  parent_of_other x e = rw e

  parent_of_new :
      (x : String)
      → text_eq row.id x ≡ true
      → row.parent_id ≡ some p
      → parent_of (row ∷ t) x ≡ some p
  unfolding parent_of
  parent_of_new x e named = rw e named

  is_some_insert :
      (x : String)
      → is_some (find_first (is_entry x) t) ≡ true
      → is_some (find_first (is_entry x) (row ∷ t)) ≡ true
  is_some_insert x e = ground arith

  module _ (fresh : exists_in (is_entry row.id) t ≡ false) (h : IsTree t) where
    absent :
        (t : List EntryRow)
        → exists_in (is_entry row.id) t ≡ false
        → is_some (find_first (is_entry row.id) t) ≡ false
    absent [] e = refl
    absent (r ∷ t) e = let rest = absent t (ground arith) in ground arith

    -- an id that is there, or that is not the new one
    Rooted-elsewhere : (x : String) → text_eq row.id x ≡ false → Rooted t x → Rooted (row ∷ t) x
    Rooted-elsewhere x e (top f) = top (parent_of_other x e ∙ f)
    Rooted-elsewhere x e (under {parent_id = q} f up) = elim (Bool-cases (text_eq row.id q)) [
      | inl hit ↦
          let there = h.closed x q f in
          let gone = absent t fresh in let same = (eq_iff row.id q).0 hit in absurd (ground arith)
      | inr miss ↦ under (parent_of_other x e ∙ f) (Rooted-elsewhere q miss up)
    ]

    module _ (named : row.parent_id ≡ some p)
        (there : is_some (find_first (is_entry p) t) ≡ true) where
      other_parent : text_eq row.id p ≡ false
      other_parent = elim (Bool-cases (text_eq row.id p)) [
        | inl hit ↦
            let gone = absent t fresh in let same = (eq_iff row.id p).0 hit in absurd (ground arith)
        | inr miss ↦ miss
      ]

      Rooted-extended : (x : String) → Rooted (row ∷ t) x
      Rooted-extended x = elim (Bool-cases (text_eq row.id x)) [
        | inl hit ↦ under (parent_of_new x hit named) (Rooted-elsewhere p other_parent (h.rooted p))
        | inr miss ↦ Rooted-elsewhere x miss (h.rooted x)
      ]

      closed_insert :
          (x q : String)
          → parent_of (row ∷ t) x ≡ some q
          → is_some (find_first (is_entry q) (row ∷ t)) ≡ true
      closed_insert x q e = elim (Bool-cases (text_eq row.id x)) [
        | inl hit ↦
            let same : p ≡ q = ground (arith, parent_of_new x hit named) in
            is_some_insert q (rw same at there)
        | inr miss ↦ is_some_insert q (h.closed x q (sym (parent_of_other x miss) ∙ e))
      ]

      pub IsTree-insert : IsTree (row ∷ t)
      IsTree-insert = record {
        distinct = (fresh, h.distinct);
        closed = closed_insert;
        rooted = Rooted-extended;
      }
