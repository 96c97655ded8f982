-- ===== src/FileSystem/Tree/Keep.antt =====
-- What a change of the table leaves of its tree.
use ilist.Base.{
  ℕ, zero, suc, String, false, some, List, ◌≡◌, inl, inr, arith, text_eq, Bool-cases, Option-cases,
  eq_iff, ◌∙◌,
}
use ilist.Base.{find_first, true, [], ◌∷◌}
use ilist.FileSystem.Entries.{is_entry}
use ilist.FileSystem.Row.{EntryRow}
use ilist.FileSystem.Tree.{parent_of, is_beneath, Rooted, top, under}

-- a new table in which only `id` may have another parent, one that is not beneath `id`
module _ (t u : List EntryRow) (id : String) where
  module _ (same : (x : String) → text_eq x id ≡ false → parent_of u x ≡ parent_of t x) where
    pub Rooted-is_beneath : (n : ℕ) (x : String) → is_beneath n t id x ≡ some false → Rooted u x
    unfolding is_beneath
    Rooted-is_beneath zero x e = cc
    Rooted-is_beneath (suc n) x e = elim (Bool-cases (text_eq x id)) [
      | inl hit ↦ absurd (ground arith)
      | inr miss ↦ elim (Option-cases (parent_of t x)) [
        | inl none_above ↦ top (same x miss ∙ none_above)
        | inr (p, above) ↦
            under (same x miss ∙ above) (Rooted-is_beneath n p (rw (miss, above) at e))
      ]
    ]

    pub Rooted-changed : Rooted u id → (x : String) → Rooted t x → Rooted u x
    Rooted-changed r x (top e) = elim (Bool-cases (text_eq x id)) [
      | inl hit ↦ rw ((eq_iff x id).0 hit) r
      | inr miss ↦ top (same x miss ∙ e)
    ]
    Rooted-changed r x (under e up) = elim (Bool-cases (text_eq x id)) [
      | inl hit ↦ rw ((eq_iff x id).0 hit) r
      | inr miss ↦ under (same x miss ∙ e) (Rooted-changed r _ up)
    ]

pub Rooted-same :
    (t u : List EntryRow)
    → ((x : String) → parent_of u x ≡ parent_of t x)
    → (x : String) → Rooted t x
    → Rooted u x
Rooted-same t u same x (top e) = top (same x ∙ e)
Rooted-same t u same x (under e up) = under (same x ∙ e) (Rooted-same t u same _ up)

pub found_id :
    (x : String) (t : List EntryRow) (r : EntryRow)
    → find_first (is_entry x) t ≡ some r
    → text_eq r.id x ≡ true
found_id x [] r e = cc
found_id x (q ∷ t) r e = elim (Bool-cases (text_eq q.id x)) [
  | inl hit ↦ let same : q ≡ r = ground arith in rw same at hit
  | inr miss ↦ found_id x t r (rw miss at e)
]
