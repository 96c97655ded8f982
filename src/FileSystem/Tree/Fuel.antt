-- ===== src/FileSystem/Tree/Fuel.antt =====
-- How many steps a walk from parent to parent takes.
use ilist.Base.{
  ℕ, zero, suc, ◌≤◌, ◌<◌, String, Bool, true, false, Option, none, some, List, [], ◌∷◌, ◌≡◌, ◌≢◌,
  refl, sym, ◌∙◌, ap, inl, inr, arith, text_eq, is_some, Bool-cases, Option-cases, ◌&&◌, eq_iff,
  length,
}
use ilist.Base.Table.{deleted}
use ilist.FileSystem.Row.{EntryRow}
use ilist.FileSystem.Entries.{is_entry}
use ilist.FileSystem.Tree.{
  parent_in, parent_of, is_beneath, AreDistinct, IsTree, Rooted, top, under,
}
use ilist.FileSystem.Tree.Delete.{find_first-deleted, AreDistinct-deleted, Rooted-deleted}

module _ (t : List EntryRow) where
  abbrev pub parent_at : Option String → Option String
  parent_at none = none
  parent_at (some x) = parent_of t x

  -- `k` steps up
  unfoldable pub ancestor : ℕ → String → Option String
  ancestor zero x = some x
  ancestor (suc k) x = parent_at (ancestor k x)

  pub ancestor-parent_of :
      (k : ℕ) (x p : String) → parent_of t x ≡ some p → ancestor (suc k) x ≡ ancestor k p
  unfolding ancestor
  ancestor-parent_of zero x p e = e
  ancestor-parent_of (suc k) x p e = ap parent_at (ancestor-parent_of k x p e)

  pub ancestor-none : (k : ℕ) (x : String) → parent_of t x ≡ none → ancestor (suc k) x ≡ none
  unfolding ancestor
  ancestor-none zero x e = e
  ancestor-none (suc k) x e = ap parent_at (ancestor-none k x e)

  -- nothing is its own ancestor
  no_loop : (k : ℕ) (x : String) → Rooted t x → ancestor (suc k) x ≡ some x → ⊥
  unfolding ancestor
  no_loop k x (top e) f = let g = ancestor-none k x e in absurd (cc)
  no_loop k x (under {parent_id = p} e up) f =
      no_loop k p up (sym (ancestor-parent_of (suc k) x p e) ∙ (ap parent_at f ∙ e))

  module _ (x : String) where
    abbrev without : List EntryRow
    without = deleted (λ r. is_entry x r && true) t

    parent_of-without : (y : String) → text_eq y x ≡ false → parent_of without y ≡ parent_of t y
    unfolding parent_of
    parent_of-without y e = ap parent_in (find_first-deleted x (λ r. true) y t e)

    is_beneath-without :
        (n : ℕ) (target y : String)
        → ((k : ℕ) → ancestor k y ≢ some x)
        → is_beneath n without target y ≡ is_beneath n t target y
    unfolding is_beneath ancestor
    is_beneath-without zero target y apart = refl
    is_beneath-without (suc n) target y apart =
        let other : text_eq y x ≡ false = elim (Bool-cases (text_eq y x)) [
          | inl hit ↦ absurd (apart 0 (ap some ((eq_iff y x).0 hit)))
          | inr miss ↦ miss
        ] in
        elim (Option-cases (parent_of t y)) [
          | inl none_above ↦ rw (parent_of-without y other, none_above)
          | inr (p, above) ↦ rw (
            parent_of-without y other,
            above,
            is_beneath-without n target p
                (λ k e. apart (suc k) (ancestor-parent_of k y p above ∙ e)),
          )
        ]

deleted_within : (test : EntryRow → Bool) (t : List EntryRow) → length (deleted test t) ≤ length t
deleted_within test [] = omega arith
deleted_within test (r ∷ t) = let rest = deleted_within test t in ground arith

without_shorter :
    (x p : String) (t : List EntryRow) → parent_of t x ≡ some p → length (without t x) < length t
unfolding parent_of
without_shorter x p [] e = cc
without_shorter x p (r ∷ t) e = elim (Bool-cases (text_eq r.id x)) [
  | inl hit ↦
      let rest = deleted_within (λ r. is_entry x r && true) t in rw hit (omega (arith, rest))
  | inr miss ↦ let rest = without_shorter x p t (rw miss at e) in rw miss (omega (arith, rest))
]

Rooted-parent_of :
    (t : List EntryRow) (x p : String) → Rooted t x → parent_of t x ≡ some p → Rooted t p
Rooted-parent_of t x p (top e) f = absurd (cc)
Rooted-parent_of t x p (under {parent_id = q} e up) f =
    let same : q ≡ p = ground arith in rw (← same) up

apart_from :
    (t : List EntryRow) (x p : String) (k : ℕ)
    → Rooted t x
    → parent_of t x ≡ some p
    → ancestor t k p ≢ some x
apart_from t x p k r above e = no_loop t k x r (ancestor-parent_of t k x p above ∙ e)

is_beneath_ending :
    (n : ℕ) (t : List EntryRow) (target x : String)
    → parent_of t x ≡ none
    → is_some (is_beneath (suc n) t target x) ≡ true
unfolding is_beneath
is_beneath_ending n t target x e = rw e (ground arith)

is_beneath_going :
    (n : ℕ) (t : List EntryRow) (target x p : String)
    → parent_of t x ≡ some p
    → is_some (is_beneath n t target p) ≡ true
    → is_some (is_beneath (suc n) t target x) ≡ true
unfolding is_beneath
is_beneath_going n t target x p e h = rw e (ground arith)

is_beneath_ends :
    (n : ℕ) (t : List EntryRow) (target x : String)
    → length t ≤ n
    → AreDistinct t
    → Rooted t x
    → is_some (is_beneath (suc n) t target x) ≡ true
is_beneath_ends zero t target x few h r = elim (Option-cases (parent_of t x)) [
  | inl none_above ↦ is_beneath_ending zero t target x none_above
  | inr (p, above) ↦ absurd (omega (arith, few, without_shorter x p t above))
]
is_beneath_ends (suc n) t target x few h r = elim (Option-cases (parent_of t x)) [
  | inl none_above ↦ is_beneath_ending (suc n) t target x none_above
  | inr (p, above) ↦
      let shorter : length (without t x) ≤ n = omega (arith, few, without_shorter x p t above) in
      let rest =
        is_beneath_ends n (without t x) target p shorter
          (AreDistinct-deleted (λ r. is_entry x r && true) t h)
          (Rooted-deleted x (λ r. true) t p h (Rooted-parent_of t x p r above)) in
      let walk = is_beneath-without t x (suc n) target p (λ k. apart_from t x p k r above) in
      is_beneath_going (suc n) t target x p above (rw walk at rest)
]

-- as many steps as the table has rows, and one, decide whether an entry lies beneath another
pub is_beneath-length :
    (t : List EntryRow) (target id : String)
    → IsTree t
    → is_some (is_beneath (suc (length t)) t target id) ≡ true
is_beneath-length t target id h =
    is_beneath_ends (length t) t target id (omega arith) h.distinct (h.rooted id)
