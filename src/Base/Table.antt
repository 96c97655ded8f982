-- ===== src/Base/Table.antt =====
-- The SQL statements that the program sends to D1, over a table as a list of rows in no
-- particular order. A statement is one atomic step, as D1 documents.
use Prim.Native.Nat.{ℕ, ◌+◌}
use mathlib.Core.Path.{◌≡◌}
use mathlib.Core.Logic.{inl, inr}
use mathlib.Core.Bool.{Bool, true}
use mathlib.Core.List.{List, [], ◌∷◌}
use mathlib.Core.Option.{Option, some}
use native.Mathlib.Omega.{arith}
use ilist.Base.Tests.{if◌then◌else◌, Bool-cases}
use ilist.Base.Lists.{All, find_first}

module _ {A : Type 0} where
  -- `UPDATE … SET change WHERE test`, with `meta.changes`
  abbrev pub updated : (A → Bool) → (A → A) → List A → List A
  updated test change [] = []
  updated test change (r ∷ rs) = (if test r then change r else r) ∷ updated test change rs

  abbrev pub changes : (A → Bool) → List A → ℕ
  changes test [] = 0
  changes test (r ∷ rs) = (if test r then 1 else 0) + changes test rs

  abbrev pub update_where : (A → Bool) → (A → A) → List A → ℕ × List A
  update_where test change t = (changes test t, updated test change t)

  -- `DELETE FROM … WHERE test`, with `meta.changes`
  abbrev pub deleted : (A → Bool) → List A → List A
  deleted test [] = []
  deleted test (r ∷ rs) = if test r then deleted test rs else r ∷ deleted test rs

  abbrev pub delete_where : (A → Bool) → List A → ℕ × List A
  delete_where test t = (changes test t, deleted test t)

  -- `SELECT * … WHERE test`, its first row
  abbrev pub select_first : (A → Bool) → List A → Option A × List A
  select_first test t = (find_first test t, t)

  pub All-updated :
      (P : A → Type 0) (test : A → Bool) (change : A → A) (t : List A)
      → ((r : A) → P r → test r ≡ true → P (change r))
      → All P t
      → All P (updated test change t)
  All-updated P test change [] step h = tt
  All-updated P test change (r ∷ rs) step (p, h) = elim (Bool-cases (test r)) [
    | inl hit ↦ rw hit (step r p hit, All-updated P test change rs step h)
    | inr miss ↦ rw miss (p, All-updated P test change rs step h)
  ]

  pub All-deleted :
      (P : A → Type 0) (test : A → Bool) (t : List A) → All P t → All P (deleted test t)
  All-deleted P test [] h = tt
  All-deleted P test (r ∷ rs) (p, h) = elim (Bool-cases (test r)) [
    | inl hit ↦ rw hit (All-deleted P test rs h)
    | inr miss ↦ rw miss (p, All-deleted P test rs h)
  ]

  pub All-find_first :
      (P : A → Type 0) (test : A → Bool) (t : List A) {r : A}
      → All P t
      → find_first test t ≡ some r
      → P r × (test r ≡ true)
  All-find_first P test [] h e = cc
  All-find_first P test (x ∷ xs) {r} (p, h) e = elim (Bool-cases (test x)) [
    | inl hit ↦ let same : x ≡ r = ground arith in (rw (← same) p, rw (← same) hit)
    | inr miss ↦ All-find_first P test xs h (rw miss at e)
  ]
