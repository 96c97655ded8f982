-- ===== src/Queue/PartSet.antt =====
-- The list of confirmed parts of a task, `uploadedParts` of ui/features/uploads/upload-reducer.ts.
use ilist.Base.{
  ℕ, ◌<◌, Bool, true, false, Option, List, [], ◌∷◌, ◌++◌, ◌≡◌, refl, ◌∙◌, arith, inl, inr, ◌||◌,
  ◌==◌, leb, Bool-cases, exists_in,
}
use ilist.Queue.Reducer.{given, insert_number, sort_numbers, distinct, confirmed}

abbrev pub has : ℕ → List ℕ → Bool
has k ns = exists_in (λ m. m == k) ns

-- the numbers rise, and the first is above `n`
abbrev pub IsRisingFrom : ℕ → List ℕ → Type 0
IsRisingFrom n [] = Unit {0}
IsRisingFrom n (m ∷ ms) = (n < m) × IsRisingFrom m ms

abbrev pub IsRising : List ℕ → Type 0
IsRising [] = Unit {0}
IsRising (m ∷ ms) = IsRisingFrom m ms

abbrev NoRepeat : List ℕ → Type 0
NoRepeat [] = Unit {0}
NoRepeat (n ∷ ns) = (has n ns ≡ false) × NoRepeat ns

same_has :
    (k n : ℕ) (ns : List ℕ)
    → has n (distinct ns) ≡ true
    → has k (distinct ns) ≡ has k ns
    → has k (distinct ns) ≡ has k (n ∷ ns)
same_has k n ns there ih = elim (Bool-cases (n == k)) [
  | inl e ↦ let same : n ≡ k = ground arith in rw (e, ← same) there
  | inr e ↦ rw (e, ih) refl
]

distinct-has : (k : ℕ) (ns : List ℕ) → has k (distinct ns) ≡ has k ns
unfolding distinct
distinct-has k [] = refl
distinct-has k (n ∷ ns) =
    let ih = distinct-has k ns in
    elim (Bool-cases (has n (distinct ns))) [
      | inl there ↦ rw there (same_has k n ns there ih)
      | inr new ↦ rw (new, ih) refl
    ]

distinct-NoRepeat : (ns : List ℕ) → NoRepeat (distinct ns)
unfolding distinct
distinct-NoRepeat [] = tt
distinct-NoRepeat (n ∷ ns) = elim (Bool-cases (has n (distinct ns))) [
  | inl there ↦ rw there (distinct-NoRepeat ns)
  | inr new ↦ rw new (new, distinct-NoRepeat ns)
]

insert_number-has : (k n : ℕ) (ns : List ℕ) → has k (insert_number n ns) ≡ has k (n ∷ ns)
unfolding insert_number
insert_number-has k n [] = refl
insert_number-has k n (m ∷ ms) = let ih = insert_number-has k n ms in ground (arith, ih)

sort_numbers-has : (k : ℕ) (ns : List ℕ) → has k (sort_numbers ns) ≡ has k ns
unfolding sort_numbers
sort_numbers-has k [] = refl
sort_numbers-has k (n ∷ ns) =
    let ih = sort_numbers-has k ns in
    let one = insert_number-has k n (sort_numbers ns) in ground arith

insert_number-IsRisingFrom :
    (low n : ℕ) (ns : List ℕ)
    → low < n
    → IsRisingFrom low ns
    → has n ns ≡ false
    → IsRisingFrom low (insert_number n ns)
unfolding insert_number
insert_number-IsRisingFrom low n [] l r h = (l, tt)
insert_number-IsRisingFrom low n (m ∷ ms) l (b, r) h = elim (Bool-cases (leb n m)) [
  | inl below ↦ rw below (l, (ground arith, r))
  | inr above ↦ rw above (b, insert_number-IsRisingFrom m n ms (ground arith) r (ground arith))
]

insert_number-IsRising :
    (n : ℕ) (ns : List ℕ) → IsRising ns → has n ns ≡ false → IsRising (insert_number n ns)
unfolding insert_number
insert_number-IsRising n [] r h = tt
insert_number-IsRising n (m ∷ ms) r h = elim (Bool-cases (leb n m)) [
  | inl below ↦ rw below (ground arith, r)
  | inr above ↦ rw above (insert_number-IsRisingFrom m n ms (ground arith) r (ground arith))
]

sort_numbers-IsRising : (ns : List ℕ) → NoRepeat ns → IsRising (sort_numbers ns)
unfolding sort_numbers
sort_numbers-IsRising [] h = tt
sort_numbers-IsRising (n ∷ ns) (h, more) =
    insert_number-IsRising n (sort_numbers ns) (sort_numbers-IsRising ns more)
      (sort_numbers-has n ns ∙ h)

append-has : (k n : ℕ) (ns : List ℕ) → has k (ns ++ (n ∷ [])) ≡ (has k ns || (n == k))
append-has k n [] = ground arith
append-has k n (m ∷ ms) = let ih = append-has k n ms in ground arith

-- Confirming part `n` adds it to the parts and nothing else, and leaves them in rising order
-- without repetition, whatever the list was before.
pub confirmed-IsRising :
    (parts : Option (List ℕ)) (n k : ℕ)
    → IsRising (confirmed parts n)
      × (has k (confirmed parts n) ≡ (has k (given parts []) || (n == k)))
unfolding confirmed
confirmed-IsRising parts n k = (
  sort_numbers-IsRising _ (distinct-NoRepeat (given parts [] ++ (n ∷ []))),
  sort_numbers-has k _ ∙ distinct-has k _ ∙ append-has k n (given parts []),
)
