-- ===== src/Upload/PartList/Lookup.antt =====
-- The parts of a session before and after `recordUploadPart`, by number.
use ilist.Base.{
  ℕ, some, List, [], ◌∷◌, ◌++◌, ◌≡◌, ◌≢◌, refl, arith, Bool-cases, inl, inr, if◌then◌else◌, ◌==◌,
  is_some,
}
use ilist.Upload.Row.{CompletedUploadPart}
use ilist.Upload.Stored.{insert_part, sort_parts, has_number}
use ilist.Upload.Store.{found_part}
use ilist.Upload.Store.Parts.{next_parts}
use ilist.Upload.PartList.{IsIncreasing, Lacks, IsDistinct, All-sort_parts}
use ilist.Upload.PartList.RoundTrip.{Lacks-of_find, snoc-IsDistinct}

found_part-insert_part :
    (n : ℕ) (p : CompletedUploadPart) (ps : List CompletedUploadPart)
    → Lacks p.part_number ps
    → found_part n (insert_part p ps) ≡ (if p.part_number == n then some p else found_part n ps)
unfolding insert_part has_number
found_part-insert_part n p [] l = refl
found_part-insert_part n p (q ∷ ps) (l, ls) = ground (arith, found_part-insert_part n p ps ls)

found_part-sort_parts :
    (n : ℕ) (ps : List CompletedUploadPart)
    → IsDistinct ps
    → found_part n (sort_parts ps) ≡ found_part n ps
unfolding sort_parts has_number
found_part-sort_parts n [] d = refl
found_part-sort_parts n (p ∷ ps) (l, d) = ground (
  arith,
  found_part-insert_part n p (sort_parts ps)
      (All-sort_parts (λ q. q.part_number ≢ p.part_number) ps l),
  found_part-sort_parts n ps d,
)

found_part-snoc :
    (n : ℕ) (ps : List CompletedUploadPart) (p : CompletedUploadPart)
    → Lacks p.part_number ps
    → found_part n (ps ++ (p ∷ [])) ≡ (if p.part_number == n then some p else found_part n ps)
unfolding has_number
found_part-snoc n [] p l = refl
found_part-snoc n (q ∷ ps) p (l, ls) = ground (arith, found_part-snoc n ps p ls)

-- If the part numbers rise, then in the list that `recordUploadPart` writes the part with the
-- recorded number is the one that was there before, or else the new one, and the part with any
-- other number is the one that was there before.
pub found_part-next_parts :
    (n : ℕ) (ps : List CompletedUploadPart) (p : CompletedUploadPart)
    → IsIncreasing 0 ps
    → found_part n (next_parts ps p) ≡ (
        if p.part_number == n
        then (if is_some (found_part n ps) then found_part n ps else some p)
        else found_part n ps)
unfolding next_parts
found_part-next_parts n ps p i = elim (Bool-cases (is_some (found_part p.part_number ps))) [
  | inl there ↦ ground arith
  | inr new ↦
      let lacks = Lacks-of_find p.part_number ps new in
      ground (
        arith,
        found_part-sort_parts n (ps ++ (p ∷ [])) (snoc-IsDistinct 0 ps p i lacks),
        found_part-snoc n ps p lacks,
      )
]
