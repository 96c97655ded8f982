-- ===== src/Upload/PartList/RoundTrip.antt =====
-- Writing the list of parts and reading it back.
use ilist.Base.{
  ℕ, ◌≤◌, ◌<◌, true, false, some, List, [], ◌∷◌, ◌++◌, ◌≡◌, ◌≢◌, refl, sym, arith, All, Bool-cases,
  inl, inr, ◌==◌, is_some,
}
use ilist.Base.Exec.{ok}
use ilist.Json.{Codec}
use ilist.Upload.Row.{CompletedUploadPart}
use ilist.Upload.Encode.{part_items, parts_json}
use ilist.Upload.Stored.{
  insert_part, sort_parts, collect_parts, parsed_parts, parse_parts, has_number, is_valid_part,
}
use ilist.Upload.Store.{found_part}
use ilist.Upload.Store.Parts.{next_parts}
use ilist.Upload.PartList.{
  IsIncreasing, AllValid, Lacks, IsDistinct, is_seen, is_completed_upload_part-part_json,
  sort_parts-IsIncreasing, All-sort_parts, Above-of_AllValid,
}

-- every number seen is at most `low`
abbrev AtMost : ℕ → List ℕ → Type 0
AtMost low seen = All (λ n. n ≤ low) seen

AtMost-mono : (a b : ℕ) (seen : List ℕ) → a ≤ b → AtMost a seen → AtMost b seen
AtMost-mono a b [] h k = tt
AtMost-mono a b (n ∷ seen) h (k, ks) = (omega arith, AtMost-mono a b seen h ks)

unseen_above :
    (low : ℕ) (seen : List ℕ) (p : CompletedUploadPart)
    → AtMost low seen
    → low < p.part_number
    → is_seen seen p ≡ false
unseen_above low [] p k h = refl
unseen_above low (n ∷ seen) p (k, ks) h = ground (arith, unseen_above low seen p ks h)

collect_parts-part_items :
    (low : ℕ) (seen : List ℕ) (ps : List CompletedUploadPart)
    → AtMost low seen
    → IsIncreasing low ps
    → AllValid ps
    → collect_parts seen (part_items ps) ≡ some ps
unfolding collect_parts part_items
collect_parts-part_items low seen [] k i v = refl
collect_parts-part_items low seen (p ∷ ps) k (h, i) (v, vs) = ground (
  arith,
  is_completed_upload_part-part_json p v,
  unseen_above low seen p k h,
  collect_parts-part_items p.part_number (p.part_number ∷ seen) ps
      (omega arith, AtMost-mono low p.part_number seen (omega arith) k) i vs,
)

insert_part-front :
    (low : ℕ) (p : CompletedUploadPart) (ps : List CompletedUploadPart)
    → low ≡ p.part_number
    → IsIncreasing low ps
    → insert_part p ps ≡ p ∷ ps
unfolding insert_part
insert_part-front low p [] e i = refl
insert_part-front low p (q ∷ ps) e (h, i) = ground arith

sort_parts-of_IsIncreasing :
    (low : ℕ) (ps : List CompletedUploadPart) → IsIncreasing low ps → sort_parts ps ≡ ps
unfolding sort_parts
sort_parts-of_IsIncreasing low [] i = refl
sort_parts-of_IsIncreasing low (p ∷ ps) (h, i) =
    rw (sort_parts-of_IsIncreasing p.part_number ps i) (insert_part-front p.part_number p ps refl i)

-- A list of valid parts with rising numbers that is written into `parts_json`, `parseParts` reads
-- back unchanged, if `JSON.parse` undoes `JSON.stringify` on that value.
pub parse_parts-stringify :
    (codec : Codec) (ps : List CompletedUploadPart)
    → codec.parse (codec.stringify (parts_json ps)) ≡ some (parts_json ps)
    → IsIncreasing 0 ps
    → AllValid ps
    → parse_parts codec (codec.stringify (parts_json ps)) ≡ ok ps
unfolding parse_parts parsed_parts parts_json
parse_parts-stringify codec ps e i v =
    rw (e, collect_parts-part_items 0 [] ps tt i v, sort_parts-of_IsIncreasing 0 ps i)

-- adding a part that is not there yet
pub Lacks-of_find :
    (n : ℕ) (ps : List CompletedUploadPart) → is_some (found_part n ps) ≡ false → Lacks n ps
unfolding has_number
Lacks-of_find n [] e = tt
Lacks-of_find n (p ∷ ps) e = elim (Bool-cases (p.part_number == n)) [
  | inl same ↦ absurd (ground arith)
  | inr other ↦ (ground arith, Lacks-of_find n ps (rw other at e))
]

IsIncreasing-Lacks :
    (n low : ℕ) (ps : List CompletedUploadPart) → n ≤ low → IsIncreasing low ps → Lacks n ps
IsIncreasing-Lacks n low [] h i = tt
IsIncreasing-Lacks n low (p ∷ ps) h (k, i) =
    (omega arith, IsIncreasing-Lacks n p.part_number ps (omega arith) i)

Lacks-snoc :
    (n : ℕ) (ps : List CompletedUploadPart) (p : CompletedUploadPart)
    → Lacks n ps
    → p.part_number ≢ n
    → Lacks n (ps ++ (p ∷ []))
Lacks-snoc n [] p h k = (k, tt)
Lacks-snoc n (q ∷ ps) p (h, hs) k = (h, Lacks-snoc n ps p hs k)

pub snoc-IsDistinct :
    (low : ℕ) (ps : List CompletedUploadPart) (p : CompletedUploadPart)
    → IsIncreasing low ps
    → Lacks p.part_number ps
    → IsDistinct (ps ++ (p ∷ []))
snoc-IsDistinct low [] p i l = (tt, tt)
snoc-IsDistinct low (q ∷ ps) p (h, i) (l, ls) = (
  Lacks-snoc q.part_number ps p (IsIncreasing-Lacks q.part_number q.part_number ps (omega arith) i)
      (λ e. l (sym e)),
  snoc-IsDistinct q.part_number ps p i ls,
)

snoc-AllValid :
    (ps : List CompletedUploadPart) (p : CompletedUploadPart)
    → AllValid ps
    → is_valid_part p ≡ true
    → AllValid (ps ++ (p ∷ []))
snoc-AllValid [] p h k = (k, tt)
snoc-AllValid (q ∷ ps) p (h, hs) k = (h, snoc-AllValid ps p hs k)

-- If the parts of a session are valid with rising numbers and the new part is valid, then the list
-- that `recordUploadPart` writes is valid with rising numbers again.
pub next_parts_sound :
    (ps : List CompletedUploadPart) (p : CompletedUploadPart)
    → IsIncreasing 0 ps
    → AllValid ps
    → is_valid_part p ≡ true
    → IsIncreasing 0 (next_parts ps p) × AllValid (next_parts ps p)
unfolding next_parts
next_parts_sound ps p i v h = elim (Bool-cases (is_some (found_part p.part_number ps))) [
  | inl there ↦ rw there (i, v)
  | inr new ↦
      let all = snoc-AllValid ps p v h in
      let distinct = snoc-IsDistinct 0 ps p i (Lacks-of_find p.part_number ps new) in
      rw new (
        sort_parts-IsIncreasing 0 (ps ++ (p ∷ [])) distinct
            (Above-of_AllValid (ps ++ (p ∷ [])) all),
        All-sort_parts (λ q. is_valid_part q ≡ true) (ps ++ (p ∷ [])) all,
      )
]
