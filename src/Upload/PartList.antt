-- ===== src/Upload/PartList.antt =====
-- The stored list of uploaded parts, as `parseParts` of worker/upload-session-store.ts reads it.
pub mod RoundTrip
pub mod Lookup
use ilist.Base.{
  ℕ, ◌+◌, ◌≤◌, ◌<◌, String, Bool, true, false, Option, none, some, List, [], ◌∷◌, ◌++◌, ◌≡◌, ◌≢◌,
  refl, arith, All, Bool-cases, Option-cases, inl, inr, if◌then◌else◌, leb, ◌==◌, ◌&&◌, exists_in,
  find_first, is_some, ◌||◌,
}
use ilist.Base.Maybe.{◌>>=◌}
use ilist.Base.Exec.{ok}
use ilist.Json.{Json, null, num, str, arr, obj, Items, nil, cons, Codec, get}
use ilist.Upload.Row.{CompletedUploadPart}
use ilist.Upload.Encode.{part_json, part_items, parts_json}
use ilist.Upload.Stored.{
  as_fields, safe_number, nullable_text, is_completed_upload_part, is_valid_part, insert_part,
  sort_parts, collect_parts, parsed_parts, or_invalid, parse_parts, has_number, is_safe_integer,
}

-- part numbers rise strictly from `low`
abbrev pub IsIncreasing : ℕ → List CompletedUploadPart → Type 0
IsIncreasing low [] = Unit
IsIncreasing low (p ∷ ps) = (low < p.part_number) × IsIncreasing p.part_number ps

abbrev pub Lacks : ℕ → List CompletedUploadPart → Type 0
Lacks n ps = All (λ q. q.part_number ≢ n) ps

abbrev pub IsDistinct : List CompletedUploadPart → Type 0
IsDistinct [] = Unit
IsDistinct (p ∷ ps) = Lacks p.part_number ps × IsDistinct ps

abbrev pub Above : ℕ → List CompletedUploadPart → Type 0
Above low ps = All (λ q. low < q.part_number) ps

abbrev pub AllValid : List CompletedUploadPart → Type 0
AllValid ps = All (λ q. is_valid_part q ≡ true) ps

All-insert_part :
    (P : CompletedUploadPart → Type 0) (p : CompletedUploadPart) (ps : List CompletedUploadPart)
    → P p
    → All P ps
    → All P (insert_part p ps)
unfolding insert_part
All-insert_part P p [] h k = (h, tt)
All-insert_part P p (q ∷ ps) h (k, ks) = elim (Bool-cases (leb p.part_number q.part_number)) [
  | inl before ↦ rw before (h, (k, ks))
  | inr after ↦ rw after (k, All-insert_part P p ps h ks)
]

pub All-sort_parts :
    (P : CompletedUploadPart → Type 0) (ps : List CompletedUploadPart)
    → All P ps
    → All P (sort_parts ps)
unfolding sort_parts
All-sort_parts P [] h = tt
All-sort_parts P (p ∷ ps) (h, hs) = All-insert_part P p (sort_parts ps) h (All-sort_parts P ps hs)

insert_part-IsIncreasing :
    (low : ℕ) (p : CompletedUploadPart) (ps : List CompletedUploadPart)
    → low < p.part_number
    → Lacks p.part_number ps
    → IsIncreasing low ps
    → IsIncreasing low (insert_part p ps)
unfolding insert_part
insert_part-IsIncreasing low p [] h l k = (h, tt)
insert_part-IsIncreasing low p (q ∷ ps) h (l, ls) (k, ks) =
    ground (arith, insert_part-IsIncreasing q.part_number p ps)

pub sort_parts-IsIncreasing :
    (low : ℕ) (ps : List CompletedUploadPart)
    → IsDistinct ps
    → Above low ps
    → IsIncreasing low (sort_parts ps)
unfolding sort_parts
sort_parts-IsIncreasing low [] d a = tt
sort_parts-IsIncreasing low (p ∷ ps) (l, d) (h, a) =
    insert_part-IsIncreasing low p (sort_parts ps) h
      (All-sort_parts (λ q. q.part_number ≢ p.part_number) ps l)
      (sort_parts-IsIncreasing low ps d a)

-- what the parser lets through
safe_number-checked :
    (v : Option Json) (least n : ℕ) → safe_number v least ≡ some n → is_safe_integer n least ≡ true
unfolding safe_number
safe_number-checked v least n e = ground arith

checked_part :
    (j : Json) (p : CompletedUploadPart)
    → is_completed_upload_part j ≡ some p
    → is_valid_part p ≡ true
unfolding is_completed_upload_part is_valid_part
checked_part (obj fs) p e = ground arith
checked_part _ p e = ground arith

-- the parser reads back what it was written from
is_completed_upload_part-part_json :
    (p : CompletedUploadPart)
    → is_valid_part p ≡ true
    → is_completed_upload_part (part_json p) ≡ some p
unfolding is_completed_upload_part part_json is_valid_part
is_completed_upload_part-part_json p h = ground arith

abbrev pub is_seen : List ℕ → CompletedUploadPart → Bool
is_seen seen q = exists_in (λ n. n == q.part_number) seen

abbrev IsUnseen : List ℕ → List CompletedUploadPart → Type 0
IsUnseen seen ps = All (λ q. is_seen seen q ≡ false) ps

IsUnseen-cons :
    (n : ℕ) (seen : List ℕ) (ps : List CompletedUploadPart)
    → IsUnseen (n ∷ seen) ps
    → Lacks n ps × IsUnseen seen ps
IsUnseen-cons n seen [] h = (tt, tt)
IsUnseen-cons n seen (p ∷ ps) (h, hs) =
    let (l, u) = IsUnseen-cons n seen ps hs in ((ground arith, l), (ground arith, u))

collect_parts_sound :
    (seen : List ℕ) (items : Items) (ps : List CompletedUploadPart)
    → collect_parts seen items ≡ some ps
    → IsDistinct ps × AllValid ps × IsUnseen seen ps
unfolding collect_parts
collect_parts_sound seen nil ps e = ground arith
collect_parts_sound seen (cons j rest) ps e = elim (Option-cases (is_completed_upload_part j)) [
  | inl bad ↦ absurd (ground arith)
  | inr (p, good) ↦ elim (Bool-cases (is_seen seen p)) [
    | inl again ↦ absurd (ground arith)
    | inr new ↦ elim (Option-cases (collect_parts (p.part_number ∷ seen) rest)) [
      | inl stuck ↦ absurd (ground arith)
      | inr (qs, more) ↦
          let (distinct, valid, unseen) = collect_parts_sound (p.part_number ∷ seen) rest qs more in
          let (lacks, unseen') = IsUnseen-cons p.part_number seen qs unseen in
          let same : p ∷ qs ≡ ps = ground arith in
          rw (← same) ((lacks, distinct), (checked_part j p good, valid), (new, unseen'))
    ]
  ]
]

Above-of_AllValid : (ps : List CompletedUploadPart) → AllValid ps → Above 0 ps
unfolding is_valid_part
Above-of_AllValid [] h = tt
Above-of_AllValid (p ∷ ps) (h, hs) = (ground arith, Above-of_AllValid ps hs)

parsed_parts_sound :
    (json : Option Json) (ps : List CompletedUploadPart)
    → parsed_parts json ≡ some ps
    → IsDistinct ps × AllValid ps
unfolding parsed_parts
parsed_parts_sound (some (arr items)) ps e =
    let (distinct, valid, _) = collect_parts_sound [] items ps e in (distinct, valid)
parsed_parts_sound none ps e = cc
parsed_parts_sound (some _) ps e = cc

-- Whatever text stands in `parts_json`, if `parseParts` accepts it then the parts that it gives
-- have rising, hence distinct, part numbers from 1 on, and numbers and sizes that are safe integers.
pub parse_parts_sound :
    (codec : Codec) (text : String) (ps : List CompletedUploadPart)
    → parse_parts codec text ≡ ok ps
    → IsIncreasing 0 ps × AllValid ps
unfolding parse_parts
parse_parts_sound codec text ps e = elim (Option-cases (parsed_parts (codec.parse text))) [
  | inl bad ↦ absurd (ground arith)
  | inr (qs, good) ↦
      let (distinct, valid) = parsed_parts_sound (codec.parse text) qs good in
      let same : sort_parts qs ≡ ps = ground arith in
      rw (← same) (
        sort_parts-IsIncreasing 0 qs distinct (Above-of_AllValid qs valid),
        All-sort_parts (λ q. is_valid_part q ≡ true) qs valid,
      )
]
