-- ===== src/Upload/Service/Tiling.antt =====
-- The ranges of the parts of a session in worker/upload-service.ts.
use ilist.Base.{
  ℕ, zero, suc, ◌+◌, ◌-◌, ◌*◌, ◌≤◌, ◌<◌, min, true, List, [], ◌∷◌, ◌≡◌, ap, arith, length,
}
use ilist.Base.Exec.{ok}
use ilist.Upload.Row.{CompletedUploadPart, UploadSessionRecord}
use ilist.Upload.Service.Parts.{
  ExpectedPart, expected_part, part_count, parts_fit, require_complete_parts,
}

-- the sum that `toSessionView` reports as `uploadedBytes`
unfoldable pub uploaded_bytes : List CompletedUploadPart → ℕ
uploaded_bytes [] = 0
uploaded_bytes (part ∷ parts) = part.size + uploaded_bytes parts

part_count_bounds :
    (size part_size : ℕ)
    → 0 < part_size
    → (size ≤ part_count size part_size * part_size)
      × (part_count size part_size * part_size < size + part_size)
unfolding part_count
part_count_bounds size part_size h = grind arith

parts_fit_sum :
    (size part_size index : ℕ) (parts : List CompletedUploadPart)
    → 0 < part_size
    → index + length parts ≡ part_count size part_size
    → parts_fit size part_size index parts ≡ true
    → uploaded_bytes parts ≡ size - index * part_size
unfolding parts_fit uploaded_bytes
parts_fit_sum size part_size index [] pos n f =
    omega (arith, (part_count_bounds size part_size pos).0, ap (λ (t : ℕ). t * part_size) n)
parts_fit_sum size part_size index (part ∷ parts) pos n f =
    ground (arith, parts_fit_sum size part_size (index + 1) parts pos (omega arith))

-- An upload that passes `requireCompleteParts`, with a part size above 0, has stored exactly as
-- many bytes as the file has.
pub require_complete_parts-uploaded_bytes :
    (r : UploadSessionRecord)
    → 0 < r.part_size
    → require_complete_parts r ≡ ok tt
    → uploaded_bytes r.parts ≡ r.size
unfolding require_complete_parts
require_complete_parts-uploaded_bytes r pos e =
    ground (arith, parts_fit_sum r.size r.part_size 0 r.parts pos)

-- what `expectedPart` gives when it does not throw
record IsPart (r : UploadSessionRecord) (n : ℕ) (p : ExpectedPart) : Type 0 where
  at_least : 1 ≤ n
  at_most : n ≤ part_count r.size r.part_size
  offset : p.offset ≡ (n - 1) * r.part_size
  size : p.size ≡ min r.part_size (r.size - (n - 1) * r.part_size)

expected_part-IsPart :
    (r : UploadSessionRecord) (n : ℕ) (p : ExpectedPart) → expected_part r n ≡ ok p → IsPart r n p
unfolding expected_part
expected_part-IsPart r n p e = record {
  at_least = ground arith;
  at_most = ground arith;
  offset = ground arith;
  size = ground arith;
}

add_sub_one : (k : ℕ) → (k + 1) - 1 ≡ k
add_sub_one k = omega arith

pred_mul : (n k : ℕ) → 1 ≤ n → n * k ≡ (n - 1) * k + k
pred_mul zero k h = absurd (omega arith)
pred_mul (suc m) k h = let e : suc m - 1 ≡ m = omega arith in rw e (omega arith)

before_end :
    (size part_size n : ℕ)
    → 0 < part_size
    → 1 ≤ n
    → n ≤ part_count size part_size
    → (n - 1) * part_size < size
before_end size part_size n pos low high =
    let bounds = part_count_bounds size part_size pos in
    let below : n * part_size ≤ part_count size part_size * part_size = grind arith in
    omega (arith, bounds.1, pred_mul n part_size low)

-- With a part size above 0, a part that `expectedPart` gives lies within the file, is not empty
-- and is no longer than the part size.
pub expected_part_within :
    (r : UploadSessionRecord) (n : ℕ) (p : ExpectedPart)
    → 0 < r.part_size
    → expected_part r n ≡ ok p
    → (p.offset + p.size ≤ r.size) × (0 < p.size) × (p.size ≤ r.part_size)
expected_part_within r n p pos e =
    let is = expected_part-IsPart r n p e in
    let near = before_end r.size r.part_size n pos is.at_least is.at_most in
    omega (arith, is.offset, is.size, near)

-- With a part size above 0 the parts lie one behind the other: part n + 1 begins where part n
-- ends, if `expectedPart` gives both.
expected_part_next :
    (r : UploadSessionRecord) (n : ℕ) (p q : ExpectedPart)
    → 0 < r.part_size
    → expected_part r n ≡ ok p
    → expected_part r (n + 1) ≡ ok q
    → q.offset ≡ p.offset + p.size
expected_part_next r n p q pos e f =
    let is = expected_part-IsPart r n p e in
    let next = expected_part-IsPart r (n + 1) q f in
    let near = before_end r.size r.part_size (n + 1) pos next.at_least next.at_most in
    omega (
      arith,
      is.offset,
      is.size,
      next.offset,
      near,
      pred_mul n r.part_size is.at_least,
      ap (λ (t : ℕ). t * r.part_size) (add_sub_one n),
    )
