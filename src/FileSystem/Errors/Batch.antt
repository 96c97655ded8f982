-- ===== src/FileSystem/Errors/Batch.antt =====
-- How a batch answers the ids of its request.
use ilist.Base.{
  ℕ, ◌+◌, String, not, List, [], ◌∷◌, ◌++◌, ◌≡◌, refl, inl, inr, arith, text_eq, eq_iff, keep,
  exists_in, if◌then◌else◌, Bool-cases,
}
use ilist.Base.Exec.{Exec, Failure, Result, ok, err, ◌>>=◌}
use ilist.FileSystem.Errors.{
  BatchResult, record_outcome, distinct_ids, batch_each, batch, empty_result,
}

abbrev pub count : String → List String → ℕ
count id [] = 0
count id (x ∷ xs) = (if text_eq x id then 1 else 0) + count id xs

abbrev failed_ids : List (String × String) → List String
failed_ids [] = []
failed_ids ((id, code) ∷ rest) = id ∷ failed_ids rest

-- how often a request that returned this answered an id
unfoldable pub answers : String → Result BatchResult → ℕ
answers id (ok result) = count id result.succeeded + count id (failed_ids result.failed)
answers id (err e) = 0

count-append : (id : String) (xs ys : List String) → count id (xs ++ ys) ≡ count id xs + count id ys
count-append id [] ys = omega arith
count-append id (x ∷ xs) ys = omega (arith, count-append id xs ys)

failed_append :
    (id : String) (xs ys : List (String × String))
    → count id (failed_ids (xs ++ ys)) ≡ count id (failed_ids xs) + count id (failed_ids ys)
failed_append id [] ys = omega arith
failed_append id ((x, c) ∷ xs) ys = omega (arith, failed_append id xs ys)

answers_record :
    {A : Type 0} (code : Failure → String) (id x : String) (result : BatchResult)
    (outcome : Result A)
    → answers id (ok (record_outcome code x result outcome))
      ≡ answers id (ok result) + (if text_eq x id then 1 else 0)
unfolding answers
answers_record code id x result (ok a) = omega (arith, count-append id result.succeeded (x ∷ []))
answers_record code id x result (err e) =
    omega (arith, failed_append id result.failed ((x, code e) ∷ []))

module _ {S A : Type 0} (body : String → Exec S A) (code : Failure → String) where
  answers-batch_each :
      (id : String) (ids : List String) (result : BatchResult) (s : S)
      → answers id (batch_each body code ids result s).0 ≡ answers id (ok result) + count id ids
  unfolding batch_each ◌>>=◌
  answers-batch_each id [] result s = omega arith
  answers-batch_each id (x ∷ ids) result s = omega (
    arith,
    answers-batch_each id ids (record_outcome code x result (body x s).0) (body x s).1,
    answers_record code id x result (body x s).0,
  )

count-keep :
    (id x : String) (xs : List String)
    → count id (keep (λ other. not (text_eq other x)) xs)
      ≡ (if text_eq x id then 0 else count id xs)
count-keep id x [] = elim (Bool-cases (text_eq x id)) [ inl e ↦ rw e | inr e ↦ rw e ]
count-keep id x (y ∷ xs) = elim (Bool-cases (text_eq y x)) [
  | inl hit ↦
      let same = (eq_iff y x).0 hit in
      let rest = count-keep id x xs in rw (hit, same) (ground (arith, rest))
  | inr miss ↦ elim (Bool-cases (text_eq x id)) [
    | inl here ↦
        let same = (eq_iff x id).0 here in
        let rest = count-keep id x xs in rw (miss) (ground (arith, rest))
    | inr other ↦ let rest = count-keep id x xs in ground (arith, rest)
  ]
]

count_distinct :
    (id : String) (ids : List String)
    → count id (distinct_ids ids) ≡ (if exists_in (λ x. text_eq x id) ids then 1 else 0)
unfolding distinct_ids
count_distinct id [] = refl
count_distinct id (x ∷ ids) =
    let rest = count_distinct id ids in
    let kept = count-keep id x (distinct_ids ids) in ground (arith, rest, kept)

-- A batch answers every id that was asked for exactly once, as succeeded or as failed, and no
-- other id, whatever the request does for an id and whether it throws.
pub batch-answers :
    {S A : Type 0} (body : String → Exec S A) (code : Failure → String) (id : String)
    (ids : List String) (s : S)
    → answers id (batch body code ids s).0 ≡ (if exists_in (λ x. text_eq x id) ids then 1 else 0)
unfolding batch answers
batch-answers body code id ids s = omega (
  arith,
  answers-batch_each body code id (distinct_ids ids) empty_result s,
  count_distinct id ids,
)
