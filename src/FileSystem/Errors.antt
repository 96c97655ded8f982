-- ===== src/FileSystem/Errors.antt =====
-- The errors of worker/file-system.ts, and the results of its batches.
pub mod Batch
use Prim.Native.String.{String}
use ilist.Base.{
  ℕ, zero, suc, Bool, true, false, not, List, [], ◌∷◌, ◌++◌, ◌&&◌, ◌||◌, ◌==◌, text_eq, keep,
  if◌then◌else◌,
}
use ilist.Base.Exec.{
  Exec, Failure, failure, http_error, s3_error, rate_limited, Result, ok, err, pure, attempt, ◌>>=◌,
}
use ilist.FileSystem.Names.{codes}
use ilist.FileSystem.Store.{unique_id, unique_name}

abbrev starts_with : List ℕ → List ℕ → Bool
starts_with [] ys = true
starts_with (x ∷ xs) [] = false
starts_with (x ∷ xs) (y ∷ ys) = x == y && starts_with xs ys

abbrev pub includes_codes : List ℕ → List ℕ → Bool
includes_codes [] pattern_codes = starts_with pattern_codes []
includes_codes (c ∷ cs) pattern_codes =
    starts_with pattern_codes (c ∷ cs) || includes_codes cs pattern_codes

-- `message.includes(constraint)`; the failures here have no cause
unfoldable pub has_unique_constraint : Failure → String → Bool
has_unique_constraint (failure message) constraint_text =
    includes_codes (codes message) (codes constraint_text)
has_unique_constraint _ constraint_text = false

unfoldable pub entry_name_conflict : Failure → Bool
unfolding has_unique_constraint
entry_name_conflict e = has_unique_constraint e unique_name

unfoldable pub entry_id_conflict : Failure → Bool
unfolding has_unique_constraint
entry_id_conflict e = has_unique_constraint e unique_id

abbrev pub name_conflict : Failure
name_conflict = http_error 409 "ENTRY_NAME_CONFLICT"

-- `entryNameConflict(error, name) ?? error`
unfoldable pub or_name_conflict : Failure → Failure
unfolding entry_name_conflict
or_name_conflict e = if entry_name_conflict e then name_conflict else e

abbrev pub entry_not_found : Failure
entry_not_found = http_error 404 "ENTRY_NOT_FOUND"

abbrev pub mutation_conflict : Failure
mutation_conflict = http_error 409 "ENTRY_MUTATION_CONFLICT"

abbrev pub upload_in_progress : Failure
upload_in_progress = http_error 409 "UPLOAD_IN_PROGRESS"

abbrev pub entry_id_taken : Failure
entry_id_taken = http_error 409 "ENTRY_ID_CONFLICT"

abbrev pub delete_in_progress : Failure
delete_in_progress = http_error 409 "ENTRY_DELETE_IN_PROGRESS"

abbrev pub storage_failed : Failure
storage_failed = http_error 502 "STORAGE_OPERATION_FAILED"

-- the code of an HttpError, or else this one
abbrev pub known_code : String → Failure → String
known_code default (http_error status code) = code
known_code default (rate_limited seconds) = "AUTH_RATE_LIMITED"
known_code default _ = default

-- with a conflict of names made an HttpError first
unfoldable pub known_or_conflict : String → Failure → String
unfolding or_name_conflict
known_or_conflict default e = known_code default (or_name_conflict e)

-- each failed id with the code of its error
pub record BatchResult : Type 0 where
  pub succeeded : List String
  pub failed : List (String × String)

abbrev pub empty_result : BatchResult
empty_result = record { succeeded = []; failed = [] }

-- a request finds its row by the id, so that `row.id` is that id
abbrev pub record_outcome :
    {A : Type 0} → (Failure → String) → String → BatchResult → Result A → BatchResult
record_outcome code id result (ok _) = record result { succeeded = result.succeeded ++ (id ∷ []) }
record_outcome code id result (err e) = record result {
  failed = result.failed ++ ((id, code e) ∷ []);
}

-- `[...new Set(ids)]`
unfoldable pub distinct_ids : List String → List String
distinct_ids [] = []
distinct_ids (id ∷ ids) = id ∷ keep (λ other. not (text_eq other id)) (distinct_ids ids)

module _ {S A : Type 0} (body : String → Exec S A) (code : Failure → String) where
  unfoldable pub batch_each : List String → BatchResult → Exec S BatchResult
  batch_each [] result = pure result
  batch_each (id ∷ ids) result = do
    outcome ← attempt (body id)
    batch_each ids (record_outcome code id result outcome)

  -- the loop of `moveEntries`, `copyEntries`, `setEntriesVisibility` and `deleteEntryTrees`
  unfoldable pub batch : List String → Exec S BatchResult
  unfolding batch_each distinct_ids
  batch ids = batch_each (distinct_ids ids) empty_result
