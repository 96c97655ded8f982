-- ===== src/Upload/Run/Invariant.antt =====
-- `assertStoredRow` in runs of the statements of worker/upload-session-store.ts.
use ilist.Base.{List, [], ◌∷◌, ◌≡◌, true, arith, All, Bool-cases, inl, inr}
use ilist.Upload.Row.{UploadSessionRow}
use ilist.Upload.Check.{is_stored_row}
use ilist.Upload.Statements.{
  may_claim_part, set_part_claim, holds_part_claim, unchanged_since, set_part, clear_part_claim,
  may_claim_terminal, set_terminal_claim, may_complete, set_completed, may_release_terminal,
  set_released, may_abort, set_aborted, may_touch, set_touched,
}
use ilist.Upload.Row.{complete, abort}
use ilist.Upload.Run.{
  Statement, claim_part, record_part, release_part, claim_terminal, complete_session,
  release_terminal, mark_aborted, touch, accepts, admits, change, apply, run,
}

-- the row passes `assertStoredRow`
abbrev pub IsStored : UploadSessionRow → Type 0
IsStored row = is_stored_row row ≡ true

change-IsStored :
    (s : Statement) (row : UploadSessionRow)
    → accepts s ≡ true
    → admits s row ≡ true
    → IsStored row
    → IsStored (change s row)
unfolding accepts admits change is_stored_row may_claim_part set_part_claim holds_part_claim
    unchanged_since set_part clear_part_claim may_claim_terminal set_terminal_claim may_complete
    set_completed may_release_terminal set_released may_abort set_aborted may_touch set_touched
change-IsStored (claim_part n expires now) row a g h = ground arith
change-IsStored (record_part read cipher parts item n expires now) row a g h = ground arith
change-IsStored (release_part n expires now) row a g h = ground arith
change-IsStored (claim_terminal complete owner expires now) row a g h = ground arith
change-IsStored (claim_terminal abort owner expires now) row a g h = ground arith
change-IsStored (complete_session owner expires item now) row a g h = ground arith
change-IsStored (release_terminal op owner expires now) row a g h = ground arith
change-IsStored (mark_aborted owner expires now) row a g h = ground arith
change-IsStored (touch at) row a g h = ground arith

pub apply-IsStored :
    (s : Statement) (row : UploadSessionRow)
    → accepts s ≡ true
    → IsStored row
    → IsStored (apply s row)
unfolding apply
apply-IsStored s row a h = elim (Bool-cases (admits s row)) [
  | inl hit ↦ rw hit (change-IsStored s row a hit h)
  | inr miss ↦ rw miss h
]

-- A row that passes `assertStoredRow` passes it after any run of statements, of any requests in
-- any order, whose arguments pass the checks of the store's functions.
pub run-IsStored :
    (ss : List Statement) (row : UploadSessionRow)
    → All (λ s. accepts s ≡ true) ss
    → IsStored row
    → IsStored (run ss row)
unfolding run
run-IsStored [] row a h = h
run-IsStored (s ∷ ss) row (a, more) h =
    run-IsStored ss (apply s row) more (apply-IsStored s row a h)
