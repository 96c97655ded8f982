-- ===== src/Upload/Run/Final.antt =====
-- The outcome of a session in runs of the statements of worker/upload-session-store.ts.
use ilist.Base.{List, [], ◌∷◌, ◌≡◌, ◌≢◌, refl, true, none, some, arith, ◌⊎◌, is_some}
use ilist.Upload.Row.{UploadSessionRow, complete, abort, completed, aborted}
use ilist.Upload.Statements.{
  may_claim_part, set_part_claim, holds_part_claim, unchanged_since, set_part, clear_part_claim,
  may_claim_terminal, set_terminal_claim, may_complete, set_completed, may_release_terminal,
  set_released, may_abort, set_aborted, may_touch, set_touched,
}
use ilist.Upload.Run.{
  Statement, claim_part, record_part, release_part, claim_terminal, complete_session,
  release_terminal, mark_aborted, touch, admits, change, apply, run,
}

abbrev pub IsEnded : UploadSessionRow → Type 0
IsEnded row = (row.status ≡ completed) ⊎ (row.status ≡ aborted)

apply_ended : (s : Statement) (row : UploadSessionRow) → IsEnded row → apply s row ≡ row
unfolding apply admits may_claim_part holds_part_claim unchanged_since may_claim_terminal
    may_complete may_release_terminal may_abort may_touch
apply_ended (claim_part m until now) row e = ground arith
apply_ended (record_part read cipher parts item m until now) row e = ground arith
apply_ended (release_part m until now) row e = ground arith
apply_ended (claim_terminal op owner until now) row e = ground arith
apply_ended (complete_session owner until item now) row e = ground arith
apply_ended (release_terminal op owner until now) row e = ground arith
apply_ended (mark_aborted owner until now) row e = ground arith
apply_ended (touch at) row e = ground arith

-- A completed or aborted session is final: no statement changes any column of its row.
pub run_ended : (ss : List Statement) (row : UploadSessionRow) → IsEnded row → run ss row ≡ row
unfolding run
run_ended [] row e = refl
run_ended (s ∷ ss) row e = rw (apply_ended s row e) (run_ended ss row e)

-- The outcome of a session: what it says of the stored item.
pub record Agrees (row : UploadSessionRow) : Type 0 where
  pub no_item : row.status ≡ aborted → row.completed_item_json ≡ none
  pub an_item : row.status ≡ completed → is_some row.completed_item_json ≡ true

pub apply-Agrees : (s : Statement) (row : UploadSessionRow) → Agrees row → Agrees (apply s row)
unfolding apply admits change may_claim_part set_part_claim holds_part_claim unchanged_since
    set_part clear_part_claim may_claim_terminal set_terminal_claim may_complete set_completed
    may_release_terminal set_released may_abort set_aborted may_touch set_touched
apply-Agrees (claim_part m until now) row k = ground arith
apply-Agrees (record_part read cipher parts item m until now) row k = ground arith
apply-Agrees (release_part m until now) row k = ground arith
apply-Agrees (claim_terminal complete owner until now) row k = ground arith
apply-Agrees (claim_terminal abort owner until now) row k = ground arith
apply-Agrees (complete_session owner until item now) row k = ground arith
apply-Agrees (release_terminal op owner until now) row k = ground arith
apply-Agrees (mark_aborted owner until now) row k = ground arith
apply-Agrees (touch at) row k = ground arith

-- If it is so before a run of statements, it is so after it: an aborted session has no completed
-- item and a completed one has one.
pub run-Agrees : (ss : List Statement) (row : UploadSessionRow) → Agrees row → Agrees (run ss row)
unfolding run
run-Agrees [] row k = k
run-Agrees (s ∷ ss) row k = run-Agrees ss (apply s row) (apply-Agrees s row k)

apply_item :
    (s : Statement) (row : UploadSessionRow)
    → is_some row.completed_item_json ≡ true
    → (is_some (apply s row).completed_item_json ≡ true)
      × (row.status ≢ aborted → (apply s row).status ≢ aborted)
unfolding apply admits change may_claim_part set_part_claim holds_part_claim unchanged_since
    set_part clear_part_claim may_claim_terminal set_terminal_claim may_complete set_completed
    may_release_terminal set_released may_abort set_aborted may_touch set_touched
apply_item (claim_part m until now) row k = (ground arith, ground arith)
apply_item (record_part read cipher parts none m until now) row k = (ground arith, ground arith)
apply_item (record_part read cipher parts (some i) m until now) row k = (ground arith, ground arith)
apply_item (release_part m until now) row k = (ground arith, ground arith)
apply_item (claim_terminal complete owner until now) row k = (ground arith, ground arith)
apply_item (claim_terminal abort owner until now) row k = (ground arith, ground arith)
apply_item (complete_session owner until item now) row k = (ground arith, ground arith)
apply_item (release_terminal op owner until now) row k = (ground arith, ground arith)
apply_item (mark_aborted owner until now) row k = (ground arith, ground arith)
apply_item (touch at) row k = (ground arith, ground arith)

-- If the provider's item is stored and the session is not aborted, then no run of statements
-- removes the item or aborts the session.
pub run_item :
    (ss : List Statement) (row : UploadSessionRow)
    → is_some row.completed_item_json ≡ true
    → row.status ≢ aborted
    → (is_some (run ss row).completed_item_json ≡ true) × ((run ss row).status ≢ aborted)
unfolding run
run_item [] row k e = (k, e)
run_item (s ∷ ss) row k e =
    let (kept, open_row) = apply_item s row k in run_item ss (apply s row) kept (open_row e)
