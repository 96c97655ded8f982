-- ===== src/Upload/Run/Leases.antt =====
-- Leases on a row of upload_sessions: who may write it while a claim has not run out.
use ilist.Base.{
  ℕ, ◌<◌, String, Bool, List, [], ◌∷◌, ◌≡◌, true, false, some, arith, All, ◌&&◌, ◌==◌, text_eq,
  eq_iff,
}
use ilist.Upload.Row.{UploadSessionRow, TerminalOperation, active}
use ilist.Upload.Check.{is_stored_row}
use ilist.Upload.Statements.{
  may_claim_part, set_part_claim, holds_part_claim, unchanged_since, set_part, clear_part_claim,
  may_claim_terminal, set_terminal_claim, may_complete, set_completed, may_release_terminal,
  set_released, may_abort, set_aborted, may_touch, set_touched, claimed_status,
}
use ilist.Upload.Run.{
  Statement, claim_part, record_part, release_part, claim_terminal, complete_session,
  release_terminal, mark_aborted, touch, accepts, admits, change, apply, run, time,
}
use ilist.Upload.Run.Invariant.{IsStored, apply-IsStored}

-- the row is claimed for part `n` until `expires`
pub record HoldsPart (n expires : ℕ) (row : UploadSessionRow) : Type 0 where
  pub open_row : row.status ≡ active
  pub part : row.active_part_number ≡ some n
  pub until : row.active_part_expires_at ≡ some expires

-- the statement names that claim: only the request that made it does
abbrev pub names_part_claim : ℕ → ℕ → Statement → Bool
names_part_claim n expires (record_part read cipher parts item m until now) =
    m == n && until == expires
names_part_claim n expires (release_part m until now) = m == n && until == expires
names_part_claim n expires _ = false

-- in time, and not by the holder
abbrev pub PartForeign : ℕ → ℕ → Statement → Type 0
PartForeign n expires s =
    (accepts s ≡ true) × (time s < expires) × (names_part_claim n expires s ≡ false)

apply-HoldsPart :
    (n expires : ℕ) (s : Statement) (row : UploadSessionRow)
    → PartForeign n expires s
    → IsStored row
    → HoldsPart n expires row
    → HoldsPart n expires (apply s row)
unfolding apply admits change is_stored_row may_claim_part set_part_claim holds_part_claim
    unchanged_since set_part clear_part_claim may_claim_terminal set_terminal_claim may_complete
    set_completed may_release_terminal set_released may_abort set_aborted may_touch set_touched
apply-HoldsPart n expires (claim_part m until now) row f h k = ground arith
apply-HoldsPart n expires (record_part read cipher parts item m until now) row f h k = ground arith
apply-HoldsPart n expires (release_part m until now) row f h k = ground arith
apply-HoldsPart n expires (claim_terminal op owner until now) row f h k = ground arith
apply-HoldsPart n expires (complete_session owner until item now) row f h k = ground arith
apply-HoldsPart n expires (release_terminal op owner until now) row f h k = ground arith
apply-HoldsPart n expires (mark_aborted owner until now) row f h k = ground arith
apply-HoldsPart n expires (touch at) row f h k = ground arith

-- A claim of a part is exclusive: in a row that passes `assertStoredRow`, no statements that are
-- sent before it runs out, pass the store's argument checks and do not name that claim, in any
-- number and order, end it or change its part, its time of expiry or the row's status.
pub run-HoldsPart :
    (n expires : ℕ) (ss : List Statement) (row : UploadSessionRow)
    → All (PartForeign n expires) ss
    → IsStored row
    → HoldsPart n expires row
    → HoldsPart n expires (run ss row)
unfolding run
run-HoldsPart n expires [] row f h k = k
run-HoldsPart n expires (s ∷ ss) row (f, more) h k =
    run-HoldsPart n expires ss (apply s row) more (apply-IsStored s row f.0 h)
      (apply-HoldsPart n expires s row f h k)

-- the row is claimed by `owner` for the terminal operation until `expires`
pub record HoldsTerminal (op : TerminalOperation) (owner : String) (expires : ℕ)
    (row : UploadSessionRow) : Type 0 where
  pub state : row.status ≡ claimed_status op
  pub operation : row.terminal_operation ≡ some op
  pub holder : row.terminal_owner ≡ some owner
  pub until : row.terminal_expires_at ≡ some expires

abbrev pub names_owner : String → Statement → Bool
names_owner owner (complete_session who until item now) = text_eq owner who
names_owner owner (release_terminal op who until now) = text_eq owner who
names_owner owner (mark_aborted who until now) = text_eq owner who
names_owner owner _ = false

abbrev pub TerminalForeign : String → ℕ → Statement → Type 0
TerminalForeign owner expires s =
    (accepts s ≡ true) × (time s < expires) × (names_owner owner s ≡ false)

apply-HoldsTerminal :
    (op : TerminalOperation) (owner : String) (expires : ℕ) (s : Statement) (row : UploadSessionRow)
    → TerminalForeign owner expires s
    → HoldsTerminal op owner expires row
    → HoldsTerminal op owner expires (apply s row)
unfolding apply admits change may_claim_part set_part_claim holds_part_claim unchanged_since
    set_part clear_part_claim may_claim_terminal set_terminal_claim may_complete set_completed
    may_release_terminal set_released may_abort set_aborted may_touch set_touched
apply-HoldsTerminal op owner expires (claim_part m until now) row f k = ground arith
apply-HoldsTerminal op owner expires (record_part read cipher parts item m until now) row f k =
    ground arith
apply-HoldsTerminal op owner expires (release_part m until now) row f k = ground arith
apply-HoldsTerminal op owner expires (claim_terminal op' who until now) row f k = ground arith
apply-HoldsTerminal op owner expires (complete_session who until item now) row f k =
    ground (arith, eq_iff owner who)
apply-HoldsTerminal op owner expires (release_terminal op' who until now) row f k =
    ground (arith, eq_iff owner who)
apply-HoldsTerminal op owner expires (mark_aborted who until now) row f k =
    ground (arith, eq_iff owner who)
apply-HoldsTerminal op owner expires (touch at) row f k = ground arith

-- A claim of a terminal operation is exclusive too: no statements that are sent before it runs
-- out, pass the store's argument checks and do not name its owner, in any number and order, end
-- it, take it over or change the row's status.
pub run-HoldsTerminal :
    (op : TerminalOperation) (owner : String) (expires : ℕ) (ss : List Statement)
    (row : UploadSessionRow)
    → All (TerminalForeign owner expires) ss
    → HoldsTerminal op owner expires row
    → HoldsTerminal op owner expires (run ss row)
unfolding run
run-HoldsTerminal op owner expires [] row f k = k
run-HoldsTerminal op owner expires (s ∷ ss) row (f, more) k =
    run-HoldsTerminal op owner expires ss (apply s row) more
      (apply-HoldsTerminal op owner expires s row f k)
