-- ===== src/Upload/Run.antt =====
-- The prepared statements of worker/upload-session-store.ts that write an existing row, with their
-- bound values, and what a run of them does to one row. D1 runs one statement at a time, so a run
-- is an interleaving of the statements of any number of requests.
pub mod Invariant
pub mod Leases
pub mod Final
use ilist.Base.{
  ℕ, String, Bool, true, false, Option, none, some, List, [], ◌∷◌, ◌&&◌, ◌||◌, ◌+◌, ltb, text_eq,
  if◌then◌else◌, not,
}
use ilist.Upload.Row.{UploadSessionRow, TerminalOperation}
use ilist.Upload.Stored.{is_safe_integer}
use ilist.Upload.Statements.{
  may_claim_part, set_part_claim, holds_part_claim, unchanged_since, set_part, clear_part_claim,
  may_claim_terminal, set_terminal_claim, may_complete, set_completed, may_release_terminal,
  set_released, may_abort, set_aborted, may_touch, set_touched,
}

-- the last number of each is the time
pub data Statement : Type 0 where
  claim_part : (part_number claim_expires_at now : ℕ) → Statement
  record_part :
      (read : UploadSessionRow) (ciphertext parts_json : String) (completed_item : Option String)
      (part_number claim_expires_at now : ℕ)
      → Statement
  release_part : (part_number claim_expires_at now : ℕ) → Statement
  claim_terminal :
      (operation : TerminalOperation) (terminal_owner : String) (terminal_expires_at now : ℕ)
      → Statement
  complete_session :
      (terminal_owner : String) (terminal_expires_at : ℕ) (item_json : String) (now : ℕ) → Statement
  release_terminal :
      (operation : TerminalOperation) (terminal_owner : String) (terminal_expires_at now : ℕ)
      → Statement
  mark_aborted : (terminal_owner : String) (terminal_expires_at now : ℕ) → Statement
  touch : (attempted_at : ℕ) → Statement

-- the argument checks before the statement is sent
unfoldable pub accepts : Statement → Bool
accepts (claim_part n expires now) =
    is_safe_integer n 1 && is_safe_integer now 0 && is_safe_integer expires (now + 1)
accepts (record_part read cipher parts item n expires now) =
    is_safe_integer expires 0 && is_safe_integer n 1
accepts (release_part n expires now) = is_safe_integer n 1 && is_safe_integer expires 0
accepts (claim_terminal op owner expires now) =
    not (text_eq owner "") && is_safe_integer now 0 && is_safe_integer expires (now + 1)
accepts (complete_session owner expires item now) =
    not (text_eq owner "") && is_safe_integer expires 0
accepts (release_terminal op owner expires now) =
    not (text_eq owner "") && is_safe_integer expires 0
accepts (mark_aborted owner expires now) = not (text_eq owner "") && is_safe_integer expires 0
accepts (touch at) = is_safe_integer at 0

-- the WHERE clause, apart from the row's id and owner
unfoldable pub admits : Statement → UploadSessionRow → Bool
admits (claim_part n expires now) row = may_claim_part now row
admits (record_part read cipher parts item n expires now) row =
    holds_part_claim n expires row && unchanged_since read row
admits (release_part n expires now) row = holds_part_claim n expires row
admits (claim_terminal op owner expires now) row = may_claim_terminal op now row
admits (complete_session owner expires item now) row = may_complete owner expires row
admits (release_terminal op owner expires now) row = may_release_terminal op owner expires row
admits (mark_aborted owner expires now) row = may_abort owner expires row
admits (touch at) row = may_touch at row

-- `input.completedItem === undefined ? row.completed_item_json : JSON.stringify(…)`
abbrev pub kept_item : Option String → Option String → Option String
kept_item none old = old
kept_item (some item) old = some item

-- the SET clause
unfoldable pub change : Statement → UploadSessionRow → UploadSessionRow
change (claim_part n expires now) row = set_part_claim n expires now row
change (record_part read cipher parts item n expires now) row =
    set_part cipher parts (kept_item item read.completed_item_json) now row
change (release_part n expires now) row = clear_part_claim now row
change (claim_terminal op owner expires now) row = set_terminal_claim op owner expires now row
change (complete_session owner expires item now) row = set_completed item now row
change (release_terminal op owner expires now) row = set_released now row
change (mark_aborted owner expires now) row = set_aborted now row
change (touch at) row = set_touched at row

unfoldable pub apply : Statement → UploadSessionRow → UploadSessionRow
apply s row = if admits s row then change s row else row

unfoldable pub run : List Statement → UploadSessionRow → UploadSessionRow
run [] row = row
run (s ∷ ss) row = run ss (apply s row)

abbrev pub time : Statement → ℕ
time (claim_part n expires now) = now
time (record_part read cipher parts item n expires now) = now
time (release_part n expires now) = now
time (claim_terminal op owner expires now) = now
time (complete_session owner expires item now) = now
time (release_terminal op owner expires now) = now
time (mark_aborted owner expires now) = now
time (touch at) = at
