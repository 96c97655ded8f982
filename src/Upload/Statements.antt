-- ===== src/Upload/Statements.antt =====
-- The SQL statements of worker/upload-session-store.ts on one row: what the WHERE clause tests
-- and what the SET clause writes. A test of NULL is false, as in SQL.
use ilist.Base.{
  ℕ, String, Bool, false, not, Option, none, some, ◌&&◌, ◌||◌, text_eq, leb, ltb, is_none, is_some,
  is_number, is_text, same_text,
}
use ilist.Upload.Row.{
  UploadSessionRow, Status, active, completing, completed, aborted, TerminalOperation, complete,
  abort, is_active, is_completing, is_open, is_complete, is_abort, is_operation,
}

-- `column <= now`, false on NULL
abbrev pub is_past : Option ℕ → ℕ → Bool
is_past none now = false
is_past (some t) now = leb t now

-- `column > now`, false on NULL
abbrev pub is_future : Option ℕ → ℕ → Bool
is_future none now = false
is_future (some t) now = ltb now t

abbrev pub owned_by : String → String → UploadSessionRow → Bool
owned_by owner_session_id id row =
    text_eq row.id id && text_eq row.owner_session_id owner_session_id

-- no claim of a part, or one that has run out
unfoldable pub part_claim_free : ℕ → UploadSessionRow → Bool
part_claim_free now row =
    (is_none row.active_part_number && is_none row.active_part_expires_at)
    || (is_some row.active_part_number
        && is_some row.active_part_expires_at
        && is_past row.active_part_expires_at now)

-- no claim of a terminal operation, or one that has run out
unfoldable pub terminal_claim_free : ℕ → UploadSessionRow → Bool
terminal_claim_free now row =
    (is_none row.terminal_operation
      && is_none row.terminal_owner
      && is_none row.terminal_expires_at)
    || ((is_operation row.terminal_operation complete || is_operation row.terminal_operation abort)
        && is_some row.terminal_owner
        && is_some row.terminal_expires_at
        && is_past row.terminal_expires_at now)

-- `claimUploadPart`
unfoldable pub may_claim_part : ℕ → UploadSessionRow → Bool
unfolding part_claim_free terminal_claim_free
may_claim_part now row =
    is_active row.status
    && ltb now row.expires_at
    && terminal_claim_free now row
    && part_claim_free now row

unfoldable pub set_part_claim : ℕ → ℕ → ℕ → UploadSessionRow → UploadSessionRow
set_part_claim part_number claim_expires_at now row = record row {
  active_part_number = some part_number;
  active_part_expires_at = some claim_expires_at;
  terminal_operation = none;
  terminal_owner = none;
  terminal_expires_at = none;
  updated_at = now;
}

-- the exact claim of a part, with no terminal claim: `recordUploadPart`, `releaseUploadPartClaim`
unfoldable pub holds_part_claim : ℕ → ℕ → UploadSessionRow → Bool
holds_part_claim part_number claim_expires_at row =
    is_active row.status
    && is_none row.terminal_operation
    && is_none row.terminal_owner
    && is_none row.terminal_expires_at
    && is_number row.active_part_number part_number
    && is_number row.active_part_expires_at claim_expires_at

-- the columns that `recordUploadPart` read are still what it read
unfoldable pub unchanged_since : UploadSessionRow → UploadSessionRow → Bool
unchanged_since read row =
    text_eq row.parts_json read.parts_json
    && text_eq row.provider_state_ciphertext read.provider_state_ciphertext
    && same_text row.completed_item_json read.completed_item_json

unfoldable pub set_part : String → String → Option String → ℕ → UploadSessionRow → UploadSessionRow
set_part ciphertext parts_json completed_item_json now row = record row {
  provider_state_ciphertext = ciphertext;
  parts_json = parts_json;
  completed_item_json = completed_item_json;
  active_part_number = none;
  active_part_expires_at = none;
  updated_at = now;
}

unfoldable pub clear_part_claim : ℕ → UploadSessionRow → UploadSessionRow
clear_part_claim now row = record row {
  active_part_number = none;
  active_part_expires_at = none;
  updated_at = now;
}

-- `claimTerminalOperation`
unfoldable pub may_claim_terminal : TerminalOperation → ℕ → UploadSessionRow → Bool
unfolding part_claim_free terminal_claim_free
may_claim_terminal operation now row =
    is_open row.status
    && (is_abort operation || ltb now row.expires_at || is_some row.completed_item_json)
    && (is_complete operation || is_none row.completed_item_json)
    && part_claim_free now row
    && terminal_claim_free now row

abbrev pub claimed_status : TerminalOperation → Status
claimed_status complete = completing
claimed_status abort = active

unfoldable pub set_terminal_claim :
    TerminalOperation → String → ℕ → ℕ → UploadSessionRow → UploadSessionRow
set_terminal_claim operation terminal_owner terminal_expires_at now row = record row {
  status = claimed_status operation;
  active_part_number = none;
  active_part_expires_at = none;
  terminal_operation = some operation;
  terminal_owner = some terminal_owner;
  terminal_expires_at = some terminal_expires_at;
  updated_at = now;
}

-- the exact claim of a terminal operation
unfoldable pub holds_terminal_claim : TerminalOperation → String → ℕ → UploadSessionRow → Bool
holds_terminal_claim operation terminal_owner terminal_expires_at row =
    is_operation row.terminal_operation operation
    && is_text row.terminal_owner terminal_owner
    && is_number row.terminal_expires_at terminal_expires_at

-- `completeUploadSessionRecord`
unfoldable pub may_complete : String → ℕ → UploadSessionRow → Bool
unfolding holds_terminal_claim
may_complete terminal_owner terminal_expires_at row =
    is_completing row.status && holds_terminal_claim complete terminal_owner terminal_expires_at row

unfoldable pub set_completed : String → ℕ → UploadSessionRow → UploadSessionRow
set_completed item_json now row = record row {
  status = completed;
  completed_item_json = some item_json;
  terminal_operation = none;
  terminal_owner = none;
  terminal_expires_at = none;
  updated_at = now;
}

-- `releaseTerminalOperationClaim`
unfoldable pub may_release_terminal : TerminalOperation → String → ℕ → UploadSessionRow → Bool
unfolding holds_terminal_claim
may_release_terminal operation terminal_owner terminal_expires_at row =
    is_open row.status && holds_terminal_claim operation terminal_owner terminal_expires_at row

unfoldable pub set_released : ℕ → UploadSessionRow → UploadSessionRow
set_released now row = record row {
  status = active;
  terminal_operation = none;
  terminal_owner = none;
  terminal_expires_at = none;
  updated_at = now;
}

-- `markUploadSessionAborted`
unfoldable pub may_abort : String → ℕ → UploadSessionRow → Bool
unfolding holds_terminal_claim
may_abort terminal_owner terminal_expires_at row =
    is_active row.status
    && holds_terminal_claim abort terminal_owner terminal_expires_at row
    && is_none row.completed_item_json

unfoldable pub set_aborted : ℕ → UploadSessionRow → UploadSessionRow
set_aborted now row = record row {
  status = aborted;
  active_part_number = none;
  active_part_expires_at = none;
  terminal_operation = none;
  terminal_owner = none;
  terminal_expires_at = none;
  updated_at = now;
}

-- `touchUploadSessionCleanupAttempt`
unfoldable pub may_touch : ℕ → UploadSessionRow → Bool
may_touch attempted_at row = is_open row.status && leb row.expires_at attempted_at

unfoldable pub set_touched : ℕ → UploadSessionRow → UploadSessionRow
set_touched attempted_at row = record row {
  cleanup_attempted_at = attempted_at;
  updated_at = attempted_at;
}

-- the WHERE clause of `listExpiredUploadSessions`
unfoldable pub is_cleanable : ℕ → UploadSessionRow → Bool
is_cleanable now row =
    is_open row.status
    && leb row.expires_at now
    && not (is_some row.active_part_number && is_future row.active_part_expires_at now)
    && not (
        is_some row.terminal_operation
        && is_some row.terminal_owner
        && is_future row.terminal_expires_at now)

-- the WHERE clause of `listOwnedActiveUploadSessions`
unfoldable pub is_resumable : String → ℕ → UploadSessionRow → Bool
is_resumable owner_session_id now row =
    text_eq row.owner_session_id owner_session_id && is_open row.status && ltb now row.expires_at
