-- ===== src/FileSystem/Recovery.antt =====
-- The statements of worker/db.ts on one row of storage_recovery_operations.
pub mod Run
use ilist.Base.{
  ℕ, ◌+◌, ◌-◌, String, Bool, Option, none, some, ◌&&◌, ◌||◌, ltb, leb, is_text, text_eq,
}
use ilist.FileSystem.Row.{
  OperationKind, OperationState, OperationRow, held, pending, running, retry, completed, is_held,
  is_pending, is_running, is_retry,
}

-- `enqueueStorageRecoveryOperation`'s input
pub record NewOperation : Type 0 where
  pub id : String
  pub entry_id : String
  pub operation_kind : OperationKind
  pub storage_key : Option String
  pub attempt_owner : String
  pub phase : String
  pub payload : String
  pub state : OperationState

unfoldable pub new_operation : NewOperation → ℕ → OperationRow
new_operation input now = record {
  id = input.id;
  entry_id = input.entry_id;
  operation_kind = input.operation_kind;
  storage_key = input.storage_key;
  attempt_owner = input.attempt_owner;
  phase = input.phase;
  payload = input.payload;
  state = input.state;
  claim_owner = none;
  claim_expires_at = none;
  attempts = 0;
  last_error = none;
  created_at = now;
  updated_at = now;
}

-- a held operation is stale five minutes after its last touch
abbrev pub stale_ms : ℕ
stale_ms = 300000

abbrev pub coalesce : Option ℕ → ℕ
coalesce none = 0
coalesce (some n) = n

-- the WHERE clause of the claim, and of the list of operations that may be claimed
unfoldable pub may_claim : ℕ → OperationRow → Bool
may_claim now row =
    is_pending row.state
    || is_retry row.state
    || (is_running row.state && leb (coalesce row.claim_expires_at) now)
    || (is_held row.state && leb (row.updated_at + stale_ms) now)

unfoldable pub set_claim : String → ℕ → ℕ → OperationRow → OperationRow
set_claim claim_owner claim_expires_at now row = record row {
  state = running;
  claim_owner = some claim_owner;
  claim_expires_at = some claim_expires_at;
  attempts = row.attempts + 1;
  updated_at = now;
}

-- `state = 'running' AND claim_owner = ?`
unfoldable pub is_claimed_by : String → OperationRow → Bool
is_claimed_by claim_owner row = is_running row.state && is_text row.claim_owner claim_owner

unfoldable pub may_renew : String → ℕ → OperationRow → Bool
unfolding is_claimed_by
may_renew claim_owner now row =
    is_claimed_by claim_owner row && ltb now (coalesce row.claim_expires_at)

unfoldable pub set_renewed : ℕ → ℕ → OperationRow → OperationRow
set_renewed claim_expires_at now row = record row {
  claim_expires_at = some claim_expires_at;
  updated_at = now;
}

unfoldable pub is_held_by : String → OperationRow → Bool
is_held_by attempt_owner row = is_held row.state && text_eq row.attempt_owner attempt_owner

unfoldable pub set_touched : ℕ → OperationRow → OperationRow
set_touched now row = record row { updated_at = now }

unfoldable pub set_activated : String → String → ℕ → OperationRow → OperationRow
set_activated phase payload now row = record row {
  phase = phase;
  payload = payload;
  state = pending;
  updated_at = now;
}

unfoldable pub set_progress : String → String → ℕ → OperationRow → OperationRow
set_progress phase payload now row = record row {
  phase = phase;
  payload = payload;
  updated_at = now;
}

unfoldable pub set_completed : ℕ → OperationRow → OperationRow
set_completed now row = record row {
  state = completed;
  claim_owner = none;
  claim_expires_at = none;
  last_error = none;
  updated_at = now;
}

unfoldable pub set_retry : String → ℕ → OperationRow → OperationRow
set_retry message now row = record row {
  state = retry;
  claim_owner = none;
  claim_expires_at = none;
  last_error = some message;
  updated_at = now;
}
