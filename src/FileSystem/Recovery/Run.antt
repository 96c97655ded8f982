-- ===== src/FileSystem/Recovery/Run.antt =====
-- The same statements as one data type, run in any order on one operation.
pub mod Leases
use ilist.Base.{ℕ, String, Bool, List, [], ◌∷◌, if◌then◌else◌}
use ilist.FileSystem.Row.{OperationRow, is_held}
use ilist.FileSystem.Recovery.{
  may_claim, set_claim, is_claimed_by, may_renew, set_renewed, is_held_by, set_touched,
  set_activated, set_progress, set_completed, set_retry,
}

-- each with its time at the end; a claim and a renewal with the time of expiry before it
pub data Statement : Type 0 where
  claim renew : String → ℕ → ℕ → Statement
  touch : String → ℕ → Statement
  activate : String → String → ℕ → Statement
  -- the owner of the claim first
  progress : String → String → String → ℕ → Statement
  complete : String → ℕ → Statement
  back_off : String → String → ℕ → Statement

unfoldable pub admits : Statement → OperationRow → Bool
admits (claim who until now) row = may_claim now row
admits (renew who until now) row = may_renew who now row
admits (touch attempt now) row = is_held_by attempt row
admits (activate phase payload now) row = is_held row.state
admits (progress who phase payload now) row = is_claimed_by who row
admits (complete who now) row = is_claimed_by who row
admits (back_off who message now) row = is_claimed_by who row

unfoldable pub change : Statement → OperationRow → OperationRow
change (claim who until now) row = set_claim who until now row
change (renew who until now) row = set_renewed until now row
change (touch attempt now) row = set_touched now row
change (activate phase payload now) row = set_activated phase payload now row
change (progress who phase payload now) row = set_progress phase payload now row
change (complete who now) row = set_completed now row
change (back_off who message now) row = set_retry message now row

unfoldable pub apply : Statement → OperationRow → OperationRow
apply s row = if admits s row then change s row else row

unfoldable pub run : List Statement → OperationRow → OperationRow
run [] row = row
run (s ∷ ss) row = run ss (apply s row)

abbrev pub time : Statement → ℕ
time (claim who until now) = now
time (renew who until now) = now
time (touch attempt now) = now
time (activate phase payload now) = now
time (progress who phase payload now) = now
time (complete who now) = now
time (back_off who message now) = now
