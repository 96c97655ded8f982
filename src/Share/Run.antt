-- ===== src/Share/Run.antt =====
-- The statements that worker/share-store.ts sends about one share, as one data type, run in any
-- order on the row of the share.
use ilist.Base.{ℕ, ◌+◌, String, List, [], ◌∷◌, if◌then◌else◌}
use ilist.Share.Row.{
  ShareRow, Share, UpdateShareRecordInput, may_consume, set_consumed, set_accessed, has_password,
  set_upgraded, set_updated,
}

pub data Statement : Type 0 where
  consume access : ℕ → Statement
  -- the current and the new hash
  upgrade : String → String → ℕ → Statement
  update : Share → UpdateShareRecordInput → ℕ → Statement

unfoldable pub apply : Statement → ShareRow → ShareRow
apply (consume now) row = if may_consume row then set_consumed now row else row
apply (access now) row = set_accessed now row
apply (upgrade old new now) row = if has_password old row then set_upgraded new now row else row
apply (update current input now) row = set_updated current input now row

unfoldable pub run : List Statement → ShareRow → ShareRow
run [] row = row
run (s ∷ ss) row = run ss (apply s row)

-- whether the statement grants a download
unfoldable pub grants : Statement → ShareRow → ℕ
grants (consume now) row = if may_consume row then 1 else 0
grants _ row = 0

-- how many downloads a run grants: how often `tryConsumeShareDownload` returns true
unfoldable pub granted : List Statement → ShareRow → ℕ
granted [] row = 0
granted (s ∷ ss) row = grants s row + granted ss (apply s row)
