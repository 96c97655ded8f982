-- ===== src/Share/Limit.antt =====
-- The limit of downloads.
use ilist.Base.{ℕ, ◌+◌, ◌≤◌, none, some, List, [], ◌∷◌, ◌≡◌, arith, All}
use ilist.Share.Row.{
  ShareRow, to_share, is_share_download_limit_reached, can_download_from_share, may_consume,
  set_consumed, set_accessed, set_upgraded, set_updated,
}
use ilist.Share.Run.{Statement, consume, access, upgrade, update, apply, run, grants, granted}

-- The policy and the database agree: `canDownloadFromShare` of the record that is read from a row
-- is true just when the WHERE clause of `tryConsumeShareDownload` holds for the row.
pub can_download_from_share-to_share :
    (row : ShareRow) → can_download_from_share (to_share row) ≡ may_consume row
unfolding can_download_from_share is_share_download_limit_reached to_share may_consume
can_download_from_share-to_share row = ground arith

apply-download_count :
    (s : Statement) (row : ShareRow)
    → (apply s row).download_count ≡ row.download_count + grants s row
unfolding apply grants set_consumed set_accessed set_upgraded set_updated
apply-download_count (consume now) row = ground arith
apply-download_count (access now) row = ground arith
apply-download_count (upgrade old new now) row = ground arith
apply-download_count (update current input now) row = ground arith

-- The counter counts: after any run of statements, updates of the share among them, it stands at
-- its old value plus the number of downloads that the run granted.
run-granted :
    (ss : List Statement) (row : ShareRow)
    → (run ss row).download_count ≡ row.download_count + granted ss row
unfolding run granted
run-granted [] row = omega arith
run-granted (s ∷ ss) row =
    let ih = run-granted ss (apply s row) in
    let one = apply-download_count s row in omega (arith, ih, one)

-- the statement leaves the limit as it is
abbrev pub LeavesLimit : ℕ → Statement → Type 0
LeavesLimit limit (update current input now) =
    (input.max_downloads ≡ none) × (current.max_downloads ≡ some limit)
LeavesLimit limit _ = Unit {0}

apply_within :
    (limit : ℕ) (s : Statement) (row : ShareRow)
    → LeavesLimit limit s
    → row.max_downloads ≡ some limit
    → row.download_count ≤ limit
    → ((apply s row).max_downloads ≡ some limit) × ((apply s row).download_count ≤ limit)
unfolding apply may_consume set_consumed set_accessed set_upgraded set_updated
apply_within limit (consume now) row k e h = ground arith
apply_within limit (access now) row k e h = ground arith
apply_within limit (upgrade old new now) row k e h = ground arith
apply_within limit (update current input now) row k e h = ground arith

-- The limit holds under any interleaving: while no update changes the limit of a share, a run of
-- statements grants no more downloads than were left.
pub granted_within :
    (limit : ℕ) (ss : List Statement) (row : ShareRow)
    → All (LeavesLimit limit) ss
    → row.max_downloads ≡ some limit
    → row.download_count ≤ limit
    → row.download_count + granted ss row ≤ limit
unfolding granted
granted_within limit [] row k e h = omega (arith, h)
granted_within limit (s ∷ ss) row (k, more) e h =
    let (e', h') = apply_within limit s row k e h in
    let ih = granted_within limit ss (apply s row) more e' h' in
    let one = apply-download_count s row in omega (arith, ih, one)
