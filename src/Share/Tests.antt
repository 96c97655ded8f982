-- ===== src/Share/Tests.antt =====
-- The limit of downloads on one share.
use ilist.Base.{◌+◌, ◌≤◌, none, some, List, [], ◌∷◌, ◌≡◌, refl, arith}
use ilist.Share.Row.{
  ShareRow, Share, UpdateShareRecordInput, to_share, can_download_from_share, may_consume,
}
use ilist.FileSystem.Row.{file}
use ilist.Share.Run.{Statement, consume, access, upgrade, update, run, granted}
use ilist.Share.Limit.{can_download_from_share-to_share, granted_within}

abbrev row : ShareRow
row = record {
  id = "s1";
  token_hash = "t";
  mount_id = "m1";
  provider_item_id = "i1";
  target_kind = file;
  name = "film.mp4";
  password_hash = some "p1";
  auth_revision = 1;
  expires_at = none;
  allow_download = 1;
  enabled = 1;
  download_count = 1;
  max_downloads = some 2;
  access_count = 4;
  created_at = 100;
  updated_at = 100;
}

abbrev new_password : UpdateShareRecordInput
new_password = record {
  password_hash = some (some "p2");
  expires_at = none;
  allow_download = none;
  enabled = none;
  max_downloads = none;
  token_hash = none;
}

abbrev visits : List Statement
visits =
    access 110
    ∷ consume 111
    ∷ update (to_share row) new_password 112
    ∷ consume 113
    ∷ upgrade "p2" "p3" 114
    ∷ consume 115
    ∷ []

one_left : granted visits row ≡ 1
unfolding granted ilist.Share.Run.grants may_consume ilist.Share.Run.apply
    ilist.Share.Row.set_accessed ilist.Share.Row.set_updated to_share ilist.Share.Row.set_consumed
    ilist.Share.Row.set_upgraded
one_left = refl

can_download_from_share-to_share_example : can_download_from_share (to_share row) ≡ may_consume row
can_download_from_share-to_share_example = can_download_from_share-to_share row

granted_within_example : 1 + granted visits row ≤ 2
unfolding to_share
granted_within_example = granted_within 2 visits row (ground arith) refl (omega arith)
