-- ===== src/Share/Row.antt =====
-- A row of shares, its record, and the WHERE and SET clauses of worker/share-store.ts; the policy
-- of worker/share-policy.ts.
use ilist.Base.{
  ℕ, ◌+◌, String, Bool, true, false, not, Option, none, some, ◌&&◌, ◌==◌, ltb, leb, is_some,
  is_text, if◌then◌else◌,
}
use ilist.FileSystem.Row.{EntryKind}

pub record ShareRow : Type 0 where
  pub id : String
  pub token_hash : String
  pub mount_id : String
  pub provider_item_id : String
  pub target_kind : EntryKind
  pub name : String
  pub password_hash : Option String
  pub auth_revision : ℕ
  pub expires_at : Option ℕ
  pub allow_download : ℕ
  pub enabled : ℕ
  pub download_count : ℕ
  pub max_downloads : Option ℕ
  pub access_count : ℕ
  pub created_at : ℕ
  pub updated_at : ℕ

pub record Share : Type 0 where
  pub id : String
  pub token_hash : String
  pub mount_id : String
  pub provider_item_id : String
  pub target_kind : EntryKind
  pub name : String
  pub password_hash : Option String
  pub auth_revision : ℕ
  pub expires_at : Option ℕ
  pub allow_download : Bool
  pub enabled : Bool
  pub download_count : ℕ
  pub max_downloads : Option ℕ
  pub access_count : ℕ
  pub created_at : ℕ
  pub updated_at : ℕ

pub record CreateShareRecordInput : Type 0 where
  pub token_hash : String
  pub mount_id : String
  pub provider_item_id : String
  pub target_kind : EntryKind
  pub name : String
  pub password_hash : Option String
  pub expires_at : Option ℕ
  pub allow_download : Bool
  pub enabled : Bool
  pub max_downloads : Option ℕ

-- an outer `none` is a field that is left out
pub record UpdateShareRecordInput : Type 0 where
  pub password_hash : Option (Option String)
  pub expires_at : Option (Option ℕ)
  pub allow_download : Option Bool
  pub enabled : Option Bool
  pub max_downloads : Option (Option ℕ)
  pub token_hash : Option String

unfoldable pub to_share : ShareRow → Share
to_share row = record {
  id = row.id;
  token_hash = row.token_hash;
  mount_id = row.mount_id;
  provider_item_id = row.provider_item_id;
  target_kind = row.target_kind;
  name = row.name;
  password_hash = row.password_hash;
  auth_revision = row.auth_revision;
  expires_at = row.expires_at;
  allow_download = row.allow_download == 1;
  enabled = row.enabled == 1;
  download_count = row.download_count;
  max_downloads = row.max_downloads;
  access_count = row.access_count;
  created_at = row.created_at;
  updated_at = row.updated_at;
}

abbrev limit_reached : Option ℕ → ℕ → Bool
limit_reached none count = false
limit_reached (some limit) count = leb limit count

unfoldable pub is_share_download_limit_reached : Share → Bool
is_share_download_limit_reached share = limit_reached share.max_downloads share.download_count

unfoldable pub can_download_from_share : Share → Bool
unfolding is_share_download_limit_reached
can_download_from_share share = share.allow_download && not (is_share_download_limit_reached share)

abbrev below_limit : Option ℕ → ℕ → Bool
below_limit none count = true
below_limit (some limit) count = ltb count limit

-- the WHERE clause of `tryConsumeShareDownload`, apart from the row's id
unfoldable pub may_consume : ShareRow → Bool
may_consume row = row.allow_download == 1 && below_limit row.max_downloads row.download_count

unfoldable pub set_consumed : ℕ → ShareRow → ShareRow
set_consumed now row = record row { download_count = row.download_count + 1; updated_at = now }

unfoldable pub set_accessed : ℕ → ShareRow → ShareRow
set_accessed now row = record row { access_count = row.access_count + 1; updated_at = now }

abbrev pub has_password : String → ShareRow → Bool
has_password hash row = is_text row.password_hash hash

unfoldable pub set_upgraded : String → ℕ → ShareRow → ShareRow
set_upgraded hash now row = record row { password_hash = some hash; updated_at = now }

abbrev pub number : Bool → ℕ
number b = if b then 1 else 0

abbrev given : {A : Type 0} → Option A → A → A
given none old = old
given (some a) old = a

-- the SET clause of `updateShareRecord`: `current` is what the function read before
unfoldable pub set_updated : Share → UpdateShareRecordInput → ℕ → ShareRow → ShareRow
set_updated current input now row = record row {
  password_hash = given input.password_hash current.password_hash;
  auth_revision = row.auth_revision + number (is_some input.password_hash);
  expires_at = given input.expires_at current.expires_at;
  allow_download = number (given input.allow_download current.allow_download);
  enabled = number (given input.enabled current.enabled);
  max_downloads = given input.max_downloads current.max_downloads;
  token_hash = given input.token_hash current.token_hash;
  updated_at = now;
}
