-- ===== src/Share/Store.antt =====
-- The functions of worker/share-store.ts on the table shares.
use ilist.Base.{
  ℕ, String, Bool, true, false, Option, none, some, List, [], ◌∷◌, ◌++◌, ◌&&◌, ◌||◌, ◌==◌, ltb,
  text_eq, text_le, if◌then◌else◌, map, exists_in,
}
use ilist.Base.Exec.{
  Exec, Outside, World, failure, pure, throw, ◌>>=◌, ◌>>◌, statement, date_now, random_uuid,
}
use ilist.Base.Table.{update_where, delete_where, select_first}
use ilist.Share.Row.{
  ShareRow, Share, CreateShareRecordInput, UpdateShareRecordInput, number, to_share, may_consume,
  set_consumed, set_accessed, has_password, set_upgraded, set_updated,
}

abbrev pub ShareTable : Type 0
ShareTable = List ShareRow

abbrev Action : Type 0 → Type 0
Action A = Exec (World ShareTable (Unit {0})) A

abbrev pub is_share : String → ShareRow → Bool
is_share id row = text_eq row.id id

abbrev is_token : String → ShareRow → Bool
is_token token_hash row = text_eq row.token_hash token_hash

unfoldable pub new_share : String → CreateShareRecordInput → ℕ → ShareRow
new_share id input now = record {
  id = id;
  token_hash = input.token_hash;
  mount_id = input.mount_id;
  provider_item_id = input.provider_item_id;
  target_kind = input.target_kind;
  name = input.name;
  password_hash = input.password_hash;
  auth_revision = 1;
  expires_at = input.expires_at;
  allow_download = number input.allow_download;
  enabled = number input.enabled;
  download_count = 0;
  max_downloads = input.max_downloads;
  access_count = 0;
  created_at = now;
  updated_at = now;
}

-- `id` and `token_hash` are unique: D1 refuses a row that repeats one
unfoldable pub insert_share : ShareRow → ShareTable → Bool × ShareTable
insert_share row t =
    if exists_in (λ r. is_share row.id r || is_token row.token_hash r) t
    then (false, t)
    else (true, t ++ (row ∷ []))

-- `ORDER BY created_at DESC, id DESC`
unfoldable pub newer : ShareRow → ShareRow → Bool
newer a b =
    if a.created_at == b.created_at then text_le b.id a.id else ltb b.created_at a.created_at

unfoldable pub insert_newest : ShareRow → ShareTable → ShareTable
insert_newest row [] = row ∷ []
insert_newest row (r ∷ rs) =
    let rest = insert_newest row rs in if newer row r then row ∷ r ∷ rs else r ∷ rest

unfoldable pub newest_first : ShareTable → ShareTable
newest_first [] = []
newest_first (row ∷ rows) = insert_newest row (newest_first rows)

abbrev share_of : Option ShareRow → Option Share
share_of none = none
share_of (some row) = some (to_share row)

module _ (o : Outside ShareTable) where
  unfoldable pub get_share_by_id : String → Action (Option Share)
  get_share_by_id id = do row ← statement o (select_first (is_share id)); pure (share_of row)

  unfoldable pub get_share_by_token_hash : String → Action (Option Share)
  get_share_by_token_hash token_hash = do
    row ← statement o (select_first (is_token token_hash))
    pure (share_of row)

  unfoldable pub list_shares : Action (List Share)
  list_shares = do rows ← statement o (λ t. (newest_first t, t)); pure (map to_share rows)

  abbrev or_fail : {A : Type 0} → String → Option A → Action A
  or_fail message none = throw (failure message)
  or_fail message (some a) = pure a

  abbrev unless_refused : Bool → Action (Unit {0})
  unless_refused true = pure tt
  unless_refused false = throw (failure "D1_ERROR")

  unfoldable pub create_share_record : CreateShareRecordInput → Action Share
  unfolding get_share_by_id new_share insert_share
  create_share_record input = do
    id ← random_uuid o
    now ← date_now o
    written ← statement o (insert_share (new_share id input now))
    unless_refused written
    share ← get_share_by_id id
    or_fail "Share write failed" share

  unfoldable pub update_found :
      String → UpdateShareRecordInput → Option Share → Action (Option Share)
  unfolding get_share_by_id
  update_found id input none = pure none
  update_found id input (some current) = do
    now ← date_now o
    _ ← statement o (update_where (is_share id) (set_updated current input now))
    get_share_by_id id

  unfoldable pub update_share_record : String → UpdateShareRecordInput → Action (Option Share)
  unfolding update_found get_share_by_id
  update_share_record id input = do current ← get_share_by_id id; update_found id input current

  unfoldable pub increment_share_access_count : String → Action (Unit {0})
  increment_share_access_count id = do
    now ← date_now o
    _ ← statement o (update_where (is_share id) (set_accessed now))
    pure tt

  unfoldable pub try_consume_share_download : String → Action Bool
  try_consume_share_download id = do
    now ← date_now o
    changed ←
        statement o (update_where (λ row. is_share id row && may_consume row) (set_consumed now))
    pure (changed == 1)

  unfoldable pub upgrade_share_password_hash : String → String → String → Action Bool
  upgrade_share_password_hash id current_hash upgraded_hash = do
    now ← date_now o
    changed ← statement o (
        update_where (λ row. is_share id row && has_password current_hash row)
          (set_upgraded upgraded_hash now))
    pure (changed == 1)

  unfoldable pub delete_share_record : String → Action Bool
  delete_share_record id = do
    changed ← statement o (delete_where (is_share id))
    pure (ltb 0 changed)
