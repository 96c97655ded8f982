-- ===== src/AuthLimit/Store.antt =====
-- The functions of worker/db.ts on auth_rate_limits.
use ilist.Base.{
  ℕ, min, max, String, Bool, Option, none, some, List, [], ◌∷◌, ◌==◌, ◌&&◌, ltb, leb, text_eq,
  if◌then◌else◌, find_first, take, keep, exists_in, map,
}
use ilist.Base.Exec.{Exec, Outside, World, pure, ◌>>=◌, statement}
use ilist.Base.Table.{update_where, updated, delete_where, select_first}
use ilist.AuthLimit.Row.{
  AuthRateLimitRow, Reservation, FailedAttempt, may_reserve, reserved, first_reserved, failed,
  released, has_token,
}

abbrev pub LimitTable : Type 0
LimitTable = List AuthRateLimitRow

abbrev pub is_key : String → AuthRateLimitRow → Bool
is_key key row = text_eq row.key_hash key

-- `INSERT … ON CONFLICT(key_hash) DO UPDATE … WHERE … RETURNING *`
unfoldable pub upsert : String → Reservation → LimitTable → Option AuthRateLimitRow × LimitTable
upsert key r [] = (some (first_reserved key r), first_reserved key r ∷ [])
upsert key r (row ∷ rows) =
    let (answer, rest) = upsert key r rows in
    if is_key key row
    then (if may_reserve r row
        then (some (reserved r row), reserved r row ∷ rows)
        else (none, row ∷ rows))
    else (answer, row ∷ rest)

abbrev counted : FailedAttempt → Option AuthRateLimitRow → Option ℕ
counted f none = none
counted f (some row) = some (failed f row).failure_count

-- `UPDATE … WHERE key_hash = ? AND reservation_token = ? RETURNING failure_count`, its first row
unfoldable pub fail_where : String → FailedAttempt → LimitTable → Option ℕ × LimitTable
fail_where key f t = (
  counted f (find_first (λ row. is_key key row && has_token f.token row) t),
  updated (λ row. is_key key row && has_token f.token row) (failed f) t,
)

-- `ORDER BY updated_at ASC`
unfoldable pub insert_oldest : AuthRateLimitRow → LimitTable → LimitTable
insert_oldest row [] = row ∷ []
insert_oldest row (r ∷ rs) =
    let rest = insert_oldest row rs in
    if leb row.updated_at r.updated_at then row ∷ r ∷ rs else r ∷ rest

unfoldable pub oldest_first : LimitTable → LimitTable
oldest_first [] = []
oldest_first (row ∷ rows) = insert_oldest row (oldest_first rows)

-- the inner SELECT of the deletion
unfoldable pub expired_keys : ℕ → ℕ → LimitTable → List String
unfolding oldest_first
expired_keys cutoff limit t =
    map (λ row. row.key_hash)
      (take limit (oldest_first (keep (λ row. ltb row.updated_at cutoff) t)))

unfoldable pub delete_expired : ℕ → ℕ → LimitTable → ℕ × LimitTable
unfolding expired_keys
delete_expired cutoff limit t =
    delete_where (λ row. exists_in (text_eq row.key_hash) (expired_keys cutoff limit t)) t

abbrev pub count_or_zero : Option ℕ → ℕ
count_or_zero none = 0
count_or_zero (some n) = n

module _ {C : Type 0} (o : Outside LimitTable) where
  unfoldable pub get_auth_rate_limit : String → Exec (World LimitTable C) (Option AuthRateLimitRow)
  get_auth_rate_limit key = statement o (select_first (is_key key))

  unfoldable pub reserve_auth_rate_limit_verification :
      String → Reservation → Exec (World LimitTable C) (Option AuthRateLimitRow)
  unfolding upsert
  reserve_auth_rate_limit_verification key r = statement o (upsert key r)

  unfoldable pub record_auth_rate_limit_failure :
      String → FailedAttempt → Exec (World LimitTable C) ℕ
  unfolding fail_where
  record_auth_rate_limit_failure key f = do
    row ← statement o (fail_where key f)
    pure (count_or_zero row)

  unfoldable pub clear_auth_rate_limit : String → String → Exec (World LimitTable C) Bool
  clear_auth_rate_limit key token = do
    changed ← statement o (delete_where (λ row. is_key key row && has_token token row))
    pure (changed == 1)

  unfoldable pub release_auth_rate_limit_verification :
      String → String → Exec (World LimitTable C) Bool
  release_auth_rate_limit_verification key token = do
    changed ← statement o (update_where (λ row. is_key key row && has_token token row) released)
    pure (changed == 1)

  unfoldable pub delete_auth_rate_limits_before : ℕ → ℕ → Exec (World LimitTable C) ℕ
  unfolding delete_expired
  delete_auth_rate_limits_before cutoff limit =
      statement o (delete_expired cutoff (max 1 (min 500 limit)))
