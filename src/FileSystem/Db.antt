-- ===== src/FileSystem/Db.antt =====
-- How the functions of worker/file-system.ts reach the two tables and the bucket: each call is one
-- step, before which other requests may run and which may fail without an effect.
use ilist.Base.{ℕ, String, Bool, true, false, Option, none, List, ◌∷◌, text_eq, exists_in}
use ilist.Base.Exec.{Exec, Outside, World, Result, pure, lift, ◌>>=◌, statement, date_now}
use ilist.Base.Table.{deleted}
use ilist.FileSystem.Row.{OperationRow, FileStore}
use ilist.FileSystem.Store.{Entries, Outcome}
use ilist.FileSystem.Store.Operations.{Operations, claim_operation, claimed_operation}

-- A request keeps no record of provider calls here: the bucket is part of the store.
abbrev pub FileWorld : Type 0
FileWorld = World FileStore (Unit {0})

abbrev pub Action : Type 0 → Type 0
Action A = Exec FileWorld A

abbrev pub on_entries : {A : Type 0} → (Entries → Outcome A) → FileStore → Result A × FileStore
on_entries f s = let (r, t) = f s.entries in (r, record s { entries = t })

abbrev pub on_operations : {A : Type 0} → (Operations → A × Operations) → FileStore → A × FileStore
on_operations f s = let (a, t) = f s.operations in (a, record s { operations = t })

abbrev pub set_blobs : {A : Type 0} → A → List String → FileStore → A × FileStore
set_blobs a blobs s = (a, record s { blobs = blobs })

module _ (o : Outside FileStore) where
  module _ {A : Type 0} where
    unfoldable pub read_entries : (Entries → A) → Action A
    read_entries f = statement o (λ s. (f s.entries, s))

    unfoldable pub read_operations : (Operations → A) → Action A
    read_operations f = statement o (λ s. (f s.operations, s))

    unfoldable pub write_entries : (Entries → Outcome A) → Action A
    write_entries f = do outcome ← statement o (on_entries f); lift outcome

    -- with the time of the call
    unfoldable pub stamp_entries : (ℕ → Entries → Outcome A) → Action A
    unfolding write_entries
    stamp_entries f = do now ← date_now o; write_entries (f now)

    unfoldable pub write_operations : (Operations → A × Operations) → Action A
    write_operations f = statement o (on_operations f)

    unfoldable pub stamp_operations : (ℕ → Operations → A × Operations) → Action A
    unfolding write_operations
    stamp_operations f = do now ← date_now o; write_operations (f now)

  abbrev pub claimed_row : String → String → Bool → Action (Option OperationRow)
  claimed_row id claim_owner true = read_operations (claimed_operation id claim_owner)
  claimed_row id claim_owner false = pure none

  unfoldable pub claim_storage_recovery_operation :
      String → String → ℕ → ℕ → Action (Option OperationRow)
  unfolding stamp_operations
  claim_storage_recovery_operation id claim_owner lease_duration_ms now = do
    changed ← stamp_operations (claim_operation id claim_owner lease_duration_ms now)
    claimed_row id claim_owner changed

  -- `R2_BUCKET.get`, whether there is a blob
  unfoldable pub get_blob : String → Action Bool
  get_blob key = statement o (λ s. (exists_in (λ k. text_eq k key) s.blobs, s))

  unfoldable pub put_blob : String → Action (Unit {0})
  put_blob key = statement o (λ s. set_blobs tt (key ∷ s.blobs) s)

  unfoldable pub delete_blob : String → Action (Unit {0})
  delete_blob key = statement o (λ s. set_blobs tt (deleted (λ k. text_eq k key) s.blobs) s)
