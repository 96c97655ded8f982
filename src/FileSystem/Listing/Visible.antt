-- ===== src/FileSystem/Listing/Visible.antt =====
-- What a visitor gets to see.
use Prim.Native.String.{String}
use ilist.Base.{true, false, List, ◌≡◌, inl, inr, arith, Bool-cases}
use ilist.Base.Exec.{Outside, Result, ok, err, continue, ◌>>=◌, statement}
use ilist.FileSystem.Row.{EntryRow, FileStore}
use ilist.FileSystem.Ancestors.{is_effectively_public}
use ilist.FileSystem.Db.{Action, FileWorld, read_entries}
use ilist.FileSystem.Listing.{Texts, visible_to, resolve_entry_path}

-- what is returned has the property in the tables at that time
record Gives {A : Type 0} (P : A → FileStore → Type 0) (m : Action A) : Type 0 where
  pub at : (w : FileWorld) (a : A) → (m w).0 ≡ ok a → P a (m w).1.table

module _ {A B : Type 0} (P : B → FileStore → Type 0) where
  Gives-continue :
      (f : A → Action B) (r : Result A × FileWorld) (b : B)
      → ((a : A) → Gives P (f a))
      → (continue f r).0 ≡ ok b
      → P b (continue f r).1.table
  Gives-continue f (ok a, w) b k e = (k a).at w b e
  Gives-continue f (err x, w) b k e = cc

  Gives-bind : (m : Action A) (f : A → Action B) → ((a : A) → Gives P (f a)) → Gives P (m >>= f)
  unfolding ◌>>=◌
  Gives-bind m f k = record { at = λ w b e. Gives-continue f (m w) b k e }

abbrev IsPublicNow : EntryRow → FileStore → Type 0
IsPublicNow row s = is_effectively_public row.id s.entries ≡ true

module _ (o : Outside FileStore) (texts : Texts) where
  visible_to-IsPublicNow :
      (current : EntryRow) → Gives IsPublicNow (visible_to o texts false current)
  unfolding visible_to read_entries statement ◌>>=◌
  visible_to-IsPublicNow current = record {
    at = λ w row e. elim (Bool-cases (o.db_fails w.tick)) [
      | inl down ↦ let no = rw down at e in absurd (cc)
      | inr up ↦
          elim (Bool-cases (is_effectively_public current.id (o.others w.tick w.table).entries)) [
            | inl shown ↦
                let same : current ≡ row = ground (arith, rw (up, shown) at e) in
                rw (up, shown) (rw same at shown)
            | inr hidden ↦ let no = rw (up, hidden) at e in absurd (cc)
          ]
    ];
  }

  -- A path that resolves for a visitor leads to an entry that is effectively public at that time,
  -- whatever other requests did between the steps.
  pub resolve_entry_path-is_effectively_public :
      (segments : List String) (w : FileWorld) (row : EntryRow)
      → (resolve_entry_path o texts segments false w).0 ≡ ok row
      → is_effectively_public row.id (resolve_entry_path o texts segments false w).1.table.entries
        ≡ true
  unfolding resolve_entry_path
  resolve_entry_path-is_effectively_public segments w row e =
      (Gives-bind IsPublicNow _ _ (λ found.
          Gives-bind IsPublicNow _ _
            (λ root. Gives-bind IsPublicNow _ _ visible_to-IsPublicNow))).at
        w row e
