-- ===== src/Upload/Rivals.antt =====
-- The other requests of worker/upload-session-store.ts, as what they do to the table between two
-- statements of one request: each row meets some statements, rows come and rows go.
use ilist.Base.{ℕ, Bool, true, List, [], ◌∷◌, ◌++◌, ◌≡◌, All, keep, map, Bool-cases, inl, inr}
use ilist.Base.Exec.{Outside}
use ilist.Base.Keeps.{Fair}
use ilist.Upload.Row.{UploadSessionRow}
use ilist.Upload.Run.{Statement, accepts, run}
use ilist.Upload.Provider.{UploadTable}
use ilist.Upload.Store.Safety.{AllSound, run-IsSound}

pub record Rivals : Type 0 where
  pub schedule : ℕ → UploadSessionRow → List Statement
  pub kept : ℕ → UploadSessionRow → Bool
  pub inserted : ℕ → List UploadSessionRow

unfoldable pub interfere : Rivals → ℕ → UploadTable → UploadTable
interfere r n t = r.inserted n ++ map (λ row. run (r.schedule n row) row) (keep (r.kept n) t)

abbrev pub among : Rivals → Outside UploadTable → Outside UploadTable
among r o = record o { others = interfere r }

-- their statements pass the argument checks of the store, and the rows that they insert are sound
pub record Proper (r : Rivals) : Type 0 where
  pub scheduled : (n : ℕ) (row : UploadSessionRow) → All (λ s. accepts s ≡ true) (r.schedule n row)
  pub inserts : (n : ℕ) → AllSound (r.inserted n)

All-map-run :
    (f : UploadSessionRow → List Statement) (t : UploadTable)
    → ((row : UploadSessionRow) → All (λ s. accepts s ≡ true) (f row))
    → AllSound t
    → AllSound (map (λ row. run (f row) row) t)
All-map-run f [] a h = tt
All-map-run f (row ∷ t) a (p, h) = (run-IsSound (f row) row (a row) p, All-map-run f t a h)

All-keep : (test : UploadSessionRow → Bool) (t : UploadTable) → AllSound t → AllSound (keep test t)
All-keep test [] h = tt
All-keep test (row ∷ t) (p, h) = elim (Bool-cases (test row)) [
  | inl hit ↦ rw hit (p, All-keep test t h)
  | inr miss ↦ rw miss (All-keep test t h)
]

All-append : (t u : UploadTable) → AllSound t → AllSound u → AllSound (t ++ u)
All-append [] u h k = k
All-append (row ∷ t) u (p, h) k = (p, All-append t u h k)

pub among-Fair : (r : Rivals) (o : Outside UploadTable) → Proper r → Fair AllSound (among r o)
unfolding interfere
among-Fair r o p = record {
  keeps = λ n t h.
      All-append (r.inserted n) _ (p.inserts n)
        (All-map-run (r.schedule n) (keep (r.kept n) t) (p.scheduled n) (All-keep (r.kept n) t h));
}
