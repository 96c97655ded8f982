-- ===== src/AuthLimit/Run/Leases.antt =====
-- Reservations of verifications in runs of the statements of worker/db.ts.
use ilist.Base.{ℕ, ◌<◌, String, Bool, false, some, List, [], ◌∷◌, ◌≡◌, refl, arith, All, text_eq}
use ilist.AuthLimit.Row.{AuthRateLimitRow, may_reserve}
use ilist.AuthLimit.Run.{
  Statement, reserve, record_failure, clear, release, apply_present, apply, run, time,
}

abbrev pub names_token : String → Statement → Bool
names_token token (reserve r) = false
names_token token (record_failure f) = text_eq token f.token
names_token token (clear t now) = text_eq token t
names_token token (release t now) = text_eq token t

-- in time, and not by the holder
abbrev pub IsForeign : String → ℕ → Statement → Type 0
IsForeign token expires s = (time s < expires) × (names_token token s ≡ false)

apply_present_foreign :
    (token : String) (expires : ℕ) (s : Statement) (row : AuthRateLimitRow)
    → IsForeign token expires s
    → row.reservation_token ≡ some token
    → row.reservation_expires_at ≡ expires
    → apply_present s row ≡ some row
unfolding apply_present may_reserve
apply_present_foreign token expires (reserve r) row f e g = ground arith
apply_present_foreign token expires (record_failure a) row f e g = ground arith
apply_present_foreign token expires (clear t now) row f e g = ground arith
apply_present_foreign token expires (release t now) row f e g = ground arith

-- While a verification is reserved, no statements that are sent before the reservation runs out
-- and do not name its token, in any number and order, change the row of its key.
pub run_reserved :
    (key token : String) (expires : ℕ) (ss : List Statement) (row : AuthRateLimitRow)
    → All (IsForeign token expires) ss
    → row.reservation_token ≡ some token
    → row.reservation_expires_at ≡ expires
    → run key ss (some row) ≡ some row
unfolding run apply
run_reserved key token expires [] row f e g = refl
run_reserved key token expires (s ∷ ss) row (f, more) e g =
    rw (apply_present_foreign token expires s row f e g)
      (run_reserved key token expires ss row more e g)
