-- ===== src/Base/Exec.antt =====
-- Async functions of the Worker: they share a database with other requests, may throw, and read
-- the clock, random identifiers and the answers of storage providers from outside.
-- Between two statements of one function any other request may run.
use Prim.Native.Nat.{ℕ, ◌+◌}
use Prim.Native.String.{String}
use mathlib.Core.Bool.{Bool}
use mathlib.Core.List.{List, ◌∷◌}
use ilist.Base.Tests.{if◌then◌else◌}

-- `new Error(message)`, `new HttpError(status, code, …)` and `S3Error`; `rate_limited` is the
-- HttpError 429 `AUTH_RATE_LIMITED` with its `retryAfter`
pub data Failure : Type 0 where
  failure : String → Failure
  http_error s3_error : ℕ → String → Failure
  rate_limited : ℕ → Failure

pub data Result (A : Type 0) : Type 0 where
  ok : A → Result A
  err : Failure → Result A

-- What a request sees: the table, the number of the next outside event, and the provider calls
-- made so far, newest first.
pub record World (T C : Type 0) : Type 0 where
  pub table : T
  pub tick : ℕ
  pub calls : List C

-- The outside, by the number of the event. `others` is what other requests did to the table
-- before the statement; `db_fails` says that D1 refuses the statement, which then has no effect.
pub record Outside (T : Type 0) : Type 0 where
  pub clock : ℕ → ℕ
  pub uuid : ℕ → String
  pub others : ℕ → T → T
  pub db_fails : ℕ → Bool

abbrev pub Exec : Type 0 → Type 0 → Type 0
Exec S A = S → Result A × S

module _ {S A : Type 0} where
  abbrev pub pure : A → Exec S A
  pure a s = (ok a, s)

  abbrev pub throw : Failure → Exec S A
  throw e s = (err e, s)

  abbrev pub lift : Result A → Exec S A
  lift r s = (r, s)

  abbrev caught : Result A × S → Result (Result A) × S
  caught (r, s) = (ok r, s)

  -- `try`: what was written before the exception stays written
  abbrev pub attempt : Exec S A → Exec S (Result A)
  attempt m s = caught (m s)

module _ {S A B : Type 0} where
  abbrev pub continue : (A → Exec S B) → Result A × S → Result B × S
  continue f (ok a, s) = f a s
  continue f (err e, s) = (err e, s)

  infixl 5 ◌>>=◌ ◌>>◌
  unfoldable pub ◌>>=◌ : Exec S A → (A → Exec S B) → Exec S B
  ◌>>=◌ m f s = continue f (m s)

  abbrev pub ◌>>◌ : Exec S A → Exec S B → Exec S B
  m >> n = m >>= λ _. n

module _ {T C : Type 0} (o : Outside T) where
  abbrev pub effect : {A : Type 0} → World T C → A × T → Result A × World T C
  effect w (a, t) = (ok a, record w { table = t; tick = w.tick + 1 })

  -- one awaited SQL statement
  unfoldable pub statement : {A : Type 0} → (T → A × T) → Exec (World T C) A
  statement f w =
      let before = o.others w.tick w.table in
      if o.db_fails w.tick
      then (err (failure "D1_ERROR"), record w { table = before; tick = w.tick + 1 })
      else effect w (f before)

  -- `Date.now()`
  unfoldable pub date_now : Exec (World T C) ℕ
  date_now w = (ok (o.clock w.tick), record w { tick = w.tick + 1 })

  -- `crypto.randomUUID()`
  unfoldable pub random_uuid : Exec (World T C) String
  random_uuid w = (ok (o.uuid w.tick), record w { tick = w.tick + 1 })

  -- an awaited provider request, recorded before its answer is known
  unfoldable pub provider_call : {A : Type 0} → C → (ℕ → Result A) → Exec (World T C) A
  provider_call c answer w = (answer w.tick, record w { tick = w.tick + 1; calls = c ∷ w.calls })
