-- ===== src/Base/Keeps.antt =====
-- Invariants of the table under async functions: one rule for each way to build one. The other
-- requests, which may run before every statement, are assumed to keep the invariant as well.
use Prim.Native.Nat.{ℕ}
use mathlib.Core.Logic.{inl, inr}
use mathlib.Core.Bool.{Bool, true, false}
use ilist.Base.Tests.{if◌then◌else◌, Bool-cases}
use ilist.Base.Exec.{
  World, Outside, Exec, Result, ok, err, Failure, pure, throw, lift, attempt, continue, ◌>>=◌,
  statement, date_now, random_uuid, provider_call,
}

-- `m` keeps `P` of the table, whether it returns or throws
pub record Keeps {T C A : Type 0} (P : T → Type 0) (m : Exec (World T C) A) : Type 0 where
  pub at : (w : World T C) → P w.table → P (m w).1.table

-- the other requests keep `P`
pub record Fair {T : Type 0} (P : T → Type 0) (o : Outside T) : Type 0 where
  pub keeps : (n : ℕ) (t : T) → P t → P (o.others n t)

module _ {T C A : Type 0} {P : T → Type 0} where
  pub Keeps-pure : (a : A) → Keeps {C = C} P (pure a)
  Keeps-pure a = record { at = λ w h. h }

  pub Keeps-throw : (e : Failure) → Keeps {C = C} {A = A} P (throw e)
  Keeps-throw e = record { at = λ w h. h }

  pub Keeps-lift : (r : Result A) → Keeps {C = C} P (lift r)
  Keeps-lift r = record { at = λ w h. h }

  pub Keeps-if :
      (b : Bool) (m n : Exec (World T C) A) → Keeps P m → Keeps P n → Keeps P (if b then m else n)
  Keeps-if true m n k l = k
  Keeps-if false m n k l = l

  pub Keeps-attempt : (m : Exec (World T C) A) → Keeps P m → Keeps P (attempt m)
  Keeps-attempt m k = record { at = λ w h. k.at w h }

module _ {T C A B : Type 0} {P : T → Type 0} where
  Keeps-continue :
      (f : A → Exec (World T C) B) (r : Result A × World T C)
      → ((a : A) → Keeps P (f a))
      → P r.1.table
      → P (continue f r).1.table
  Keeps-continue f (ok a, w) k h = (k a).at w h
  Keeps-continue f (err e, w) k h = h

  pub Keeps-bind :
      (m : Exec (World T C) A) (f : A → Exec (World T C) B)
      → Keeps P m
      → ((a : A) → Keeps P (f a))
      → Keeps P (m >>= f)
  unfolding ◌>>=◌
  Keeps-bind m f k l = record { at = λ w h. Keeps-continue f (m w) l (k.at w h) }

module _ {T C : Type 0} {P : T → Type 0} (o : Outside T) where
  pub Keeps-date_now : Keeps {C = C} P (date_now o)
  unfolding date_now
  Keeps-date_now = record { at = λ w h. h }

  pub Keeps-random_uuid : Keeps {C = C} P (random_uuid o)
  unfolding random_uuid
  Keeps-random_uuid = record { at = λ w h. h }

  pub Keeps-provider_call :
      {A : Type 0} (c : C) (answer : ℕ → Result A) → Keeps P (provider_call o c answer)
  unfolding provider_call
  Keeps-provider_call c answer = record { at = λ w h. h }

  pub Keeps-statement :
      {A : Type 0} (f : T → A × T)
      → Fair P o
      → ((t : T) → P t → P (f t).1)
      → Keeps {C = C} P (statement o f)
  unfolding statement
  Keeps-statement f fair k = record {
    at = λ w h. elim (Bool-cases (o.db_fails w.tick)) [
      | inl down ↦ rw down (fair.keeps w.tick w.table h)
      | inr up ↦ rw up (k _ (fair.keeps w.tick w.table h))
    ];
  }
