-- ===== src/Base/Outcome.antt =====
-- The program's errors (src/common/common/src/error.rs), and what an operation with state returns:
-- a value, an error, a panic, or nothing because its future was dropped at an `await`. State that was
-- written before stays written, and what follows a panic or a drop does not run.
use app_full.Base.{Option, none, some}
use app_full.Base.Texts.{Str}

pub data AppError : Type 0 where
  cancelled : AppError
  io : Str → AppError
  remote : Str → AppError
  config : Str → AppError
  other : Str → AppError

pub data Outcome {ℓ} (A : Type ℓ) : Type ℓ where
  ok : A → Outcome A
  err : AppError → Outcome A
  panicked : Outcome A
  dropped : Outcome A

abbrev pub Exec : Type 0 → Type 0 → Type 0
Exec S A = S → Outcome A × S

module _ {S A B : Type 0} where
  abbrev continue : Outcome A → (A → Exec S B) → Exec S B
  continue (ok a) f s = f a s
  continue (err e) f s = (err e, s)
  continue panicked f s = (panicked, s)
  continue dropped f s = (dropped, s)

  infixl 10 ◌>>=◌
  abbrev pub ◌>>=◌ : Exec S A → (A → Exec S B) → Exec S B
  ◌>>=◌ m f s = let (r, s') = m s in continue r f s'

module _ {S B : Type 0} where
  infixl 10 ◌>>◌
  abbrev pub ◌>>◌ : Exec S (Unit {0}) → Exec S B → Exec S B
  m >> k = m >>= λ _. k

module _ {S A : Type 0} where
  abbrev pub pure : A → Exec S A
  pure a s = (ok a, s)

  abbrev pub raise : AppError → Exec S A
  raise e s = (err e, s)

  abbrev pub gets : (S → A) → Exec S A
  gets f s = (ok (f s), s)

  -- `expect`, `unwrap` and an index that is checked.
  abbrev pub expect : Option A → Exec S A
  expect none s = (panicked, s)
  expect (some a) s = (ok a, s)

module _ {S : Type 0} where
  abbrev pub modify : (S → S) → Exec S (Unit {0})
  modify f s = (ok tt, f s)
