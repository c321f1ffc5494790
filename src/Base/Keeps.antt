-- ===== src/Base/Keeps.antt =====
-- Properties of the state that an operation keeps, one rule for each way to build an operation.
use app_full.Base.{Bool, true, false, Option, none, some, if◌then◌else◌}
use app_full.Base.Outcome.{
  Outcome, ok, err, panicked, dropped, Exec, ◌>>=◌, pure, gets, expect, modify,
}

-- However the operation ends, the state that it leaves has the property.
pub record Keeps {S A : Type 0} (P : S → Type 0) (m : Exec S A) : Type 0 where
  pub at : (s : S) → P s → P (m s).1

module _ {S A : Type 0} {P : S → Type 0} where
  pub Keeps-pure : (a : A) → Keeps P (pure {S = S} a)
  Keeps-pure a = record { at = λ s h. h }

  pub Keeps-gets : (f : S → A) → Keeps P (gets f)
  Keeps-gets f = record { at = λ s h. h }

  pub Keeps-expect : (o : Option A) → Keeps P (expect {S = S} o)
  Keeps-expect none = record { at = λ s h. h }
  Keeps-expect (some a) = record { at = λ s h. h }

  pub Keeps-if : (b : Bool) (m n : Exec S A) → Keeps P m → Keeps P n → Keeps P (if b then m else n)
  Keeps-if true m n km kn = km
  Keeps-if false m n km kn = kn

module _ {S : Type 0} {P : S → Type 0} where
  pub Keeps-modify : (f : S → S) → ((s : S) → P s → P (f s)) → Keeps P (modify f)
  Keeps-modify f h = record { at = h }

module _ {S A B : Type 0} {P : S → Type 0} where
  continued :
      (r : Outcome A) (f : A → Exec S B) (s : S)
      → ((a : A) → Keeps P (f a))
      → P s
      → P (◌>>=◌ {S = S} (λ t. (r, t)) f s).1
  continued (ok a) f s kf h = (kf a).at s h
  continued (err e) f s kf h = h
  continued panicked f s kf h = h
  continued dropped f s kf h = h

  pub Keeps-bind :
      (m : Exec S A) (f : A → Exec S B) → Keeps P m → ((a : A) → Keeps P (f a)) → Keeps P (m >>= f)
  Keeps-bind m f km kf = record { at = λ s h. let (r, s') = m s in continued r f s' kf (km.at s h) }

pub ruleset keeps_rules = (Keeps-pure, Keeps-gets, Keeps-expect, Keeps-if, Keeps-modify, Keeps-bind)
