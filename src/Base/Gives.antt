-- ===== src/Base/Gives.antt =====
-- What holds of the result and of the state of an operation that ends well.
use app_full.Base.{◌≡◌, refl, Bool, true, false, if◌then◌else◌}
use app_full.Base.Outcome.{AppError, Outcome, ok, err, panicked, dropped, Exec, ◌>>=◌, raise}

-- If the operation returns a value, the value and the state that it leaves are related.
pub record Gives {S A : Type 0} (Post : A → S → Type 0) (m : Exec S A) : Type 0 where
  pub at : (s : S) (a : A) → (m s).0 ≡ ok a → Post a (m s).1

module _ {S A : Type 0} {Post : A → S → Type 0} where
  pub Gives-raise : (e : AppError) → Gives Post (raise {S = S} e)
  Gives-raise e = record { at = λ s a h. absurd (cc) }

  pub Gives-if :
      (b : Bool) (m n : Exec S A) → Gives Post m → Gives Post n → Gives Post (if b then m else n)
  Gives-if true m n gm gn = gm
  Gives-if false m n gm gn = gn

module _ {S A B : Type 0} (Post : B → S → Type 0) where
  continued :
      (r : Outcome A) (f : A → Exec S B) (s : S) (b : B)
      → ((a : A) → r ≡ ok a → (f a s).0 ≡ ok b → Post b (f a s).1)
      → (◌>>=◌ {S = S} (λ t. (r, t)) f s).0 ≡ ok b
      → Post b (◌>>=◌ {S = S} (λ t. (r, t)) f s).1
  continued (ok a) f s b g h = g a refl h
  continued (err e) f s b g h = absurd (cc)
  continued panicked f s b g h = absurd (cc)
  continued dropped f s b g h = absurd (cc)

module _ {S A B : Type 0} {Post : B → S → Type 0} where
  -- What the last step gives.
  pub Gives-bind :
      (m : Exec S A) (f : A → Exec S B) → ((a : A) → Gives Post (f a)) → Gives Post (m >>= f)
  Gives-bind m f gf = record {
    at = λ s b h. let (r, s') = m s in continued Post r f s' b (λ a e k. (gf a).at s' b k) h;
  }

module _ {S A B : Type 0} {P : A → S → Type 0} {Post : B → S → Type 0} where
  -- What the first step gives, the second step may use.
  pub Gives-then :
      (m : Exec S A) (f : A → Exec S B)
      → Gives P m
      → ((a : A) (s : S) → P a s → (b : B) → (f a s).0 ≡ ok b → Post b (f a s).1)
      → Gives Post (m >>= f)
  Gives-then m f gm gf = record {
    at = λ s b h.
        let (r, s') = m s in continued Post r f s' b (λ a e k. gf a s' (gm.at s a e) b k) h;
  }

module _ {S A B : Type 0} (P : S → Type 0) where
  ended :
      (r : Outcome A) (f : A → Exec S B) (s : S)
      → P s
      → ((a : A) → r ≡ ok a → P (f a s).1)
      → P (◌>>=◌ {S = S} (λ t. (r, t)) f s).1
  ended (ok a) f s h g = g a refl
  ended (err e) f s h g = h
  ended panicked f s h g = h
  ended dropped f s h g = h

  -- The state at the end has the property, if that behind the first step has it, and if the second
  -- step, which knows what the first one returned, leaves a state that has it.
  pub ended-bind :
      (m : Exec S A) (f : A → Exec S B) (s : S)
      → P (m s).1
      → ((a : A) → (m s).0 ≡ ok a → P (f a (m s).1).1)
      → P ((m >>= f) s).1
  ended-bind m f s h g = ended (m s).0 f (m s).1 h g

module _ {S A B : Type 0} where
  ok_of_continued :
      (r : Outcome A) (f : A → Exec S B) (s : S) (b : B)
      → (◌>>=◌ {S = S} (λ t. (r, t)) f s).0 ≡ ok b
      → (a : A) × (r ≡ ok a) × ((f a s).0 ≡ ok b)
  ok_of_continued (ok a) f s b h = (a, refl, h)
  ok_of_continued (err e) f s b h = absurd (cc)
  ok_of_continued panicked f s b h = absurd (cc)
  ok_of_continued dropped f s b h = absurd (cc)

  -- An operation of two steps that returns has two steps that return.
  pub ok_of_bind :
      (m : Exec S A) (f : A → Exec S B) (s : S) (b : B)
      → ((m >>= f) s).0 ≡ ok b
      → (a : A) × ((m s).0 ≡ ok a) × ((f a (m s).1).0 ≡ ok b)
  ok_of_bind m f s b h = ok_of_continued (m s).0 f (m s).1 b h

module _ {S A B : Type 0} where
  -- `Gives-then` for one state at the start.
  pub then_at :
      (P : A → S → Type 0) (Post : B → S → Type 0) (m : Exec S A) (f : A → Exec S B) (s : S)
      → ((a : A) → (m s).0 ≡ ok a → P a (m s).1)
      → ((a : A) (t : S) → P a t → (b : B) → (f a t).0 ≡ ok b → Post b (f a t).1)
      → (b : B) → ((m >>= f) s).0 ≡ ok b
      → Post b ((m >>= f) s).1
  then_at P Post m f s g k b h =
      continued Post (m s).0 f (m s).1 b (λ a e j. k a (m s).1 (g a e) b j) h

module _ {A : Type 0} where
  pub ok_injective : {a b : A} → ok a ≡ ok b → a ≡ b
  ok_injective h = cc
