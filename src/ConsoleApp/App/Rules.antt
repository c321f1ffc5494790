-- ===== src/ConsoleApp/App/Rules.antt =====
-- Properties of the state that the questions of the console application keep.
use app_full.Base.{
  ℕ, Bool, true, false, List, [], ◌∷◌, ◌++◌, All, All-append, ◌≡◌, refl, sym, ap, ◌∙◌, append_assoc,
}
use app_full.Base.Outcome.{AppError, Outcome, ok, err, panicked, dropped, pure, modify}
use app_full.Base.Keeps.{Keeps}
use app_full.ConsoleApp.App.{
  App, Call, list, Op, World, Pane, ask, settle, attempt, refresh, set_pane, pane_of, set_message,
}
use app_full.Base.Texts.{Str}

module _ {A B : Type 0} (P : App → Type 0) where
  settle-at :
      (r : Outcome A) (good : A → Op B) (bad : AppError → Op B) (s : App)
      → P s
      → ((a : A) → r ≡ ok a → P (good a s).1)
      → ((e : AppError) → P (bad e s).1)
      → P (settle r good bad s).1
  unfolding settle
  settle-at (ok a) good bad s h g b = g a refl
  settle-at (err e) good bad s h g b = b e
  settle-at panicked good bad s h g b = h
  settle-at dropped good bad s h g b = h

  -- The branch for success may use what was answered.
  pub attempt-at :
      (m : Op A) (good : A → Op B) (bad : AppError → Op B) (s : App)
      → P (m s).1
      → ((a : A) → (m s).0 ≡ ok a → P (good a (m s).1).1)
      → ((e : AppError) → P (bad e (m s).1).1)
      → P (attempt m good bad s).1
  unfolding attempt
  attempt-at m good bad s h g b = settle-at (m s).0 good bad (m s).1 h g b

module _ {A B : Type 0} {P : App → Type 0} where
  pub Keeps-attempt :
      (m : Op A) (good : A → Op B) (bad : AppError → Op B)
      → Keeps P m
      → ((a : A) → Keeps P (good a))
      → ((e : AppError) → Keeps P (bad e))
      → Keeps P (attempt m good bad)
  Keeps-attempt m good bad km kg kb = record {
    at = λ s h.
        attempt-at P m good bad s (km.at s h) (λ a _. (kg a).at (m s).1 (km.at s h))
          (λ e. (kb e).at (m s).1 (km.at s h));
  }

calls-set_pane : (side : Bool) (p : Pane) (s : App) → (set_pane side p s).calls ≡ s.calls
unfolding set_pane
calls-set_pane true p s = refl
calls-set_pane false p s = refl

-- A property of the calls that were logged.
module _ (P : List Call → Type 0) where
  abbrev pub Logged : App → Type 0
  Logged s = P s.calls

  -- The property lasts when the call is logged.
  abbrev pub Lasts : Call → Type 0
  Lasts c = (cs : List Call) → P cs → P (cs ++ c ∷ [])

  pub Keeps-ask :
      {A : Type 0} (c : Call) (answer : ℕ → Outcome A) → Lasts c → Keeps Logged (ask c answer)
  unfolding ask
  Keeps-ask c answer h = record { at = λ s k. h s.calls k }

  pub Keeps-set_message : (title body : Str) → Keeps Logged (set_message title body)
  unfolding set_message
  Keeps-set_message title body = record { at = λ s k. k }

  pub Keeps-refresh :
      (world : World) (side : Bool) → Lasts (list side) → Keeps Logged (refresh world side)
  unfolding refresh
  Keeps-refresh world side h = record {
    at = λ s k.
        attempt-at Logged (ask (list side) (λ n. world.refresh n side (pane_of side s)))
          (λ q. modify (set_pane side q)) (λ e. pure tt) s (h s.calls k)
          (λ q _. rw calls-set_pane (h s.calls k)) (λ e. h s.calls k);
  }

module _ (P : Call → Type 0) where
  pub All-Lasts : (c : Call) → P c → Lasts (All P) c
  All-Lasts c h cs k = All-append P cs (c ∷ []) k (h, tt)

-- The calls start with these.
abbrev pub StartsWith : List Call → List Call → Type 0
StartsWith cs calls = (rest : List Call) × (cs ++ rest ≡ calls)

pub StartsWith-Lasts : (cs : List Call) (c : Call) → Lasts (StartsWith cs) c
StartsWith-Lasts cs c calls (rest, e) =
    (rest ++ c ∷ [], sym (append_assoc cs rest (c ∷ [])) ∙ ap (λ t. t ++ c ∷ []) e)
