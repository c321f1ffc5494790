-- ===== src/FmCore/Path/Splitting.antt =====
-- The parts of a path that is split at both separators (src/ui-common/fm-core/src/path.rs).
use app_full.Base.{
  ℕ, ◌≡◌, ◌≢◌, Bool, false, Bool-cases, inl, inr, ◌==◌, ◌||◌, List, [], ◌∷◌, All, retain, arith,
}
use app_full.Base.Texts.{Str, Lacks, is_empty, split, push_head}
use app_full.FmCore.Path.{slash, backslash, non_empty, split_path, split_joined}
use app_full.FmCore.Path.Joining.{IsComponent}

push_head-Lacks :
    (d : ℕ) (ps : List Str) → d ≢ slash → All (Lacks slash) ps → All (Lacks slash) (push_head d ps)
unfolding push_head
push_head-Lacks d [] n h = ((n, tt), tt)
push_head-Lacks d (p ∷ ps) n h = ((n, h.0), h.1)

split-Lacks :
    (sep : ℕ → Bool) (s : Str)
    → ((c : ℕ) → sep c ≡ false → c ≢ slash)
    → All (Lacks slash) (split sep s)
unfolding split
split-Lacks sep [] f = (tt, tt)
split-Lacks sep (c ∷ s) f =
    let rest = split-Lacks sep s f in
    elim (Bool-cases (sep c)) [
      | inl e ↦ rw e (tt, rest)
      | inr e ↦ rw e (push_head-Lacks c _ (f c e) rest)
    ]

retain-IsComponent : (ps : List Str) → All (Lacks slash) ps → All IsComponent (retain non_empty ps)
unfolding non_empty is_empty
retain-IsComponent [] h = tt
retain-IsComponent ([] ∷ ps) h = retain-IsComponent ps h.1
retain-IsComponent ((c ∷ p) ∷ ps) h =
    (record { filled = λ e. cc; whole = h.0 }, retain-IsComponent ps h.1)

pub split_path-IsComponent : (path : Str) → All IsComponent (split_path path)
unfolding split_path
split_path-IsComponent path =
    retain-IsComponent _
      (split-Lacks (λ c. c == slash || c == backslash) path λ c e k. ground arith)

pub split_joined-IsComponent : (path : Str) → All IsComponent (split_joined path)
unfolding split_joined
split_joined-IsComponent path =
    retain-IsComponent _ (split-Lacks (λ c. c == slash) path λ c e k. ground arith)
