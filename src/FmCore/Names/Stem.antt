-- ===== src/FmCore/Names/Stem.antt =====
-- What `split_stem_ext` returns (src/ui-common/fm-core/src/names.rs).
use app_full.Base.{
  ℕ, zero, suc, ◌≡◌, ◌≢◌, ◌⊎◌, inl, inr, refl, Bool, true, false, [], ◌∷◌, ◌++◌, arith,
  Option-cases, take, drop, take-append-drop, ltb, some, if◌then◌else◌,
}
use app_full.Base.Texts.{Str, Lacks, rfind, rfind-none, drop-rfind}
use app_full.FmCore.Names.{dot, split_stem_ext}

-- No dot, or the first byte is the only one.
abbrev pub HasNoExtension : Str → Type 0
HasNoExtension name = Lacks dot name ⊎ ((r : Str) × (name ≡ dot ∷ r) × Lacks dot r)

-- The last dot with what stands behind it, and it is not the first byte.
abbrev pub IsExtension : Str → Str → Type 0
IsExtension stem ext = (stem ≢ []) × ((r : Str) × (ext ≡ dot ∷ r) × Lacks dot r)

take-suc-ne-nil : (i : ℕ) (s r : Str) (c : ℕ) → drop (suc i) s ≡ c ∷ r → take (suc i) s ≢ []
take-suc-ne-nil i [] r c e = λ p. cc
take-suc-ne-nil i (d ∷ s) r c e = λ p. cc

-- The stem and the extension of a name.
abbrev pub IsSplit : Str → Bool → Str × Str → Type 0
IsSplit name true (stem, ext) = (stem ≡ name) × (ext ≡ [])
IsSplit name false (stem, ext) =
    (HasNoExtension name × (stem ≡ name) × (ext ≡ []))
    ⊎ (IsExtension stem ext × (stem ++ ext ≡ name))

IsSplit-at :
    (name : Str) (i : ℕ)
    → rfind dot name ≡ some i
    → IsSplit name false (if ltb 0 i then (take i name, drop i name) else (name, []))
IsSplit-at name zero e = inl (inr (drop-rfind dot name 0 e), refl, refl)
IsSplit-at name (suc i) e =
    let (r, at, clean) = drop-rfind dot name (suc i) e in
    rw (lt→ltb_suc i)
      (inr ((take-suc-ne-nil i name r dot at, (r, at, clean)), take-append-drop (suc i) name))
  where
    lt→ltb_suc : (k : ℕ) → ltb 0 (suc k) ≡ true
    lt→ltb_suc k = ground arith

-- Nothing is split off the name of a directory, nor off the name of a file that has no dot or whose
-- only dot is its first byte. Any other name of a file is split at its last dot: the extension is
-- this dot with what stands behind it, the stem is what stands before it and is not empty.
pub split_stem_ext-IsSplit :
    (name : Str) (is_dir : Bool) → IsSplit name is_dir (split_stem_ext name is_dir)
unfolding split_stem_ext
split_stem_ext-IsSplit name true = (refl, refl)
split_stem_ext-IsSplit name false = elim (Option-cases (rfind dot name)) [
  | inl e ↦ rw (e, split_stem_ext) (inl (inl (rfind-none dot name e), refl, refl))
  | inr (i, e) ↦ rw (e, split_stem_ext) (IsSplit-at name i e)
]
