-- ===== src/FmCore/Names.antt =====
-- Choosing a free name (src/ui-common/fm-core/src/names.rs).
pub mod Free
pub mod Stem
use app_full.Base.{
  ℕ, zero, suc, ◌+◌, ◌-◌, ◌^◌, ◌≡◌, refl, Bool, true, false, List, [], ◌∷◌, ◌++◌, Option, none,
  some, not, if◌then◌else◌, ltb, take, drop,
}
use app_full.Base.Texts.{Str, codes, rfind, contains, str_eq}

abbrev dot : ℕ
dot = b'.'

-- `match (is_dir, name.rfind('.'))`
unfoldable pub split_stem_ext : Str → Bool → Str × Str
unfolding rfind
split_stem_ext name true = (name, [])
split_stem_ext name false = elim (rfind dot name) [
  | some i ↦ if ltb 0 i then (take i name, drop i name) else (name, [])
  | none ↦ (name, [])
]

-- `.map(make).find(|c| !taken.contains(c))` over `left` numbers from `n` on.
find_free : ℕ → ℕ → (ℕ → Str) → List Str → Option Str
find_free zero n candidate taken = none
find_free (suc left) n candidate taken =
    let rest = find_free left (n + 1) candidate taken in
    if contains taken (candidate n) then rest else some (candidate n)

-- How many numbers `1..u32::MAX` holds.
unfoldable pub range_size : ℕ
range_size = 2 ^ 32 - 2

abbrev unwrap_or : Option Str → Str → Str
unwrap_or none d = d
unwrap_or (some s) d = s

unfoldable pub first_free : Str → Bool → List Str → (Str → Str → ℕ → Str) → Str
unfolding find_free range_size split_stem_ext
first_free name is_dir taken make =
    let (stem, ext) = split_stem_ext name is_dir in
    unwrap_or (find_free range_size 1 (make stem ext) taken) name

unfoldable pub keep_or_number : Str → Bool → List Str → (Str → Str → ℕ → Str) → Str
keep_or_number name is_dir taken make =
    if not (contains taken name) then name else first_free name is_dir taken make
