-- ===== src/FmCore/Path.antt =====
-- Joining and splitting of paths (src/ui-common/fm-core/src/path.rs).
pub mod Joining
pub mod RoundTrip
pub mod Stable
pub mod Splitting
use app_full.Base.{
  ℕ, Bool, true, false, List, [], ◌∷◌, ◌++◌, ◌&&◌, ◌||◌, not, ◌==◌, leb, ◌≡◌, refl, if◌then◌else◌,
  retain,
}
use app_full.Base.Texts.{Str, codes, is_empty, ends_with, split}

abbrev pub slash : ℕ
slash = b'/'

abbrev pub backslash : ℕ
backslash = b'\\'

is_ascii_alphabetic : ℕ → Bool
is_ascii_alphabetic c = leb b'A' c && leb c b'Z' || leb b'a' c && leb c b'z'

-- Two bytes, a letter and a colon.
unfoldable pub is_drive_segment : Str → Bool
unfolding is_ascii_alphabetic
is_drive_segment (c ∷ d ∷ []) = d == b':' && is_ascii_alphabetic c
is_drive_segment _ = false

-- The path after the first segment.
first_segment : Bool → Str → Str
first_segment windows seg =
    if windows && is_drive_segment seg then seg ++ slash ∷ [] else slash ∷ seg

-- One later round of the loop of `join_with`.
push_segment : Bool → Str → Str → Str
push_segment windows path seg =
    let already_separated =
      ends_with (slash ∷ []) path || windows && ends_with (backslash ∷ []) path in
    (if already_separated then path else path ++ slash ∷ []) ++ seg

join_rest : Bool → Str → List Str → Str
join_rest windows path [] = path
join_rest windows path (seg ∷ segs) = join_rest windows (push_segment windows path seg) segs

unfoldable pub join_with : List Str → Bool → Str
unfolding first_segment push_segment join_rest is_drive_segment ends_with
join_with [] windows = slash ∷ []
join_with (seg ∷ segs) windows = join_rest windows (first_segment windows seg) segs

non_empty : Str → Bool
unfolding is_empty
non_empty s = not (is_empty s)

unfoldable pub split_path : Str → List Str
unfolding split non_empty
split_path path = retain non_empty (split (λ c. c == slash || c == backslash) path)

unfoldable pub split_joined : Str → List Str
unfolding split non_empty
split_joined path = retain non_empty (split (λ c. c == slash) path)

test_join : join_with (codes "C:" ∷ codes "Users" ∷ codes "ice" ∷ []) true ≡ codes "C:/Users/ice"
unfolding join_with
test_join = refl

test_split : split_path (codes "C:\\Users//ice") ≡ codes "C:" ∷ codes "Users" ∷ codes "ice" ∷ []
unfolding split_path
test_split = refl
