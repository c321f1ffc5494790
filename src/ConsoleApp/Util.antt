-- ===== src/ConsoleApp/Util.antt =====
-- Texts and paths of the console application (src/console-app/src/util.rs).
pub mod Lines
use app_full.Base.{
  ℕ, Bool, true, false, ◌&&◌, List, [], ◌∷◌, ◌++◌, map, reverse, if◌then◌else◌, ◌==◌, any, take,
  ◌≡◌, refl,
}
use app_full.Base.Texts.{Str, codes, str_eq, is_empty, split}
use app_full.Base.Utf8.{decode}
use app_full.ConsoleApp.Chars.{Chars}

-- `s.trim_end_matches(c)` for a character of one byte.
unfoldable pub trim_end_matches : ℕ → Str → Str
unfolding is_empty
trim_end_matches c [] = []
trim_end_matches c (d ∷ s) =
    let rest = trim_end_matches c s in if is_empty rest && d == c then [] else d ∷ rest

-- A zero within the first 8192 bytes.
unfoldable pub is_binary : List ℕ → Bool
is_binary bytes = any (λ b. b == 0) (take 8192 bytes)

unfoldable pub to_lines : List ℕ → List Chars
unfolding decode split trim_end_matches
to_lines bytes = map (trim_end_matches 13) (split (λ c. c == 10) (decode bytes))

unfoldable pub join_rel : Str → Str → Str
unfolding str_eq trim_end_matches
join_rel base name =
    if str_eq base (codes "/") then codes "/" ++ name else trim_end_matches b'/' base ++ b'/' ∷ name
