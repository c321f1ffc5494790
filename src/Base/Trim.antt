-- ===== src/Base/Trim.antt =====
-- `str::trim` on UTF-8: the characters that are white space take one, two or three bytes.
use app_full.Base.{ℕ, Bool, ◌&&◌, ◌||◌, [], ◌∷◌, ◌≡◌, refl, if◌then◌else◌, ◌==◌, leb}
use app_full.Base.Texts.{Str, codes}
use mathlib.Core.List.{reverse}

white1 : ℕ → Bool
white1 a = leb 9 a && leb a 13 || a == 32

-- U+0085 and U+00A0.
white2 : ℕ → ℕ → Bool
white2 a b = a == 0xc2 && (b == 0x85 || b == 0xa0)

-- U+1680, U+2000 to U+200A, U+2028, U+2029, U+202F, U+205F and U+3000.
white3 : ℕ → ℕ → ℕ → Bool
white3 a b c =
    a == 0xe1 && b == 0x9a && c == 0x80
    || a == 0xe2 && b == 0x80 && (leb 0x80 c && leb c 0x8a || c == 0xa8 || c == 0xa9 || c == 0xaf)
    || a == 0xe2 && b == 0x81 && c == 0x9f
    || a == 0xe3 && b == 0x80 && c == 0x80

module _ (w2 : ℕ → ℕ → Bool) (w3 : ℕ → ℕ → ℕ → Bool) where
  skip_white : Str → Str
  skip_white [] = []
  skip_white (a ∷ []) = if white1 a then [] else a ∷ []
  skip_white (a ∷ b ∷ []) =
      let one = skip_white (b ∷ []) in if white1 a then one else if w2 a b then [] else a ∷ b ∷ []
  skip_white (a ∷ b ∷ c ∷ s) =
      let one = skip_white (b ∷ c ∷ s) in
      let two = skip_white (c ∷ s) in
      let three = skip_white s in
      if white1 a then one else if w2 a b then two else if w3 a b c then three else a ∷ b ∷ c ∷ s

unfoldable pub trim : Str → Str
unfolding skip_white white1 white2 white3
trim s =
    let rest = skip_white white2 white3 s in
    reverse (skip_white (λ a b. white2 b a) (λ a b c. white3 c b a) (reverse rest))

test_trim : trim (codes " \ta b ") ≡ codes "a b"
unfolding trim
test_trim = refl
