-- ===== src/Base/Utf8.antt =====
-- UTF-8: the bytes of a text, and `String::from_utf8_lossy`, where a sequence that no character can
-- start with is replaced by U+FFFD. A byte behind the end is read as 0.
pub mod RoundTrip
use app_full.Base.{
  ℕ, zero, suc, ◌+◌, ◌-◌, ◌*◌, ◌/◌, ◌%◌, ◌<◌, ◌≤◌, Bool, true, false, ◌&&◌, ◌||◌, List, [], ◌∷◌,
  ◌++◌, if◌then◌else◌, ltb, leb, ◌==◌, All, ◌≡◌, refl, ap, ◌∙◌, ◌⊎◌, inl, inr, arith, Bool-cases,
  append_assoc,
}

abbrev replacement : ℕ
replacement = 0xfffd

unfoldable pub encode_char : ℕ → List ℕ
encode_char c =
    if ltb c 0x80
    then c ∷ []
    else if ltb c 0x800
    then (0xc0 + c / 64) ∷ (0x80 + c % 64) ∷ []
    else if ltb c 0x10000
    then (0xe0 + c / 4096) ∷ (0x80 + c / 64 % 64) ∷ (0x80 + c % 64) ∷ []
    else (0xf0 + c / 262144) ∷ (0x80 + c / 4096 % 64) ∷ (0x80 + c / 64 % 64) ∷ (0x80 + c % 64) ∷ []

unfoldable pub encode : List ℕ → List ℕ
unfolding encode_char
encode [] = []
encode (c ∷ s) = encode_char c ++ encode s

unfoldable pub within : ℕ → ℕ → ℕ → Bool
within lo hi b = leb lo b && leb b hi

unfoldable pub follows : ℕ → Bool
unfolding within
follows b = within 0x80 0xbf b

-- The second byte of three, and of four: no overlong form, no surrogate, nothing above U+10FFFF.
unfoldable pub second3 : ℕ → ℕ → Bool
unfolding within
second3 a b =
    a == 0xe0 && within 0xa0 0xbf b
    || within 0xe1 0xec a && within 0x80 0xbf b
    || a == 0xed && within 0x80 0x9f b
    || within 0xee 0xef a && within 0x80 0xbf b

unfoldable pub second4 : ℕ → ℕ → Bool
unfolding within
second4 a b =
    a == 0xf0 && within 0x90 0xbf b
    || within 0xf1 0xf3 a && within 0x80 0xbf b
    || a == 0xf4 && within 0x80 0x8f b

-- A character, and how many bytes behind the first one belong to it.
unfoldable pub next_char : ℕ → ℕ → ℕ → ℕ → ℕ × ℕ
next_char a b c d =
    if ltb a 0x80
    then (a, 0)
    else if within 0xc2 0xdf a
    then if follows b then ((a - 0xc0) * 64 + (b - 0x80), 1) else (replacement, 0)
    else if within 0xe0 0xef a
    then if second3 a b
      then if follows c
        then ((a - 0xe0) * 4096 + (b - 0x80) * 64 + (c - 0x80), 2)
        else (replacement, 1)
      else (replacement, 0)
    else if within 0xf0 0xf4 a
    then if second4 a b
      then if follows c
        then if follows d
          then ((a - 0xf0) * 262144 + (b - 0x80) * 4096 + (c - 0x80) * 64 + (d - 0x80), 3)
          else (replacement, 2)
        else (replacement, 1)
      else (replacement, 0)
    else (replacement, 0)

byte : ℕ → List ℕ → ℕ
byte i [] = 0
byte zero (b ∷ s) = b
byte (suc i) (b ∷ s) = byte i s

-- The number of bytes comes first that belong to a character that was read.
decode_from : ℕ → List ℕ → List ℕ
unfolding byte
decode_from n [] = []
decode_from (suc n) (a ∷ s) = decode_from n s
decode_from zero (a ∷ s) =
    let (c, n) = next_char a (byte 0 s) (byte 1 s) (byte 2 s) in c ∷ decode_from n s

unfoldable pub decode : List ℕ → List ℕ
unfolding decode_from
decode = decode_from 0

-- The values of `char`.
abbrev pub IsScalar : ℕ → Type 0
IsScalar c = (c < 0xd800) ⊎ ((0xe000 ≤ c) × (c < 0x110000))
