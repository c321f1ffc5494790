-- ===== src/ViewerUi/Encoding.antt =====
-- The encodings of the viewer (src/ui-common/viewer-ui/src/encoding.rs and the
-- choice of an encoding in content.rs). Texts are lists of code points.
pub mod Windows1251
use app_full.Base.{
  ℕ, zero, suc, ◌+◌, ◌-◌, ◌*◌, ◌/◌, ◌%◌, ◌^◌, Bool, true, false, ◌&&◌, List, [], ◌∷◌, ◌++◌, Option,
  none, some, if◌then◌else◌, leb, ltb, ◌==◌, length, take, drop,
}
use app_full.Base.Texts.{codes}
use app_full.Base.Utf8.{encode, decode}
use app_full.ViewerUi.HexDump.{to_hex_dump}

pub data Format : Type 0 where
  image : Format
  utf8 : Format
  ansi : Format
  hex : Format

unfoldable pub lookup : ℕ → List (ℕ × ℕ) → Option ℕ
lookup k [] = none
lookup k ((j, v) ∷ table) = let rest = lookup k table in if k == j then some v else rest

-- The arms of the match of `decode_windows_1251` for single bytes.
abbrev pub decode_table : List (ℕ × ℕ)
decode_table =
    (0x80, 0x402)
    ∷ (0x81, 0x403)
    ∷ (0x82, 0x201a)
    ∷ (0x83, 0x453)
    ∷ (0x84, 0x201e)
    ∷ (0x85, 0x2026)
    ∷ (0x86, 0x2020)
    ∷ (0x87, 0x2021)
    ∷ (0x88, 0x20ac)
    ∷ (0x89, 0x2030)
    ∷ (0x8a, 0x409)
    ∷ (0x8b, 0x2039)
    ∷ (0x8c, 0x40a)
    ∷ (0x8d, 0x40c)
    ∷ (0x8e, 0x40b)
    ∷ (0x8f, 0x40f)
    ∷ (0x90, 0x452)
    ∷ (0x91, 0x2018)
    ∷ (0x92, 0x2019)
    ∷ (0x93, 0x201c)
    ∷ (0x94, 0x201d)
    ∷ (0x95, 0x2022)
    ∷ (0x96, 0x2013)
    ∷ (0x97, 0x2014)
    ∷ (0x98, 0x20)
    ∷ (0x99, 0x2122)
    ∷ (0x9a, 0x459)
    ∷ (0x9b, 0x203a)
    ∷ (0x9c, 0x45a)
    ∷ (0x9d, 0x45c)
    ∷ (0x9e, 0x45b)
    ∷ (0x9f, 0x45f)
    ∷ (0xa0, 0xa0)
    ∷ (0xa1, 0x40e)
    ∷ (0xa2, 0x45e)
    ∷ (0xa3, 0x408)
    ∷ (0xa4, 0xa4)
    ∷ (0xa5, 0x490)
    ∷ (0xa6, 0xa6)
    ∷ (0xa7, 0xa7)
    ∷ (0xa8, 0x401)
    ∷ (0xa9, 0xa9)
    ∷ (0xaa, 0x404)
    ∷ (0xab, 0xab)
    ∷ (0xac, 0xac)
    ∷ (0xad, 0xad)
    ∷ (0xae, 0xae)
    ∷ (0xaf, 0x407)
    ∷ (0xb0, 0xb0)
    ∷ (0xb1, 0xb1)
    ∷ (0xb2, 0x406)
    ∷ (0xb3, 0x456)
    ∷ (0xb4, 0x491)
    ∷ (0xb5, 0xb5)
    ∷ (0xb6, 0xb6)
    ∷ (0xb7, 0xb7)
    ∷ (0xb8, 0x451)
    ∷ (0xb9, 0x2116)
    ∷ (0xba, 0x454)
    ∷ (0xbb, 0xbb)
    ∷ (0xbc, 0x458)
    ∷ (0xbd, 0x405)
    ∷ (0xbe, 0x455)
    ∷ (0xbf, 0x457)
    ∷ []

-- The arms of the match of `encode_windows_1251` for single characters.
abbrev pub encode_table : List (ℕ × ℕ)
encode_table =
    (0x402, 0x80)
    ∷ (0x403, 0x81)
    ∷ (0x201a, 0x82)
    ∷ (0x453, 0x83)
    ∷ (0x201e, 0x84)
    ∷ (0x2026, 0x85)
    ∷ (0x2020, 0x86)
    ∷ (0x2021, 0x87)
    ∷ (0x20ac, 0x88)
    ∷ (0x2030, 0x89)
    ∷ (0x409, 0x8a)
    ∷ (0x2039, 0x8b)
    ∷ (0x40a, 0x8c)
    ∷ (0x40c, 0x8d)
    ∷ (0x40b, 0x8e)
    ∷ (0x40f, 0x8f)
    ∷ (0x452, 0x90)
    ∷ (0x2018, 0x91)
    ∷ (0x2019, 0x92)
    ∷ (0x201c, 0x93)
    ∷ (0x201d, 0x94)
    ∷ (0x2022, 0x95)
    ∷ (0x2013, 0x96)
    ∷ (0x2014, 0x97)
    ∷ (0x2122, 0x99)
    ∷ (0x459, 0x9a)
    ∷ (0x203a, 0x9b)
    ∷ (0x45a, 0x9c)
    ∷ (0x45c, 0x9d)
    ∷ (0x45b, 0x9e)
    ∷ (0x45f, 0x9f)
    ∷ (0xa0, 0xa0)
    ∷ (0x40e, 0xa1)
    ∷ (0x45e, 0xa2)
    ∷ (0x408, 0xa3)
    ∷ (0xa4, 0xa4)
    ∷ (0x490, 0xa5)
    ∷ (0xa6, 0xa6)
    ∷ (0xa7, 0xa7)
    ∷ (0x401, 0xa8)
    ∷ (0xa9, 0xa9)
    ∷ (0x404, 0xaa)
    ∷ (0xab, 0xab)
    ∷ (0xac, 0xac)
    ∷ (0xad, 0xad)
    ∷ (0xae, 0xae)
    ∷ (0x407, 0xaf)
    ∷ (0xb0, 0xb0)
    ∷ (0xb1, 0xb1)
    ∷ (0x406, 0xb2)
    ∷ (0x456, 0xb3)
    ∷ (0x491, 0xb4)
    ∷ (0xb5, 0xb5)
    ∷ (0xb6, 0xb6)
    ∷ (0xb7, 0xb7)
    ∷ (0x451, 0xb8)
    ∷ (0x2116, 0xb9)
    ∷ (0x454, 0xba)
    ∷ (0xbb, 0xbb)
    ∷ (0x458, 0xbc)
    ∷ (0x405, 0xbd)
    ∷ (0x455, 0xbe)
    ∷ (0x457, 0xbf)
    ∷ []

-- The last arms of the match: the range of the letters, and a question mark.
unfoldable pub decode_rest : ℕ → ℕ
decode_rest b = if leb 0xc0 b && leb b 0xff then 0x410 + (b - 0xc0) else 0x3f

unfoldable pub or_rest : Option ℕ → ℕ → ℕ
or_rest none r = r
or_rest (some v) r = v

unfoldable pub decode_byte : ℕ → ℕ
unfolding lookup decode_rest or_rest
decode_byte b = if leb b 0x7f then b else or_rest (lookup b decode_table) (decode_rest b)

unfoldable pub decode_windows_1251 : List ℕ → List ℕ
unfolding decode_byte
decode_windows_1251 [] = []
decode_windows_1251 (b ∷ bytes) = decode_byte b ∷ decode_windows_1251 bytes

unfoldable pub encode_rest : ℕ → ℕ
encode_rest u = if leb 0x410 u && leb u 0x44f then (0xc0 + (u - 0x410)) % 256 else 0x3f

unfoldable pub encode_char : ℕ → ℕ
unfolding lookup encode_rest or_rest
encode_char c = if leb c 0x7f then c else or_rest (lookup c encode_table) (encode_rest c)

unfoldable pub encode_windows_1251 : List ℕ → List ℕ
unfolding encode_char
encode_windows_1251 [] = []
encode_windows_1251 (c ∷ s) = encode_char c ∷ encode_windows_1251 s

unfoldable pub get_text_for_format : Format → List ℕ → List ℕ
unfolding decode_windows_1251 to_hex_dump
get_text_for_format utf8 bytes = decode bytes
get_text_for_format ansi bytes = decode_windows_1251 bytes
get_text_for_format hex bytes = to_hex_dump bytes
get_text_for_format image bytes = []
