-- ===== src/ViewerUi/HexDump.antt =====
-- The hexadecimal dump, a text (src/ui-common/viewer-ui/src/encoding.rs).
pub mod Columns
pub mod Chunks
pub mod Pieces
pub mod Positions
use app_full.Base.{
  ℕ, zero, suc, ◌+◌, ◌-◌, ◌*◌, ◌/◌, ◌%◌, ◌^◌, Bool, true, false, ◌&&◌, List, [], ◌∷◌, ◌++◌, Option,
  none, some, if◌then◌else◌, leb, ltb, ◌==◌, length, take, drop,
}
use app_full.Base.Texts.{codes}
use app_full.Base.Utf8.{encode, decode}

-- A digit of `{:x}`.
unfoldable pub hex_digit : ℕ → ℕ
hex_digit d = if ltb d 10 then 48 + d else 87 + d

-- `{:02x}` of a byte
unfoldable pub hex_byte : ℕ → List ℕ
unfolding hex_digit
hex_byte b = hex_digit (b / 16) ∷ hex_digit (b % 16) ∷ []

unfoldable pub hex_digits : ℕ → ℕ → List ℕ
unfolding hex_digit
hex_digits zero n = []
hex_digits (suc k) n = let front = hex_digits k (n / 16) in front ++ hex_digit (n % 16) ∷ []

-- The digits of a number, none of zero.
unfoldable pub hex_front : ℕ → ℕ → List ℕ
unfolding hex_digit
hex_front zero n = []
hex_front (suc k) n =
    let front = hex_front k (n / 16) in if n == 0 then [] else front ++ hex_digit (n % 16) ∷ []

-- `{:08x}` of an offset of 64 bits
unfoldable pub hex_offset : ℕ → List ℕ
unfolding hex_digits hex_front
hex_offset n = hex_front 8 (n / 16 ^ 8) ++ hex_digits 8 n

-- The further space behind the eighth byte.
unfoldable pub gap : ℕ → List ℕ
gap i = if i == 7 then codes " " else []

-- The bytes of a chunk from the number `i` on.
unfoldable pub cells : ℕ → List ℕ → List ℕ
unfolding hex_byte gap
cells i [] = []
cells i (b ∷ chunk) = hex_byte b ++ (codes " " ++ (gap i ++ cells (suc i) chunk))

-- `for i in i..i + n`
unfoldable pub padding : ℕ → ℕ → List ℕ
unfolding gap
padding i zero = []
padding i (suc n) = codes "   " ++ (gap i ++ padding (suc i) n)

unfoldable pub columns : List ℕ → List ℕ
unfolding cells padding
columns chunk = cells 0 chunk ++ padding (length chunk) (16 - length chunk)

unfoldable pub printable : ℕ → ℕ
printable b = if leb 32 b && leb b 126 then b else b'.'

unfoldable pub sidebar : List ℕ → List ℕ
unfolding printable
sidebar [] = []
sidebar (b ∷ chunk) = printable b ∷ sidebar chunk

-- The rest of a chunk with so much room, and the chunks behind it.
unfoldable pub split_chunks : ℕ → List ℕ → List ℕ × List (List ℕ)
split_chunks room [] = ([], [])
split_chunks zero (b ∷ bytes) =
    let (chunk, chunks) = split_chunks 15 bytes in ([], (b ∷ chunk) ∷ chunks)
split_chunks (suc room) (b ∷ bytes) =
    let (chunk, chunks) = split_chunks room bytes in (b ∷ chunk, chunks)

-- `bytes.chunks(16)`
unfoldable pub chunks : List ℕ → List (List ℕ)
unfolding split_chunks
chunks bytes = (split_chunks 0 bytes).1

unfoldable pub dump_lines : ℕ → List (List ℕ) → List ℕ
unfolding hex_offset columns sidebar
dump_lines offset [] = []
dump_lines offset (chunk ∷ rest) =
    hex_offset (offset * 16)
    ++ (codes ":  "
        ++ (columns chunk
            ++ (codes " |" ++ (sidebar chunk ++ (b'|' ∷ b'\n' ∷ dump_lines (suc offset) rest)))))

unfoldable pub to_hex_dump : List ℕ → List ℕ
unfolding dump_lines chunks
to_hex_dump bytes = dump_lines 0 (chunks bytes)
