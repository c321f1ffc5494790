-- ===== src/ViewerUi/HexDump/Positions.antt =====
-- Where the parts of a hexadecimal dump stand (src/ui-common/viewer-ui/src/encoding.rs).
use app_full.Base.{ℕ, ◌+◌, ◌*◌, List, [], ◌∷◌, if◌then◌else◌, leb}
use app_full.Base.Texts.{codes}
use app_full.ViewerUi.HexDump.{hex_byte, hex_digits, printable}
use app_full.ViewerUi.HexDump.Pieces.{IsAt}

-- The column of a byte: a further space stands behind the eighth one.
abbrev pub column : ℕ → ℕ
column k = 3 * k + (if leb 8 k then 1 else 0)

-- The line `q`, of so many bytes, shows a byte `b` as its number `k`.
pub record IsShown (first q count k b : ℕ) (text : List ℕ) : Type 0 where
  pub offset_at : IsAt (80 * q) (hex_digits 8 (16 * (first + q))) text
  pub byte_at : IsAt (80 * q + (11 + column k)) (hex_byte b) text
  pub character_at : IsAt (80 * q + (62 + k)) (printable b ∷ []) text
  pub colon_at : IsAt (80 * q + 8) (codes ":  ") text
  pub sidebar_at : IsAt (80 * q + 60) (codes " |") text
  pub end_at : IsAt (80 * q + (62 + count)) (codes "|\n") text
