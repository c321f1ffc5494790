-- ===== src/ViewerUi/HexView.antt =====
-- The cursor and the edits of the hexadecimal view (src/ui-common/viewer-ui/src/hex_view.rs). The rows
-- that are drawn again and the status are left out. Offsets do not reach the bound of isize.
pub mod Bounds
mod Tests
use app_full.Base.{
  ℕ, suc, ◌+◌, ◌-◌, ◌*◌, ◌/◌, ◌%◌, Bool, true, false, not, ◌&&◌, List, [], Option, none, some,
  if◌then◌else◌, leb, ltb, ◌==◌, length, get_elem?, set,
}

pub data Column : Type 0 where
  hex : Column
  ascii : Column

-- The cursor is `byte`, `low_nibble` and `column`; `changes` counts the calls of `on_changed`.
pub record HexView : Type 0 where
  pub bytes : List ℕ
  pub byte : ℕ
  pub low_nibble : Bool
  pub column : Column
  pub editable : Bool
  pub changes : ℕ

pub data Key : Type 0 where
  left : Key
  right : Key
  up : Key
  down : Key
  page_up : Key
  page_down : Key
  home : Key
  end : Key
  space : Key
  back_space : Key
  tab : Key
  other : Option ℕ → Key

pub data Delta : Type 0 where
  back : ℕ → Delta
  forward : ℕ → Delta

pub set_bytes : List ℕ → HexView → HexView
set_bytes new_bytes v = record v { bytes = new_bytes; byte = 0 }

min : ℕ → ℕ → ℕ
min a b = if leb a b then a else b

-- `target.clamp(0, len - 1)`
target : Delta → ℕ → ℕ → ℕ
target (back n) at len = min (at - n) (len - 1)
target (forward n) at len = min (at + n) (len - 1)

move_cursor : Delta → HexView → HexView
move_cursor delta v =
    if length v.bytes == 0
    then v
    else record v { byte = target delta v.byte (length v.bytes); low_nibble = false }

pub go_to_offset : ℕ → HexView → HexView
go_to_offset offset v =
    if length v.bytes == 0
    then v
    else record v { byte = min offset (length v.bytes - 1); low_nibble = false }

write_byte : ℕ → HexView → HexView
write_byte value v =
    if ltb v.byte (length v.bytes)
    then record v { bytes = set v.bytes v.byte value; changes = suc v.changes }
    else v

-- `(byte & 0xF0) | digit` and `(byte & 0x0F) | (digit << 4)` of a byte and a digit below 16
with_digit : Bool → ℕ → ℕ → ℕ
with_digit true byte digit = byte / 16 * 16 + digit
with_digit false byte digit = byte % 16 + digit * 16

-- The cursor behind a digit at the byte of a number.
behind_digit : Bool → ℕ → HexView → HexView
behind_digit true index v = record v {
  low_nibble = false;
  byte = if ltb (index + 1) (length v.bytes) then index + 1 else v.byte;
}
behind_digit false index v = record v { low_nibble = true }

digit_at : Option ℕ → ℕ → HexView → HexView
digit_at none digit v = v
digit_at (some byte) digit v =
    behind_digit v.low_nibble v.byte (write_byte (with_digit v.low_nibble byte digit) v)

type_hex_digit : ℕ → HexView → HexView
type_hex_digit digit v = digit_at (get_elem? v.bytes v.byte) digit v

step : HexView → HexView
step v = if ltb (v.byte + 1) (length v.bytes) then record v { byte = v.byte + 1 } else v

type_ascii : ℕ → HexView → HexView
type_ascii ch v = if ltb ch 128 then step (write_byte ch v) else v

-- `ch.to_digit(16)`
to_digit : ℕ → Option ℕ
to_digit c =
    if leb 48 c && leb c 57
    then some (c - 48)
    else if leb 97 c && leb c 102
    then some (c - 87)
    else if leb 65 c && leb c 70
    then some (c - 55)
    else none

other_column : Column → Column
other_column hex = ascii
other_column ascii = hex

-- Whether the key is handled (`Propagation::Stop`), and the view.
type_digit : Option ℕ → HexView → Bool × HexView
type_digit none v = (false, v)
type_digit (some digit) v = (true, type_hex_digit digit v)

type_char : Column → ℕ → HexView → Bool × HexView
type_char hex ch v = type_digit (to_digit ch) v
type_char ascii ch v = if leb 32 ch && leb ch 126 then (true, type_ascii ch v) else (false, v)

typed_if : Bool → ℕ → HexView → Bool × HexView
typed_if false ch v = (false, v)
typed_if true ch v = type_char v.column ch v

typed : Option ℕ → HexView → Bool × HexView
typed none v = (false, v)
typed (some ch) v = typed_if v.editable ch v

space_in : Column → HexView → Bool × HexView
space_in hex v = (true, move_cursor (forward 1) v)
space_in ascii v = typed (some 32) v

press : Key → HexView → Bool × HexView
press left v = (true, move_cursor (back 1) v)
press right v = (true, move_cursor (forward 1) v)
press up v = (true, move_cursor (back 16) v)
press down v = (true, move_cursor (forward 16) v)
press page_up v = (true, move_cursor (back 256) v)
press page_down v = (true, move_cursor (forward 256) v)
press home v = (true, go_to_offset 0 v)
press end v = (true, go_to_offset (length v.bytes - 1) v)
press space v = space_in v.column v
press back_space v = (true, move_cursor (back 1) v)
press tab v = (true, record v { column = other_column v.column; low_nibble = false })
press (other c) v = typed c v

pub on_key : Bool → Key → HexView → Bool × HexView
on_key ctrl key v = if ctrl then (false, v) else press key v
