-- ===== src/ViewerUi/HexView/Tests.antt =====
-- Digits typed into three bytes.
use app_full.Base.{true, false, some, [], ◌∷◌, ◌≡◌, refl, arith}
use app_full.Base.Texts.{codes}
use app_full.ViewerUi.HexView.{
  HexView, hex, other, set_bytes, on_key, press, typed, typed_if, type_char, type_digit, to_digit,
  type_hex_digit, digit_at, behind_digit, write_byte, with_digit,
}
use app_full.ViewerUi.HexView.Bounds.{IsValid, IsValid-on_key}

-- Three bytes with the cursor on the last one, in the column of hexadecimal digits.
abbrev at_last : HexView
at_last = record {
  bytes = codes "abc";
  byte = 2;
  low_nibble = false;
  column = hex;
  editable = true;
  changes = 0;
}

at_last-IsValid : IsValid 3 at_last
unfolding IsValid
at_last-IsValid = (refl, (omega arith, (omega arith, (omega arith, tt))), omega arith)

IsValid-on_key_example : IsValid 3 (on_key false (other (some b'7')) at_last).1
IsValid-on_key_example = IsValid-on_key 3 at_last at_last-IsValid false (other (some b'7'))

test_second_digit :
    (on_key false (other (some b'f')) (on_key false (other (some b'7')) at_last).1).1.bytes
    ≡ b'a' ∷ b'b' ∷ 0x7f ∷ []
unfolding on_key press typed typed_if type_char type_digit to_digit type_hex_digit digit_at
    behind_digit write_byte with_digit
test_second_digit = refl

-- Bytes that are set keep the nibble, so that the next digit is written to the second one.
test_set_bytes_keeps_nibble :
    (on_key false
      (other (some b'7'))
      (set_bytes (codes "a") (on_key false (other (some b'7')) at_last).1)).1.bytes
    ≡ 0x67 ∷ []
unfolding on_key set_bytes press typed typed_if type_char type_digit to_digit type_hex_digit
    digit_at behind_digit write_byte with_digit
test_set_bytes_keeps_nibble = refl
