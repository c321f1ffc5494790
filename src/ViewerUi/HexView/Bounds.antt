-- ===== src/ViewerUi/HexView/Bounds.antt =====
-- The cursor of the hexadecimal view stays on a byte, and keys keep the number of bytes.
use app_full.Base.{
  ℕ, zero, suc, ◌+◌, ◌-◌, ◌<◌, ◌≤◌, Bool, true, false, ◌&&◌, List, [], ◌∷◌, All, Option, none, some,
  leb, ltb, ◌==◌, length, get_elem?, set, ◌≡◌, refl, ap, ◌∙◌, subst, arith, Bool-cases,
  Option-cases, inl, inr,
}
use mathlib.Core.Option.{some-injective}
use app_full.ViewerUi.HexView.{
  Column, hex, ascii, HexView, Key, left, right, up, down, page_up, page_down, home, end, space,
  back_space, tab, other, Delta, back, forward, min, target, move_cursor, go_to_offset, write_byte,
  with_digit, behind_digit, digit_at, type_hex_digit, step, type_ascii, to_digit, type_digit,
  type_char, typed_if, typed, space_in, press, on_key,
}

-- A number of bytes, all below 256, and the cursor on one of them, or at 0 if there is none.
unfoldable pub IsValid : ℕ → HexView → Type 0
IsValid n v = (length v.bytes ≡ n) × All (λ b. b < 256) v.bytes × (v.byte ≤ n - 1)

length-set : (xs : List ℕ) (i x : ℕ) → length (set xs i x) ≡ length xs
length-set [] i x = refl
length-set (y ∷ xs) zero x = refl
length-set (y ∷ xs) (suc i) x = ap suc (length-set xs i x)

All-set :
    (xs : List ℕ) (i x : ℕ) → x < 256 → All (λ b. b < 256) xs → All (λ b. b < 256) (set xs i x)
All-set [] i x small h = tt
All-set (y ∷ xs) zero x small h = (small, h.1)
All-set (y ∷ xs) (suc i) x small h = (h.0, All-set xs i x small h.1)

All-get_elem? : (xs : List ℕ) (i b : ℕ) → All (λ c. c < 256) xs → get_elem? xs i ≡ some b → b < 256
All-get_elem? [] i b h e = ground arith
All-get_elem? (y ∷ xs) zero b h e = subst (λ c. c < 256) (some-injective y b e) h.0
All-get_elem? (y ∷ xs) (suc i) b h e = All-get_elem? xs i b h.1 e

min-le : (a b : ℕ) → min a b ≤ b
unfolding min
min-le a b = ground arith

target-le : (delta : Delta) (at len : ℕ) → target delta at len ≤ len - 1
unfolding target
target-le (back n) at len = min-le (at - n) (len - 1)
target-le (forward n) at len = min-le (at + n) (len - 1)

last_byte : (i len n : ℕ) → len ≡ n → ltb i len ≡ true → i ≤ n - 1
last_byte i len n e h = ground arith

module _ (n : ℕ) (v : HexView) (valid : IsValid n v) where
  IsValid-move_cursor : (delta : Delta) → IsValid n (move_cursor delta v)
  unfolding IsValid move_cursor
  IsValid-move_cursor delta = elim (Bool-cases (length v.bytes == 0)) [
    | inl e ↦ rw e valid
    | inr e ↦ rw e (valid.0, valid.1, rw valid.0 (target-le delta v.byte n))
  ]

  IsValid-go_to_offset : (offset : ℕ) → IsValid n (go_to_offset offset v)
  unfolding IsValid go_to_offset
  IsValid-go_to_offset offset = elim (Bool-cases (length v.bytes == 0)) [
    | inl e ↦ rw e valid
    | inr e ↦ rw e (valid.0, valid.1, rw valid.0 (min-le offset (n - 1)))
  ]

  IsValid-write_byte : (value : ℕ) → value < 256 → IsValid n (write_byte value v)
  unfolding IsValid write_byte
  IsValid-write_byte value small = elim (Bool-cases (ltb v.byte (length v.bytes))) [
    | inl e ↦ rw e (
      length-set v.bytes v.byte value ∙ valid.0,
      All-set v.bytes v.byte value small valid.1,
      valid.2,
    )
    | inr e ↦ rw e valid
  ]

  IsValid-step : IsValid n (step v)
  unfolding IsValid step
  IsValid-step = elim (Bool-cases (ltb (v.byte + 1) (length v.bytes))) [
    | inl e ↦
        let le : v.byte + 1 ≤ n - 1 = last_byte (v.byte + 1) (length v.bytes) n valid.0 e in
        rw e (valid.0, valid.1, le)
    | inr e ↦ rw e valid
  ]

  IsValid-behind_digit : (low : Bool) (index : ℕ) → IsValid n (behind_digit low index v)
  unfolding IsValid behind_digit
  IsValid-behind_digit false index = valid
  IsValid-behind_digit true index = elim (Bool-cases (ltb (index + 1) (length v.bytes))) [
    | inl e ↦
        let le : index + 1 ≤ n - 1 = last_byte (index + 1) (length v.bytes) n valid.0 e in
        rw e (valid.0, valid.1, le)
    | inr e ↦ rw e valid
  ]

with_digit-lt :
    (low : Bool) (byte digit : ℕ) → byte < 256 → digit < 16 → with_digit low byte digit < 256
unfolding with_digit
with_digit-lt true byte digit b d = omega arith
with_digit-lt false byte digit b d = omega arith

to_digit-lt : (c digit : ℕ) → to_digit c ≡ some digit → digit < 16
unfolding to_digit
to_digit-lt c digit e = ground arith

module _ (n : ℕ) (v : HexView) (valid : IsValid n v) where
  IsValid-type_hex_digit : (digit : ℕ) → digit < 16 → IsValid n (type_hex_digit digit v)
  unfolding type_hex_digit digit_at IsValid
  IsValid-type_hex_digit digit small = elim (Option-cases (get_elem? v.bytes v.byte)) [
    | inl e ↦ rw e valid
    | inr e ↦ rw e.1 (
        IsValid-behind_digit n (write_byte (with_digit v.low_nibble e.0 digit) v)
          (IsValid-write_byte n v valid (with_digit v.low_nibble e.0 digit) (
            with_digit-lt v.low_nibble e.0 digit (All-get_elem? v.bytes v.byte e.0 valid.1 e.1)
              small))
          v.low_nibble v.byte)
  ]

  IsValid-type_ascii : (ch : ℕ) → IsValid n (type_ascii ch v)
  unfolding type_ascii
  IsValid-type_ascii ch = elim (Bool-cases (ltb ch 128)) [
    | inl e ↦
        let small : ch < 256 = ground arith in
        rw e (IsValid-step n (write_byte ch v) (IsValid-write_byte n v valid ch small))
    | inr e ↦ rw e valid
  ]

  IsValid-type_char : (column : Column) (ch : ℕ) → IsValid n (type_char column ch v).1
  unfolding type_char type_digit
  IsValid-type_char hex ch = elim (Option-cases (to_digit ch)) [
    | inl e ↦ rw e valid
    | inr e ↦ rw e.1 (IsValid-type_hex_digit e.0 (to_digit-lt ch e.0 e.1))
  ]
  IsValid-type_char ascii ch = elim (Bool-cases (leb 32 ch && leb ch 126)) [
    | inl e ↦ rw e (IsValid-type_ascii ch)
    | inr e ↦ rw e valid
  ]

  IsValid-typed_if : (editable : Bool) (ch : ℕ) → IsValid n (typed_if editable ch v).1
  unfolding typed_if
  IsValid-typed_if false ch = valid
  IsValid-typed_if true ch = IsValid-type_char v.column ch

  IsValid-typed : (o : Option ℕ) → IsValid n (typed o v).1
  unfolding typed
  IsValid-typed none = valid
  IsValid-typed (some ch) = IsValid-typed_if v.editable ch

  IsValid-space_in : (column : Column) → IsValid n (space_in column v).1
  unfolding space_in
  IsValid-space_in hex = IsValid-move_cursor n v valid (forward 1)
  IsValid-space_in ascii = IsValid-typed (some 32)

  IsValid-press : (key : Key) → IsValid n (press key v).1
  unfolding press IsValid
  IsValid-press left = IsValid-move_cursor n v valid (back 1)
  IsValid-press right = IsValid-move_cursor n v valid (forward 1)
  IsValid-press up = IsValid-move_cursor n v valid (back 16)
  IsValid-press down = IsValid-move_cursor n v valid (forward 16)
  IsValid-press page_up = IsValid-move_cursor n v valid (back 256)
  IsValid-press page_down = IsValid-move_cursor n v valid (forward 256)
  IsValid-press home = IsValid-go_to_offset n v valid 0
  IsValid-press end = IsValid-go_to_offset n v valid (length v.bytes - 1)
  IsValid-press space = IsValid-space_in v.column
  IsValid-press back_space = IsValid-move_cursor n v valid (back 1)
  IsValid-press tab = valid
  IsValid-press (other c) = IsValid-typed c

  -- Every key, with or without Ctrl, keeps the number of bytes, bytes below 256, and the cursor on one
  -- of the bytes, or at 0 if there is none.
  pub IsValid-on_key : (ctrl : Bool) (key : Key) → IsValid n (on_key ctrl key v).1
  unfolding on_key
  IsValid-on_key true key = valid
  IsValid-on_key false key = IsValid-press key
