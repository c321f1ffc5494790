-- ===== src/ViewerUi/Encoding/Windows1251.antt =====
-- Decoding and encoding of Windows-1251 (src/ui-common/viewer-ui/src/encoding.rs).
use app_full.Base.{
  ℕ, zero, suc, ◌<◌, ◌≢◌, Bool, true, false, not, ◌&&◌, ◌||◌, List, [], ◌∷◌, All, ◌==◌, ◌≡◌, refl,
  arith, inl, inr, Bool-cases, eq_of_test,
}
use app_full.Base.Texts.{Lacks}
use app_full.ViewerUi.Encoding.{decode_byte, decode_windows_1251, encode_char, encode_windows_1251}

-- A test holds of every number below a bound.
below : (ℕ → Bool) → ℕ → Bool
below test zero = true
below test (suc n) = let rest = below test n in test n && rest

both_true : (a b : Bool) → a && b ≡ true → (a ≡ true) × (b ≡ true)
both_true true b h = (refl, h)
both_true false b h = ground arith

below_lem : (test : ℕ → Bool) (n k : ℕ) → below test n ≡ true → k < n → test k ≡ true
unfolding below
below_lem test zero k h lt = ground arith
below_lem test (suc n) k h lt =
    let both = both_true (test n) (below test n) h in
    elim (Bool-cases (k == n)) [
      | inl e ↦ let same : k ≡ n = ground arith in rw same both.0
      | inr e ↦ below_lem test n k both.1 (ground arith)
    ]

returns : ℕ → Bool
returns b = b == 0x98 || encode_char (decode_byte b) == b

all_return : below returns 256 ≡ true
unfolding below returns encode_char decode_byte
all_return = refl

other_test : (a b : ℕ) → a ≢ b → (a == b) ≡ false
other_test a b h = ground arith

or_true : (a b : Bool) → a || b ≡ true → a ≡ false → b ≡ true
or_true true b h e = ground arith
or_true false b h e = h

encode-decode_byte : (b : ℕ) → b < 256 → b ≢ 0x98 → encode_char (decode_byte b) ≡ b
unfolding returns
encode-decode_byte b h other = eq_of_test (encode_char (decode_byte b)) b (
    or_true (b == 0x98) (encode_char (decode_byte b) == b) (below_lem returns 256 b all_return h)
      (other_test b 0x98 other))

-- A byte of a text in Windows-1251; 0x98 stands for no character.
unfoldable pub IsByte1251 : ℕ → Type 0
IsByte1251 b = (b < 256) × (b ≢ 0x98)

-- Bytes other than 0x98 are decoded from Windows-1251 and encoded again to the same bytes.
pub encode-decode_windows_1251 :
    (bytes : List ℕ)
    → All IsByte1251 bytes
    → encode_windows_1251 (decode_windows_1251 bytes) ≡ bytes
unfolding encode_windows_1251 decode_windows_1251 IsByte1251
encode-decode_windows_1251 [] h = refl
encode-decode_windows_1251 (b ∷ bytes) h =
    rw (encode-decode_byte b h.0.0 h.0.1, encode-decode_windows_1251 bytes h.1) refl

shows : ℕ → Bool
shows b = b == 0 || not (decode_byte b == 0)

all_show : below shows 256 ≡ true
unfolding below shows decode_byte
all_show = refl

decode_byte-ne-zero : (b : ℕ) → b < 256 → b ≢ 0 → decode_byte b ≢ 0
unfolding shows
decode_byte-ne-zero b h other =
    let t : not (decode_byte b == 0) ≡ true =
      or_true (b == 0) (not (decode_byte b == 0)) (below_lem shows 256 b all_show h)
        (other_test b 0 other) in
    ground arith

-- Only a zero is shown as a zero.
pub Lacks-decode_windows_1251 :
    (bytes : List ℕ) → All IsByte1251 bytes → Lacks 0 bytes → Lacks 0 (decode_windows_1251 bytes)
unfolding decode_windows_1251 IsByte1251
Lacks-decode_windows_1251 [] h l = tt
Lacks-decode_windows_1251 (b ∷ bytes) h l =
    (decode_byte-ne-zero b h.0.0 l.0, Lacks-decode_windows_1251 bytes h.1 l.1)
