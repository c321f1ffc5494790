-- ===== src/Base/Decimal.antt =====
-- The decimal print of a 32-bit number, as `format!("{n}")` writes it.
use app_full.Base.{
  ℕ, zero, suc, ◌+◌, ◌-◌, ◌*◌, ◌/◌, ◌%◌, ◌^◌, ◌<◌, ◌≡◌, refl, ap, sym, ◌∙◌, [], ◌∷◌, ◌++◌, arith,
  Bool-cases, inl, inr, if◌then◌else◌, ltb,
}
use app_full.Base.Texts.{Str, codes}
use native.Mathlib.Nat.{pow-suc}

digits : ℕ → ℕ → Str
digits zero n = []
digits (suc k) n =
    let last = (b'0' + n % 10) ∷ [] in
    let front = digits k (n / 10) in if ltb n 10 then last else front ++ last

-- Ten digits are enough for every number of 32 bits.
unfoldable pub decimal : ℕ → Str
unfolding digits
decimal n = digits 10 n

-- The number that a text of digits stands for, read from the left.
value_from : ℕ → Str → ℕ
value_from acc [] = acc
value_from acc (c ∷ s) = value_from (acc * 10 + (c - b'0')) s

value_from-append :
    (acc : ℕ) (s : Str) (c : ℕ) → value_from acc (s ++ c ∷ []) ≡ value_from acc s * 10 + (c - b'0')
unfolding value_from
value_from-append acc [] c = refl
value_from-append acc (d ∷ s) c = value_from-append (acc * 10 + (d - b'0')) s c

value_from-digits : (k n : ℕ) → n < 10 ^ k → value_from 0 (digits k n) ≡ n
unfolding digits value_from
value_from-digits zero n h = omega arith
value_from-digits (suc k) n h = elim (Bool-cases (ltb n 10)) [
  | inl e ↦ rw e (ground arith)
  | inr e ↦
      rw
        (
          e,
          value_from-append 0 (digits k (n / 10)) (b'0' + n % 10),
          value_from-digits k (n / 10) (tenth n h),
        )
        (omega arith)
]
  where
    tenth : (n : ℕ) → n < 10 ^ suc k → n / 10 < 10 ^ k
    tenth n h = omega (arith, pow-suc 10 k)

pub decimal_injective : (m n : ℕ) → m < 2 ^ 32 → n < 2 ^ 32 → decimal m ≡ decimal n → m ≡ n
unfolding decimal
decimal_injective m n p q e =
    sym (value_from-digits 10 m (omega arith))
    ∙ ap (value_from 0) e
    ∙ value_from-digits 10 n (omega arith)

test_decimal : decimal 4_294_967_295 ≡ codes "4294967295"
unfolding decimal
test_decimal = refl
