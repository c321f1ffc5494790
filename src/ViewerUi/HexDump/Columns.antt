-- ===== src/ViewerUi/HexDump/Columns.antt =====
-- The width of the columns of a hexadecimal dump (src/ui-common/viewer-ui/src/encoding.rs).
use app_full.Base.{
  ℕ, zero, suc, ◌+◌, ◌-◌, ◌*◌, ◌≤◌, List, [], ◌∷◌, length, length-append, if◌then◌else◌, leb, ◌==◌,
  ◌≡◌, ◌∙◌, arith, Bool-cases, inl, inr,
}
use app_full.ViewerUi.HexDump.{cells, padding, gap, columns, hex_byte}

-- The width of the columns from the number `i` on.
width : ℕ → ℕ
width i = 3 * (16 - i) + (if leb i 7 then 1 else 0)

length-padding : (i n : ℕ) → i + n ≡ 16 → length (padding i n) ≡ width i
unfolding padding gap width
length-padding i zero h = ground arith
length-padding i (suc n) h = elim (Bool-cases (i == 7)) [
  | inl e ↦ rw (e, length-padding (suc i) n (omega arith)) (ground arith)
  | inr e ↦ rw (e, length-padding (suc i) n (omega arith)) (ground arith)
]

length-cells :
    (i : ℕ) (chunk : List ℕ)
    → i + length chunk ≤ 16
    → length (cells i chunk) + length (padding (i + length chunk) (16 - (i + length chunk)))
      ≡ width i
unfolding cells gap hex_byte width
length-cells i [] h =
    let e : i + 0 ≡ i = omega arith in
    rw (e, length-padding i (16 - i) (omega arith)) (ground arith)
length-cells i (b ∷ chunk) h =
    let m : i + suc (length chunk) ≡ suc i + length chunk = omega arith in
    let rest = length-cells (suc i) chunk (omega arith) in
    elim (Bool-cases (i == 7)) [
      | inl e ↦ rw (e, m) (ground arith)
      | inr e ↦ rw (e, m) (ground arith)
    ]

-- The columns of a chunk of at most 16 bytes are 49 characters wide.
pub length-columns : (chunk : List ℕ) → length chunk ≤ 16 → length (columns chunk) ≡ 49
unfolding columns width
length-columns chunk h =
    let z : 0 + length chunk ≡ length chunk = omega arith in
    let whole = length-cells 0 chunk (omega arith) in
    length-append (cells 0 chunk) (padding (length chunk) (16 - length chunk)) ∙ (rw z at whole)
