-- ===== src/FmUi/ContextMenu.antt =====
-- The name of a duplicate (src/ui-common/fm-ui/src/context_menu.rs).
use mathlib.Core.List.{append_cancel_left, append_cancel_right}
use app_full.Base.{
  ℕ, ◌<◌, ◌^◌, ◌≡◌, refl, ap, sym, Bool, false, List, ◌∷◌, [], ◌++◌, if◌then◌else◌, ◌==◌, arith,
  Bool-cases, inl, inr, length, length-append,
}
use app_full.Base.Texts.{Str, codes, contains, str_eq}
use app_full.Base.Decimal.{decimal, decimal_injective}
use app_full.FmCore.Names.{range_size, first_free}
use app_full.FmCore.Names.Free.{contains-first_free}

-- `{stem} copy{ext}`, and `{stem} copy {n}{ext}` from the second copy on.
copy_name : Str → Str → ℕ → Str
copy_name stem ext n =
    if n == 1
    then stem ++ (codes " copy" ++ ext)
    else stem ++ (codes " copy" ++ (codes " " ++ (decimal n ++ ext)))

unfoldable pub unique_copy_name : Str → Bool → List Str → Str
unfolding copy_name
unique_copy_name name is_dir existing = first_free name is_dir existing copy_name

longer : (n : ℕ) (ext : Str) → ext ≡ codes " " ++ (decimal n ++ ext) → ⊥
longer n ext e = omega (arith, ap (λ (s : Str). length s) e, length-append (decimal n) ext)

copy_name-IsDistinct :
    (stem ext : Str) (m n : ℕ)
    → m < 2 ^ 32
    → n < 2 ^ 32
    → copy_name stem ext m ≡ copy_name stem ext n
    → m ≡ n
unfolding copy_name
copy_name-IsDistinct stem ext m n p q e = elim (Bool-cases (m == 1)) [
  | inl a ↦ elim (Bool-cases (n == 1)) [
    | inl b ↦ ground arith
    | inr b ↦ absurd (
        longer n ext
          (append_cancel_left (codes " copy") _ _ (append_cancel_left stem _ _ (rw (a, b) at e))))
  ]
  | inr a ↦ elim (Bool-cases (n == 1)) [
    | inl b ↦ absurd (
        longer m ext (
          append_cancel_left (codes " copy") _ _
            (append_cancel_left stem _ _ (sym (rw (a, b) at e)))))
    | inr b ↦ decimal_injective m n p q (
        append_cancel_right _ _ ext (
          append_cancel_left (codes " ") _ _ (
            append_cancel_left (codes " copy") _ _ (append_cancel_left stem _ _ (rw (a, b) at e)))))
  ]
]

-- With fewer than 2 ^ 32 - 2 entries, which is how many numbers are tried, the name of a duplicate is
-- not that of an entry.
pub contains-unique_copy_name :
    (name : Str) (is_dir : Bool) (existing : List Str)
    → length existing < range_size
    → contains existing (unique_copy_name name is_dir existing) ≡ false
unfolding unique_copy_name
contains-unique_copy_name name is_dir existing room =
    contains-first_free name is_dir existing copy_name (copy_name-IsDistinct _ _) room

test_copy : unique_copy_name (codes "a.txt") false (codes "a copy.txt" ∷ []) ≡ codes "a copy 2.txt"
unfolding unique_copy_name first_free str_eq decimal
test_copy = refl
