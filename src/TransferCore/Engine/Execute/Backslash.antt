-- ===== src/TransferCore/Engine/Execute/Backslash.antt =====
-- Relative paths that are joined with a backslash, as `Path::join` does on Windows.
use app_full.Base.{ℕ, ◌≡◌, refl, Bool, true, false, ◌&&◌, [], ◌∷◌, ◌++◌, Option, none, arith}
use app_full.Base.Texts.{Str, Lacks, str_eq, starts_with}
use app_full.FmCore.Path.{slash}
use app_full.TransferCore.{TransferItem, in_front, split_once, retarget_split, retarget}
use app_full.TransferCore.Engine.{World}
use app_full.TransferCore.Engine.Execute.{is_kept}

abbrev backslash : ℕ
backslash = b'\\'

split_once-Lacks : (s : Str) → Lacks slash s → split_once s ≡ none
unfolding split_once in_front
split_once-Lacks [] h = refl
split_once-Lacks (c ∷ s) h = ground (arith, split_once-Lacks s h.1)

starts_with-backslash :
    (p name : Str) → starts_with (p ++ slash ∷ []) (p ++ backslash ∷ name) ≡ false
unfolding starts_with
starts_with-backslash [] name = refl
starts_with-backslash (c ∷ p) name = ground (arith, starts_with-backslash p name)

str_eq-backslash : (p name : Str) → str_eq (p ++ backslash ∷ name) p ≡ false
unfolding str_eq
str_eq-backslash [] name = refl
str_eq-backslash (c ∷ p) name = ground (arith, str_eq-backslash p name)

and_false : (b : Bool) → (b && false) ≡ false
and_false true = refl
and_false false = refl

-- A child whose path is joined to that of its directory with a backslash, has no slash, and has no
-- new name of its own is not renamed with its directory, and when it is the only one skipped, it
-- does not keep its directory from being deleted.
pub is_kept-backslash :
    (world : World) (renames : Str → Option Str) (parent child : TransferItem) (name : Str)
    → child.relative_path ≡ parent.relative_path ++ backslash ∷ name
    → Lacks slash child.relative_path
    → renames child.relative_path ≡ none
    → (retarget renames child ≡ child) × (is_kept world (child.relative_path ∷ []) parent ≡ false)
unfolding is_kept retarget retarget_split
is_kept-backslash world renames parent child name e l r = (
  rw (split_once-Lacks child.relative_path l, r, retarget_split) refl,
  rw
      (
        e,
        str_eq-backslash parent.relative_path name,
        starts_with-backslash parent.relative_path name,
      )
      (and_false parent.is_dir),
)
