-- ===== src/TransferCore/Paths.antt =====
-- Paths of items below one another (src/transfer-core/src/lib.rs).
use app_full.Base.{
  ℕ, ◌≡◌, refl, ap, sym, ◌∙◌, Bool-cases, Option-cases, inl, inr, ◌==◌, [], ◌∷◌, ◌++◌, append_assoc,
  Option, none, some,
}
use app_full.Base.Texts.{Str}
use app_full.FmCore.Path.{slash}
use app_full.TransferCore.{TransferItem, in_front, split_once, retarget_split, retarget}

-- The path of a child in a path of a parent.
abbrev pub child_path : Str → Str → Str
child_path parent name = parent ++ slash ∷ name

-- A path below another one is split where that one is, and at its end if that one has no slash.
abbrev split_below : Str → Str → Option (Str × Str) → Option (Str × Str)
split_below parent name none = some (parent, name)
split_below parent name (some (top, rest)) = some (top, child_path rest name)

in_front-split_below :
    (c : ℕ) (parent name : Str) (o : Option (Str × Str))
    → in_front c (split_below parent name o) ≡ split_below (c ∷ parent) name (in_front c o)
unfolding in_front
in_front-split_below c parent name none = refl
in_front-split_below c parent name (some (top, rest)) = refl

split_once-child_path :
    (parent name : Str)
    → split_once (child_path parent name) ≡ split_below parent name (split_once parent)
unfolding split_once
split_once-child_path [] name = refl
split_once-child_path (c ∷ parent) name = elim (Bool-cases (c == slash)) [
  | inl e ↦ rw e refl
  | inr e ↦ rw e (
      ap (in_front c) (split_once-child_path parent name)
      ∙ in_front-split_below c parent name (split_once parent))
]

retarget_split-child :
    (renames : Str → Option Str) (parent item : TransferItem) (name : Str) (o : Option (Str × Str))
    → item.relative_path ≡ child_path parent.relative_path name
    → (retarget_split renames item (split_below parent.relative_path name o)).relative_path
      ≡ child_path (retarget_split renames parent o).relative_path name
unfolding retarget_split
retarget_split-child renames parent item name none e =
    elim (Option-cases (renames parent.relative_path)) [
      | inl n ↦ rw (n, retarget_split) e
      | inr (top, n) ↦ rw (n, retarget_split) refl
    ]
retarget_split-child renames parent item name (some (top, rest)) e =
    elim (Option-cases (renames top)) [
      | inl n ↦ rw (n, retarget_split) e
      | inr (t, n) ↦ rw (n, retarget_split) (sym (append_assoc t (slash ∷ rest) (slash ∷ name)))
    ]

-- An item whose path is that of another item, a slash and a name keeps that place behind the other
-- item when both are renamed at the top level, whatever is renamed.
pub relative_path-retarget :
    (renames : Str → Option Str) (parent item : TransferItem) (name : Str)
    → item.relative_path ≡ child_path parent.relative_path name
    → (retarget renames item).relative_path
      ≡ child_path (retarget renames parent).relative_path name
unfolding retarget
relative_path-retarget renames parent item name e =
    ap (λ p. (retarget_split renames item (split_once p)).relative_path) e
    ∙ ap (λ o. (retarget_split renames item o).relative_path)
        (split_once-child_path parent.relative_path name)
    ∙ retarget_split-child renames parent item name (split_once parent.relative_path) e
