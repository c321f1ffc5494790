-- ===== src/GtkApp/ClipboardOps.antt =====
-- Names for a paste into the folder that was copied from (src/gtk-app/src/clipboard_ops.rs).
-- The `HashMap` of the plan is an association list: an insertion replaces the value of its key.
pub mod Plan
use app_full.Base.{
  ℕ, ◌≡◌, refl, Bool, true, false, ◌||◌, ◌&&◌, List, [], ◌∷◌, ◌++◌, Option, none, some,
  if◌then◌else◌, ◌==◌,
}
use app_full.Base.Texts.{Str, codes, str_eq}
use app_full.Base.Decimal.{decimal}
use app_full.FmCore.Names.{keep_or_number}
use app_full.FmCore.Clipboard.{ClipItem}

abbrev pub Plan : Type 0
Plan = List (Str × Str)

pub insert : Str → Str → Plan → Plan
insert k v [] = (k, v) ∷ []
insert k v ((j, w) ∷ m) = if str_eq j k then (j, v) ∷ m else (j, w) ∷ insert k v m

unfoldable pub lookup : Str → Plan → Option Str
lookup k [] = none
lookup k ((j, w) ∷ m) = if str_eq j k then some w else lookup k m

-- `format!("{s} ({n}){e}")`
pub paren_name : Str → Str → ℕ → Str
paren_name s e n = s ++ (codes " (" ++ (decimal n ++ (codes ")" ++ e)))

-- The loop of `plan_names`, with its `taken` and `map`.
plan_loop : List ClipItem → List Str → Plan → Plan
plan_loop [] taken m = m
plan_loop (it ∷ items) taken m =
    let renamed = keep_or_number it.name it.is_dir taken paren_name in
    plan_loop items (taken ++ renamed ∷ []) (insert it.name renamed m)

unfoldable pub plan_names : List ClipItem → List Str → Plan
unfolding plan_loop insert paren_name
plan_names items taken = plan_loop items taken []

-- `src` is the level, if it is still alive, and a level is its address.
pub same_filesystem : (ℕ → Bool) → Option ℕ → ℕ → Bool
same_filesystem is_local none dest = false
same_filesystem is_local (some src) dest = src == dest || is_local src && is_local dest
