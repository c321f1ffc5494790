-- ===== src/FmCore/Clipboard.antt =====
-- The clipboard of the panels (src/ui-common/fm-core/src/clipboard.rs).
-- A provider behind an `Rc` is its address, and a callback is the number under which it was made.
-- The calls of the callbacks are written to `calls`, the newest first; a callback only observes.
pub mod Sync
pub mod Reachable
use app_full.Base.{
  ℕ, ◌≡◌, refl, Bool, true, false, not, ◌&&◌, List, [], ◌∷◌, ◌++◌, Option, none, some,
  if◌then◌else◌, ◌==◌, ltb, length, any,
}
use app_full.Base.Texts.{Str, codes}

pub data ClipKind : Type 0 where
  copy cut : ClipKind

pub record ClipItem : Type 0 where
  pub name : Str
  pub is_dir : Bool
  pub size : ℕ
  pub permissions : Option ℕ

pub record Clip : Type 0 where
  pub kind : ClipKind
  pub side : Str
  pub source_path : Str
  pub items : List ClipItem
  pub source : ℕ
  pub anchor : ℕ
  pub rebuildable : Bool
  pub refresh_source : Option ℕ

pub is_cut : ClipKind → Bool
is_cut cut = true
is_cut copy = false

pub record BadgeState : Type 0 where
  pub cut_badge : Bool
  pub copy_badge : Bool
  pub paste_enabled : Bool
  pub clear_visible : Bool

pub badge_state : ℕ → Bool → Bool → BadgeState
badge_state count mine cutting =
    let any = ltb 0 count in
    record {
      cut_badge = any && mine && cutting;
      copy_badge = any && mine && not cutting;
      paste_enabled = any;
      clear_visible = any;
    }

-- What a callback is called with: the number of items, the side, and whether it is a cut.
pub record Change : Type 0 where
  pub count : ℕ
  pub side : Str
  pub cut : Bool

pub record Clipboard : Type 0 where
  pub slot : Option Clip
  pub on_change : List ℕ
  pub calls : List (ℕ × Change)

pub new : Clipboard
new = record { slot = none; on_change = []; calls = [] }

-- One call of each callback, in order.
call_all : List ℕ → Change → List (ℕ × Change) → List (ℕ × Change)
call_all [] c calls = calls
call_all (h ∷ hs) c calls = call_all hs c ((h, c) ∷ calls)

notify : Change → Clipboard → Clipboard
notify c cb = record cb { calls = call_all cb.on_change c cb.calls }

pub len : Clip → ℕ
len clip = length clip.items

pub set : Clip → Clipboard → Clipboard
unfolding notify
set clip cb =
    let change : Change = record { count = len clip; side = clip.side; cut = is_cut clip.kind } in
    notify change (record cb { slot = some clip })

clear_slot : Option Clip → Clipboard → Clipboard
unfolding notify
clear_slot none cb = cb
clear_slot (some clip) cb =
    notify (record { count = 0; side = []; cut = false }) (record cb { slot = none })

pub clear : Clipboard → Clipboard
unfolding clear_slot
clear cb = clear_slot cb.slot cb

pub count : Clipboard → ℕ
count cb = elim cb.slot [ none ↦ 0 | some clip ↦ len clip ]

pub kind : Clipboard → Option ClipKind
kind cb = elim cb.slot [ none ↦ none | some clip ↦ some clip.kind ]

pub connect_changed : ℕ → Clipboard → Clipboard
connect_changed h cb = record cb { on_change = cb.on_change ++ h ∷ [] }

-- `alive` tells whether `Weak::upgrade` still finds the level.
is_gone : (ℕ → Bool) → List ℕ → Option Clip → Bool
is_gone alive live none = false
is_gone alive live (some clip) =
    if clip.rebuildable
    then false
    else if alive clip.anchor
    then not (any (λ f. f == clip.anchor) live)
    else true

pub drop_if_unreachable : (ℕ → Bool) → List ℕ → Clipboard → Clipboard
unfolding is_gone
drop_if_unreachable alive live cb = if is_gone alive live cb.slot then clear cb else cb
