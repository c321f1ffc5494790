-- ===== src/PanelCore/History.antt =====
-- The history of a panel (src/panel-core/src/state.rs).
pub mod Timeline
pub mod Runs
use app_full.Base.{
  ℕ, ◌+◌, ◌-◌, Bool, false, ◌&&◌, not, List, [], ◌∷◌, ◌++◌, Option, none, some, if◌then◌else◌, ltb,
  length, take, get_elem?, set,
}
use app_full.Base.Texts.{str_eq}
use app_full.Base.Outcome.{Outcome, ok, panicked}
use app_full.PanelCore.Nav.{NavPath, absolute_path}

pub record History : Type 0 where
  pub snapshots : List NavPath
  pub index : ℕ

unfoldable pub new : History
new = record { snapshots = []; index = 0 }

is_none_left : List NavPath → Bool
is_none_left [] = Bool.true
is_none_left (p ∷ ps) = false

-- `cur.absolute_path() == nav.absolute_path()`
unfoldable pub same_place : Bool → NavPath → NavPath → Bool
same_place windows a b = str_eq (absolute_path windows a) (absolute_path windows b)

-- A snapshot behind the current one, in place of those that stood there.
append_snapshot : NavPath → History → History
append_snapshot nav h =
    let kept = if is_none_left h.snapshots then h.snapshots else take (h.index + 1) h.snapshots in
    let pushed = kept ++ nav ∷ [] in record { snapshots = pushed; index = length pushed - 1 }

record_at : Bool → NavPath → Option NavPath → History → History
record_at windows nav none h = append_snapshot nav h
record_at windows nav (some cur) h =
    if same_place windows cur nav
    then record h { snapshots = set h.snapshots h.index nav }
    else append_snapshot nav h

-- `History::record`
unfoldable pub record_nav : Bool → NavPath → History → History
unfolding record_at append_snapshot is_none_left
record_nav windows nav h = record_at windows nav (get_elem? h.snapshots h.index) h

unfoldable pub can_back : History → Bool
unfolding is_none_left
can_back h = not (is_none_left h.snapshots) && ltb 0 h.index

unfoldable pub can_forward : History → Bool
can_forward h = ltb (h.index + 1) (length h.snapshots)

-- An index beyond the snapshots panics.
unfoldable pub snapshot_at : List NavPath → ℕ → Outcome (Option NavPath)
snapshot_at ps i = elim (get_elem? ps i) [ none ↦ panicked | some p ↦ ok (some p) ]

unfoldable pub back : History → Outcome (Option NavPath) × History
back h =
    if can_back h
    then (snapshot_at h.snapshots (h.index - 1), record h { index = h.index - 1 })
    else (ok none, h)

unfoldable pub forward : History → Outcome (Option NavPath) × History
forward h =
    if can_forward h
    then (snapshot_at h.snapshots (h.index + 1), record h { index = h.index + 1 })
    else (ok none, h)

unfoldable pub clear : History → History
clear h = record { snapshots = []; index = 0 }
