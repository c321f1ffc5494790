-- ===== src/PanelCore/Router/Places.antt =====
-- Places that are shown or gone back to (src/panel-core/src/state.rs).
pub mod Crumbs
use app_full.Base.{Bool, List, [], ◌∷◌, ◌++◌, Option, none, some, drop}
use app_full.Base.Texts.{Str, strip_prefix}
use app_full.Base.Outcome.{Outcome, ◌>>=◌, ◌>>◌, pure, gets, expect, modify}
use app_full.FmCore.Path.{split_joined}
use app_full.PanelCore.{PathSegment, join_segment_names}
use app_full.PanelCore.Nav
use app_full.PanelCore.Nav.{
  Fs, PathLevel, NavPath, new_level, root_path, active, absolute_path, level_names,
}
use app_full.PanelCore.History
use app_full.PanelCore.History.{History}
use app_full.PanelCore.Router.{Backend, RouterState, Op, base_name, show_active}

crumbs_from : Bool → List Str → List Str → List PathSegment
crumbs_from windows acc [] = []
crumbs_from windows acc (name ∷ names) =
    let upto = acc ++ name ∷ [] in
    record { name = name; path = join_segment_names windows upto } ∷ crumbs_from windows upto names

module _ (windows : Bool) where
  unfoldable pub breadcrumb_segments : NavPath → List PathSegment
  unfolding crumbs_from level_names
  breadcrumb_segments path = crumbs_from windows [] (level_names (drop 1 path.levels))

  -- `abs` at the level, below the text that the panel shows for it.
  pub resolve_at : Str → Str → Str → Str
  resolve_at display rel abs =
      let tail : Str = elim (strip_prefix display abs) [ none ↦ abs | some t ↦ t ] in
      join_segment_names windows (split_joined rel ++ split_joined tail)

  -- `none` is the panic of `active`.
  unfoldable pub resolve_for : Str → Str → Option PathLevel → Option Str
  unfolding resolve_at
  resolve_for display abs none = none
  resolve_for display abs (some a) = some (resolve_at display a.relative_path abs)

  unfoldable pub resolve_relative : NavPath → Str → Option Str
  unfolding resolve_for
  resolve_relative path abs = resolve_for (absolute_path windows path) abs (active path)

module _ (windows : Bool) (backend : Backend) where
  pub set_root_level : Fs → RouterState → RouterState
  set_root_level fs s = record s {
    path = Nav.new (new_level (base_name windows backend fs) root_path fs);
  }

  pub reset_to_base : RouterState → RouterState
  reset_to_base s = set_root_level s.base_provider s

  pub set_active_provider : Fs → Str → RouterState → RouterState
  set_active_provider fs mount_point s = set_root_level fs s

  pub active_provider : Op Fs
  active_provider = do a ← gets (λ s. active s.path); level ← expect a; pure level.fs

  pub active_selected : Op (Option Str)
  active_selected = do a ← gets (λ s. active s.path); level ← expect a; pure level.selected

  -- A move in the history, and the level that it restores.
  restore : Option NavPath → Op Unit
  restore none = pure tt
  restore (some nav) = do modify (λ s. record s { path = nav }); show_active windows backend

  in_history : (History → Outcome (Option NavPath) × History) → Op (Option NavPath)
  in_history f s = let (r, h) = f s.history in (r, record s { history = h })

  pub go_back : Op Unit
  go_back = do restored ← in_history History.back; restore restored

  pub go_forward : Op Unit
  go_forward = do restored ← in_history History.forward; restore restored

  pub can_go_back : RouterState → Bool
  can_go_back s = History.can_back s.history

  pub can_go_forward : RouterState → Bool
  can_go_forward s = History.can_forward s.history

  pub clear_history_state : RouterState → RouterState
  clear_history_state s = record s { history = History.clear s.history }
