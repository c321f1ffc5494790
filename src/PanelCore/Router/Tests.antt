-- ===== src/PanelCore/Router/Tests.antt =====
-- Entering a child at a concrete panel.
use app_full.Base.{some, ◌≡◌, refl, true, false, [], ◌∷◌, ◌++◌, none, arith}
use app_full.Base.Texts.{codes}
use app_full.FmCore.Path.Joining.{IsComponent}
use app_full.PanelCore.{parse_path_to_segments, PathSegment}
use app_full.PanelCore.Nav.{
  from_levels, new_level, active, last_level, absolute_path, PathLevel, Fs, provider, build_levels,
}
use app_full.PanelCore.Router
use app_full.PanelCore.Router.{failed, Backend, RouterState, enter}
use app_full.Base.Outcome.{io}
use app_full.PanelCore.Router.Location.{places}
use app_full.PanelCore.Router.Places.{breadcrumb_segments, resolve_relative}
use app_full.PanelCore.Router.Places.Crumbs.{
  breadcrumb_segments-build_levels, resolve_relative-below,
}
use app_full.FmCore.Path.{join_with, split_joined}
use app_full.PanelCore.Router.Entering.{places-enter}

-- A provider whose listings all end with an error.
abbrev failing : Backend
failing = record {
  list_dir = λ n fs rel. failed (io []);
  display_name = λ fs. none;
  is_root_fs = λ fs. false;
}

abbrev disk : Fs
disk = provider 0

abbrev start : RouterState
start = Router.new true failing disk disk

abbrev child : PathSegment
child = record { name = codes "a"; path = codes "/a" }

child_fits : IsComponent child.name
child_fits = record { filled = λ e. cc; whole = (omega arith, tt) }

starts_at_root : places start.path.levels ≡ places (build_levels true [] [] disk)
unfolding build_levels Router.new Router.Nav.new Router.base_name Router.unwrap_or_default
starts_at_root = refl

places-enter_example :
    places (enter true failing child.name start).1.path.levels
    ≡ places (build_levels true ([] ++ child ∷ []) [] disk)
places-enter_example = places-enter true failing [] child [] disk tt child_fits start starts_at_root

breadcrumb_segments-build_levels_example :
    breadcrumb_segments true (
      from_levels
        (build_levels true (parse_path_to_segments true (codes "/a.zip/b")) [] disk)
        []
        disk)
    ≡ parse_path_to_segments true (codes "/a.zip/b")
breadcrumb_segments-build_levels_example =
    breadcrumb_segments-build_levels true (codes "/a.zip/b") [] disk

abbrev shown : PathLevel
shown = new_level [] (codes "/a") disk

joined_a : shown.relative_path ≡ join_with (codes "a" ∷ []) true
unfolding join_with new_level
joined_a = refl

found : active (from_levels (shown ∷ []) [] disk) ≡ some shown
unfolding active from_levels last_level
found = refl

resolve_relative-below_example :
    resolve_relative true
      (from_levels (shown ∷ []) [] disk)
      (absolute_path true (from_levels (shown ∷ []) [] disk) ++ codes "b//c")
    ≡ some (join_with (codes "a" ∷ [] ++ split_joined (codes "b//c")) true)
resolve_relative-below_example =
    resolve_relative-below true (from_levels (shown ∷ []) [] disk) shown (codes "a" ∷ [])
      (codes "b//c") found joined_a (child_fits, tt)
