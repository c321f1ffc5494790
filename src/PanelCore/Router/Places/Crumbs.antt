-- ===== src/PanelCore/Router/Places/Crumbs.antt =====
-- The breadcrumbs of a panel, and paths below the place that it shows (src/panel-core/src/state.rs).
use app_full.Base.{◌≡◌, refl, ap, ◌∙◌, Bool, List, [], ◌∷◌, ◌++◌, some, All}
use app_full.Base.Texts.{Str, strip_prefix-append}
use app_full.FmCore.Path.{join_with, split_path, split_joined}
use app_full.FmCore.Path.Joining.{IsComponent}
use app_full.FmCore.Path.Splitting.{split_joined-IsComponent}
use app_full.FmCore.Path.Stable.{join_with-split_joined}
use app_full.PanelCore.{join_segment_names, segment_names, segments_from, parse_path_to_segments}
use app_full.PanelCore.Nav.{
  Fs, PathLevel, NavPath, build_levels, from_levels, active, absolute_path,
}
use app_full.PanelCore.Nav.Levels.{level_names-build_from}
use app_full.PanelCore.Router.Places.{
  crumbs_from, breadcrumb_segments, resolve_at, resolve_for, resolve_relative,
}

crumbs_from-segments_from :
    (windows : Bool) (before parts : List Str)
    → crumbs_from windows before (segment_names (segments_from windows before parts))
      ≡ segments_from windows before parts
unfolding crumbs_from segments_from
crumbs_from-segments_from windows before [] = refl
crumbs_from-segments_from windows before (part ∷ parts) =
    ap (λ r. record { name = part; path = join_segment_names windows (before ++ part ∷ []) } ∷ r)
      (crumbs_from-segments_from windows (before ++ part ∷ []) parts)

-- The breadcrumbs of the levels that are built for a path are the segments of the path, whatever is
-- mounted on the way.
pub breadcrumb_segments-build_levels :
    (windows : Bool) (path base_name : Str) (base : Fs)
    → breadcrumb_segments windows (
        from_levels
          (build_levels windows (parse_path_to_segments windows path) base_name base)
          base_name
          base)
      ≡ parse_path_to_segments windows path
unfolding breadcrumb_segments from_levels build_levels parse_path_to_segments
breadcrumb_segments-build_levels windows path base_name base =
    ap (crumbs_from windows [])
      (level_names-build_from windows base [] (segments_from windows [] (split_path path)))
    ∙ crumbs_from-segments_from windows [] (split_path path)

resolve_at-below :
    (windows : Bool) (display tail : Str) (here : List Str)
    → All IsComponent here
    → resolve_at windows display (join_with here windows) (display ++ tail)
      ≡ join_with (here ++ split_joined tail) windows
unfolding resolve_at join_segment_names
resolve_at-below windows display tail here h =
    rw (strip_prefix-append display tail)
      (join_with-split_joined here (split_joined tail) windows h (split_joined-IsComponent tail))

-- If the relative path of the active level was joined from names that are not empty and have no
-- slash, a text that starts with the text of the place that the panel shows resolves to the path of
-- these names with the names behind them that the rest of the text holds.
pub resolve_relative-below :
    (windows : Bool) (path : NavPath) (a : PathLevel) (here : List Str) (tail : Str)
    → active path ≡ some a
    → a.relative_path ≡ join_with here windows
    → All IsComponent here
    → resolve_relative windows path (absolute_path windows path ++ tail)
      ≡ some (join_with (here ++ split_joined tail) windows)
unfolding resolve_relative
resolve_relative-below windows path a here tail found rel h =
    rw (found, resolve_for, rel)
      (ap some (resolve_at-below windows (absolute_path windows path) tail here h))
