-- ===== src/PanelRouter.antt =====
-- The provider that a panel hands out (src/panel-router/src/router.rs): it turns the paths that the
-- panel shows into paths of the provider of the active level.
pub mod Resolving
mod Tests
use app_full.Base.{Bool, List, [], ◌∷◌, ◌++◌, Option, none, some, map}
use app_full.Base.Texts.{Str, strip_prefix}
use app_full.FmCore.Path.{split_joined}
use app_full.PanelCore.{join_segment_names}

-- The two prefixes; the provider itself is called with the path that `resolve` gives.
pub record RoutingProvider : Type 0 where
  pub display_prefix : Str
  pub rel_prefix : Str

unwrap_or : Option Str → Str → Str
unwrap_or none s = s
unwrap_or (some t) s = t

module _ (windows : Bool) where
  pub join_display : Str → Str → Str
  join_display dir name = join_segment_names windows (split_joined dir ++ name ∷ [])

  pub resolve : RoutingProvider → Str → Str
  resolve rp abs =
      let tail = unwrap_or (strip_prefix rp.display_prefix abs) abs in
      join_segment_names windows (split_joined rp.rel_prefix ++ split_joined tail)

  -- The paths of a batch, as `delete_entries` hands them to the provider.
  pub resolve_all : RoutingProvider → List Str → List Str
  resolve_all rp paths = map (resolve rp) paths
