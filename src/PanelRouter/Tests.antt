-- ===== src/PanelRouter/Tests.antt =====
-- Paths of a panel that shows an archive, and of a folder beside the shown one.
use app_full.Base.{[], ◌∷◌, ◌++◌, ◌≡◌, refl, false, arith}
use app_full.Base.Texts.{Str, codes, strip_prefix}
use app_full.FmCore.Path.{join_with, split_joined}
use app_full.FmCore.Path.Joining.{IsComponent}
use app_full.PanelCore.{join_segment_names}
use app_full.PanelRouter.{RoutingProvider, unwrap_or, join_display, resolve}
use app_full.PanelRouter.Resolving.{resolve-join_display}

abbrev at : Str → Str → RoutingProvider
at display rel = record { display_prefix = display; rel_prefix = rel }

test_archive :
    resolve false (at (codes "/a.zip/sub") (codes "/sub")) (codes "/a.zip/sub/deep/b")
    ≡ codes "/sub/deep/b"
unfolding resolve unwrap_or split_joined join_segment_names join_with strip_prefix
test_archive = refl

-- The prefix is cut off as a text: a path beside the shown folder is taken for one below it.
test_sibling :
    resolve false (at (codes "/docs") (codes "/docs")) (codes "/docs2/x") ≡ codes "/docs/2/x"
unfolding resolve unwrap_or split_joined join_segment_names join_with strip_prefix
test_sibling = refl

a-IsComponent : IsComponent (codes "a")
a-IsComponent = record { filled = λ e. ground arith; whole = (omega arith, tt) }

resolve-join_display_example :
    resolve false
      (at (join_with (codes "a" ∷ codes "a" ∷ []) false) (codes "/"))
      (join_display false (join_with (codes "a" ∷ codes "a" ∷ []) false) (codes "a"))
    ≡ join_segment_names false (split_joined (codes "/") ++ codes "a" ∷ [])
resolve-join_display_example =
    resolve-join_display (codes "a" ∷ codes "a" ∷ []) (codes "/") (codes "a")
      (a-IsComponent, (a-IsComponent, tt)) a-IsComponent
