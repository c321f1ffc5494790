-- ===== src/PanelCore/Tests.antt =====
-- The theorems about panels at concrete inputs.
use app_full.Base.{◌≡◌, true, false, List, [], ◌∷◌}
use app_full.Base.Texts.{Str, codes}
use app_full.Base.Outcome.{ok}
use app_full.PanelCore.{PathSegment, build_segments_to_path, parse_path_to_segments}
use app_full.PanelCore.Segments.{get_path_segments, get_path_segments-parse_path_to_segments}
use app_full.PanelCore.Nav.{NavPath, Fs, provider, build_levels, absolute_path, from_levels}
use app_full.PanelCore.Nav.Levels.{absolute_path-build_levels}
use app_full.PanelCore.History.{back, forward}
use app_full.PanelCore.History.Timeline.{IsView, step_back, step_forward}
use app_full.PanelCore.History.Runs.{record_op, back_op, clear_op, run, run_timeline, run_lem}
use app_full.PanelCore.Nav

abbrev disk : Fs
disk = provider 0

abbrev segment : Str → Str → PathSegment
segment name path = record { name = name; path = path }

abbrev target : List PathSegment
target = segment (codes "a.zip") (codes "/a.zip") ∷ segment (codes "b") (codes "/a.zip/b") ∷ []

absolute_path-build_levels_example :
    absolute_path true (from_levels (build_levels true target [] disk) [] disk)
    ≡ build_segments_to_path true target
absolute_path-build_levels_example = absolute_path-build_levels true target [] disk

abbrev at_root : NavPath
at_root = Nav.new (Nav.new_level [] (codes "/") disk)

run_lem_example :
    IsView
      (run_timeline false (back_op ∷ record_op at_root ∷ clear_op ∷ []))
      (run false (back_op ∷ record_op at_root ∷ clear_op ∷ []))
    × ((back (run false (back_op ∷ record_op at_root ∷ clear_op ∷ []))).0
        ≡ ok (step_back (run_timeline false (back_op ∷ record_op at_root ∷ clear_op ∷ []))).0)
    × ((forward (run false (back_op ∷ record_op at_root ∷ clear_op ∷ []))).0
        ≡ ok (step_forward (run_timeline false (back_op ∷ record_op at_root ∷ clear_op ∷ []))).0)
run_lem_example = run_lem false (back_op ∷ record_op at_root ∷ clear_op ∷ [])

get_path_segments-parse_path_to_segments_example :
    get_path_segments false (codes "/a:b/c") ≡ parse_path_to_segments false (codes "/a:b/c")
get_path_segments-parse_path_to_segments_example =
    get_path_segments-parse_path_to_segments (codes "/a:b/c")
