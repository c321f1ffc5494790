-- ===== src/PanelCore/Router/Typing/Tests.antt =====
-- Typed paths at concrete panels.
use app_full.Base.{List, All, ◌∷◌, [], ◌≡◌, refl, true, false, [], none}
use app_full.Base.Texts.{codes, str_eq, is_empty}
use app_full.Base.Trim.{trim}
use app_full.Base.Outcome.{ok, dropped}
use app_full.PanelCore.{PathSegment, parse_path_to_segments}
use app_full.PanelCore.Nav.{Fs, provider, build_levels, absolute_path, from_levels}
use app_full.PanelCore.Router
use app_full.PanelCore.Router.{Listing, listing, timed_out, Backend, RouterState, enter}
use app_full.PanelCore.Router.Typing.{
  normalize_typed_segments, head_level, probe, valid_from, remember_selection, navigate_segments,
  navigate_typed_inner, clear_resolving, navigate_typed,
}
use app_full.PanelCore.Router.Typing.Normalizing.{IsPlain, normalize_typed_segments-IsPlain}
use app_full.PanelCore.Router.Typing.Resolving.{
  is_cut_off, resolving-navigate_typed, navigate_typed_stuck,
}

abbrev quiet : Backend
quiet = record {
  list_dir = λ n fs rel. timed_out;
  display_name = λ fs. none;
  is_root_fs = λ fs. false;
}

abbrev answering : Backend
answering = record {
  list_dir = λ n fs rel. listing [];
  display_name = λ fs. none;
  is_root_fs = λ fs. false;
}

abbrev disk : Fs
disk = provider 0

abbrev start : Backend → RouterState
start backend = Router.new false backend disk disk

not_resolving : (backend : Backend) → (start backend).resolving ≡ false
unfolding Router.new
not_resolving backend = refl

resolving-navigate_typed_example :
    (navigate_typed false answering (codes "/usr") (start answering)).1.resolving
    ≡ is_cut_off (navigate_typed false answering (codes "/usr") (start answering)).0
resolving-navigate_typed_example =
    resolving-navigate_typed false answering (codes "/usr") (start answering)
      (not_resolving answering)

stops_waiting : (navigate_typed false quiet (codes "/usr") (start quiet)).0 ≡ dropped
unfolding navigate_typed navigate_typed_inner navigate_segments clear_resolving valid_from probe
    parse_path_to_segments remember_selection Router.new is_empty trim head_level Router.Nav.new
    normalize_typed_segments app_full.FmCore.Path.split_path str_eq Router.Nav.last_level
    build_levels
stops_waiting = refl

navigate_typed_stuck_example :
    navigate_typed false quiet
      (codes "/home")
      (navigate_typed false quiet (codes "/usr") (start quiet)).1
    ≡ (ok true, (navigate_typed false quiet (codes "/usr") (start quiet)).1)
navigate_typed_stuck_example =
    navigate_typed_stuck false quiet (codes "/usr") (codes "/home") (start quiet)
      (not_resolving quiet) stops_waiting

abbrev dotted : List PathSegment
dotted =
    record { name = codes "c:"; path = [] }
    ∷ record { name = codes ".."; path = [] }
    ∷ record { name = codes "d"; path = [] }
    ∷ []

normalize_typed_segments-IsPlain_example :
    All IsPlain (normalize_typed_segments true dotted)
    × (normalize_typed_segments false (normalize_typed_segments false dotted)
        ≡ normalize_typed_segments false dotted)
normalize_typed_segments-IsPlain_example = normalize_typed_segments-IsPlain true dotted
