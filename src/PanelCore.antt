-- ===== src/PanelCore.antt =====
-- Navigation of one panel (src/panel-core). `windows` is the constant of fm_core::path.
mod Tests
pub mod Segments
pub mod Nav
pub mod History
pub mod Router
use app_full.Base.{ℕ, Bool, List, [], ◌∷◌, ◌++◌, map}
use app_full.Base.Texts.{Str}
use app_full.FmCore.Path.{join_with, split_path}

pub record PathSegment : Type 0 where
  pub name : Str
  pub path : Str

-- `join_segment_names` of fm_core::path.
unfoldable pub join_segment_names : Bool → List Str → Str
join_segment_names windows names = join_with names windows

-- The loop of `parse_path_to_segments`, behind the parts that it has passed.
segments_from : Bool → List Str → List Str → List PathSegment
segments_from windows before [] = []
segments_from windows before (part ∷ parts) =
    let upto = before ++ part ∷ [] in
    record { name = part; path = join_segment_names windows upto }
    ∷ segments_from windows upto parts

unfoldable pub parse_path_to_segments : Bool → Str → List PathSegment
unfolding segments_from
parse_path_to_segments windows path = segments_from windows [] (split_path path)

abbrev pub segment_names : List PathSegment → List Str
segment_names [] = []
segment_names (s ∷ ss) = s.name ∷ segment_names ss

unfoldable pub build_segments_to_path : Bool → List PathSegment → Str
unfolding join_segment_names
build_segments_to_path windows segments = join_segment_names windows (segment_names segments)
