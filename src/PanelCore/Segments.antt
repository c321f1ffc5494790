-- ===== src/PanelCore/Segments.antt =====
-- The segments that a provider makes of a path (src/ui-common/fm-core/src/rpc.rs), against those of a
-- panel.
use app_full.Base.{
  ℕ, ◌≡◌, refl, ap, sym, ◌∙◌, Bool, false, ◌==◌, ◌&&◌, List, [], ◌∷◌, ◌++◌, append-nil, All,
  All-append, any, if◌then◌else◌,
}
use app_full.Base.Texts.{Str, ends_with}
use app_full.FmCore.Path.{slash, split_path}
use app_full.FmCore.Path.Joining.{IsComponent, slashed, join_with-slashed}
use app_full.FmCore.Path.RoundTrip.{absorb_unix}
use app_full.FmCore.Path.Splitting.{split_path-IsComponent}
use app_full.PanelCore.{PathSegment, join_segment_names, segments_from, parse_path_to_segments}

-- `current.join("/")`
join_slash : List Str → Str
join_slash [] = []
join_slash (s ∷ []) = s
join_slash (s ∷ t ∷ ts) = s ++ slash ∷ join_slash (t ∷ ts)

abbrev colon : ℕ
colon = b':'

segment_path : Bool → Str → Str
segment_path windows target_path =
    if windows && any (λ c. c == colon) target_path
    then (if ends_with (colon ∷ []) target_path then target_path ++ slash ∷ [] else target_path)
    else slash ∷ target_path

-- The loop of `get_path_segments`, behind the parts that it has passed.
provider_segments_from : Bool → List Str → List Str → List PathSegment
unfolding segment_path join_slash
provider_segments_from windows current [] = []
provider_segments_from windows current (p ∷ parts) =
    let upto = current ++ p ∷ [] in
    record { name = p; path = segment_path windows (join_slash upto) }
    ∷ provider_segments_from windows upto parts

unfoldable pub get_path_segments : Bool → Str → List PathSegment
unfolding provider_segments_from
get_path_segments windows path = provider_segments_from windows [] (split_path path)

slashed-join_slash : (s : Str) (ss : List Str) → slashed (s ∷ ss) ≡ slash ∷ join_slash (s ∷ ss)
unfolding slashed join_slash
slashed-join_slash s [] = ap (λ r. slash ∷ r) (append-nil s)
slashed-join_slash s (t ∷ ts) = ap (λ r. slash ∷ (s ++ r)) (slashed-join_slash t ts)

-- Off Windows both rules give the same path.
segment_path-join :
    (names : List Str) (p : Str)
    → All IsComponent (names ++ p ∷ [])
    → segment_path false (join_slash (names ++ p ∷ [])) ≡ join_segment_names false (names ++ p ∷ [])
unfolding segment_path join_segment_names
segment_path-join [] p h = sym (
    join_with-slashed false p [] refl h
    ∙ ap slashed (absorb_unix (p ∷ []))
    ∙ slashed-join_slash p [])
segment_path-join (s ∷ ss) p h = sym (
    join_with-slashed false s (ss ++ p ∷ []) refl h
    ∙ ap slashed (absorb_unix (s ∷ (ss ++ p ∷ [])))
    ∙ slashed-join_slash s (ss ++ p ∷ []))

provider_segments_from-segments_from :
    (current parts : List Str)
    → All IsComponent current
    → All IsComponent parts
    → provider_segments_from false current parts ≡ segments_from false current parts
unfolding provider_segments_from segments_from
provider_segments_from-segments_from current [] h k = refl
provider_segments_from-segments_from current (p ∷ parts) h k =
    let upto = All-append IsComponent current (p ∷ []) h (k.0, tt) in
    rw
      (
        segment_path-join current p upto,
        provider_segments_from-segments_from (current ++ p ∷ []) parts upto k.1,
      )
      refl

-- Off Windows a provider makes the same segments of a path as a panel does.
pub get_path_segments-parse_path_to_segments :
    (path : Str) → get_path_segments false path ≡ parse_path_to_segments false path
unfolding get_path_segments parse_path_to_segments
get_path_segments-parse_path_to_segments path =
    provider_segments_from-segments_from [] _ tt (split_path-IsComponent path)
