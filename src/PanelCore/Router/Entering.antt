-- ===== src/PanelCore/Router/Entering.antt =====
-- Entering a child against building the path of the child (src/panel-core/src/state.rs).
use app_full.Base.{◌≡◌, refl, ap, sym, ◌∙◌, Bool, List, [], ◌∷◌, ◌++◌, some, All}
use app_full.Base.Texts.{Str}
use app_full.Base.Outcome.{◌>>◌, modify}
use app_full.Base.Keeps.{Keeps, keeps_rules}
use app_full.FmCore.Path.{join_with}
use app_full.FmCore.Path.Joining.{IsComponent}
use app_full.FmCore.Path.Stable.{join_with-split_joined}
use app_full.PanelCore.{PathSegment, segment_names, join_segment_names, build_segments_to_path}
use app_full.PanelCore.Nav.{
  Fs, PathLevel, NavPath, active, update_active, push, absolute_path, open_segment, build_levels,
}
use app_full.PanelCore.Nav.Levels.{
  reach, StandsAt, build_levels-append, last_level-build_levels, segment_names-append, All-reach,
}
use app_full.PanelCore.Router.{
  Backend, RouterState, list_active, record_history_snapshot, save_last_selected, set_selected,
  child_relative, push_child, enter,
}
use app_full.PanelCore.Router.Location.{
  Place, place, places, places-append, places-update_last, last_level-places, IsAt,
  list_active-IsAt, record_history_snapshot-IsAt,
}

-- The relative path of a child is that of the segments with the child behind them.
child_relative-build :
    (windows : Bool) (backend : Backend) (since : List PathSegment) (s : PathSegment)
    → All IsComponent (segment_names since)
    → IsComponent s.name
    → child_relative windows backend (build_segments_to_path windows since) s.name
      ≡ build_segments_to_path windows (since ++ s ∷ [])
unfolding child_relative build_segments_to_path join_segment_names
child_relative-build windows backend since s h k =
    join_with-split_joined (segment_names since) (s.name ∷ []) windows h (k, tt)
    ∙ ap (λ r. join_with r windows) (sym (segment_names-append since (s ∷ [])))

places-open_segment :
    (a : PathLevel) (fs : Fs) (name r r' : Str)
    → a.fs ≡ fs
    → r ≡ r'
    → place (open_segment a.fs name r) ≡ place (open_segment fs name r')
places-open_segment a fs name r r' e f = cc

module _ (windows : Bool) (backend : Backend) (target : List PathSegment) (s : PathSegment)
    (bn : Str) (base : Fs) (clean : All IsComponent (segment_names target))
    (fits : IsComponent s.name) where
  abbrev before : List Place
  before = places (build_levels windows target bn base)

  abbrev after : List Place
  after = places (build_levels windows (target ++ s ∷ []) bn base)

  -- The level that is active at the path of the segments, and where it stands.
  active-before :
      (p : NavPath)
      → places p.levels ≡ before
      → (a : PathLevel) × (active p ≡ some a)
        × StandsAt
            (reach windows base [] target).0
            (build_segments_to_path windows (reach windows base [] target).1)
            a
  unfolding active
  active-before p e =
      let (m, last, at) = last_level-build_levels windows target bn base in
      let (a, found, same) = last_level-places p.levels _ m e last in
      (
        a,
        found,
        record {
          fs_eq = ap (λ (q : Place). q.fs) same ∙ at.fs_eq;
          relative_eq = ap (λ (q : Place). q.relative_path) same ∙ at.relative_eq;
        },
      )

  push_child-after :
      (a : PathLevel) (t : RouterState)
      → places t.path.levels ≡ before
      → StandsAt
          (reach windows base [] target).0
          (build_segments_to_path windows (reach windows base [] target).1)
          a
      → IsAt after (push_child windows backend s.name a t)
  unfolding push_child push
  push_child-after a t e at =
      places-append t.path.levels _
      ∙ ap
          (λ r.
            r
            ++ place
                (open_segment a.fs s.name (child_relative windows backend a.relative_path s.name))
              ∷ [])
          e
      ∙ ap (λ q. before ++ q ∷ [])
          (places-open_segment a (reach windows base [] target).0 s.name _ _ at.fs_eq (
            ap (λ r. child_relative windows backend r s.name) at.relative_eq
            ∙ child_relative-build windows backend (reach windows base [] target).1 s
                (All-reach IsComponent windows base [] target tt clean) fits))
      ∙ sym (places-append (build_levels windows target bn base) _)
      ∙ ap places (sym (build_levels-append windows target s bn base))

  list_and_record :
      Keeps
        (IsAt after)
        (list_active windows backend >> modify (record_history_snapshot windows backend))
  list_and_record = search (keeps_rules, list_active-IsAt, record_history_snapshot-IsAt) depth 8

  selected-before :
      (t : RouterState) (parent : Str)
      → places t.path.levels ≡ before
      → IsAt before (
          set_selected windows backend
            (some s.name)
            (save_last_selected windows backend parent s.name t))
  unfolding set_selected save_last_selected update_active
  selected-before t parent e = places-update_last _ t.path.levels (λ l. refl) ∙ e

  -- Entering a child of a panel whose levels stand where the segments lead brings them where the
  -- segments with the child behind them lead, if all names are not empty and have no slash, however
  -- the listing of the child ends.
  pub places-enter :
      (t : RouterState)
      → places t.path.levels ≡ places (build_levels windows target bn base)
      → places (enter windows backend s.name t).1.path.levels
        ≡ places (build_levels windows (target ++ s ∷ []) bn base)
  unfolding enter
  places-enter t e =
      let chosen = selected-before t (absolute_path windows t.path) e in
      let (a, found, at) = active-before _ chosen in
      rw found (list_and_record.at _ (push_child-after a _ chosen at))
