-- ===== src/PanelCore/Nav/Levels.antt =====
-- The levels that `build_levels` makes (src/panel-core/src/nav.rs).
use app_full.Base.{
  ◌≡◌, refl, ap, sym, Bool, true, false, List, [], ◌∷◌, ◌++◌, some, if◌then◌else◌, Bool-cases, inl,
  inr, All, All-append, arith,
}
use app_full.Base.Texts.{Str}
use app_full.FmCore.Path.{join_with}
use app_full.PanelCore.{PathSegment, segment_names, join_segment_names, build_segments_to_path}
use app_full.PanelCore.Nav.{
  Fs, PathLevel, last_level, new_level, root_path, from_levels, level_names, absolute_path,
  is_archive, is_torrent, open_segment, is_mount, build_from, build_levels,
}

name-open_segment : (fs : Fs) (name rel : Str) → (open_segment fs name rel).name ≡ name
unfolding open_segment
name-open_segment fs name rel = ground arith

pub level_names-build_from :
    (windows : Bool) (fs : Fs) (since target : List PathSegment)
    → level_names (build_from windows fs since target) ≡ segment_names target
unfolding level_names build_from
level_names-build_from windows fs since [] = refl
level_names-build_from windows fs since (s ∷ ss) =
    let upto = since ++ s ∷ [] in
    let level = open_segment fs s.name (build_segments_to_path windows upto) in
    rw (
      name-open_segment fs s.name (build_segments_to_path windows upto),
      level_names-build_from windows level.fs (if is_mount s.name then [] else upto) ss,
    )

-- The path that is shown for levels that were built from segments is the path of the segments.
pub absolute_path-build_levels :
    (windows : Bool) (target : List PathSegment) (base_name : Str) (base : Fs)
    → absolute_path windows
        (from_levels (build_levels windows target base_name base) base_name base)
      ≡ build_segments_to_path windows target
unfolding absolute_path from_levels build_levels build_segments_to_path
absolute_path-build_levels windows target base_name base =
    ap (λ r. join_segment_names windows r) (level_names-build_from windows base [] target)

-- The provider behind the last level, and the segments behind the last mount.
pub reach : Bool → Fs → List PathSegment → List PathSegment → Fs × List PathSegment
reach windows fs since [] = (fs, since)
reach windows fs since (s ∷ ss) =
    let upto = since ++ s ∷ [] in
    let level = open_segment fs s.name (build_segments_to_path windows upto) in
    reach windows level.fs (if is_mount s.name then [] else upto) ss

build_from-append :
    (windows : Bool) (fs : Fs) (since target : List PathSegment) (s : PathSegment)
    → build_from windows fs since (target ++ s ∷ [])
      ≡ build_from windows fs since target
        ++ open_segment
            (reach windows fs since target).0
            s.name
            (build_segments_to_path windows ((reach windows fs since target).1 ++ s ∷ []))
          ∷ []
unfolding build_from reach
build_from-append windows fs since [] s = refl
build_from-append windows fs since (t ∷ ts) s =
    let upto = since ++ t ∷ [] in
    let level = open_segment fs t.name (build_segments_to_path windows upto) in
    ap (λ r. level ∷ r)
      (build_from-append windows level.fs (if is_mount t.name then [] else upto) ts s)

-- The fields of a level that say where it is.
pub record StandsAt (fs : Fs) (rel : Str) (l : PathLevel) : Type 0 where
  pub fs_eq : l.fs ≡ fs
  pub relative_eq : l.relative_path ≡ rel

pub build_root : (windows : Bool) → build_segments_to_path windows [] ≡ root_path
unfolding build_segments_to_path join_with
build_root windows = refl

StandsAt-open_segment :
    (windows : Bool) (fs : Fs) (name : Str) (upto : List PathSegment)
    → (open_segment fs name (build_segments_to_path windows upto)).relative_path
      ≡ build_segments_to_path windows (if is_mount name then [] else upto)
unfolding open_segment is_mount
StandsAt-open_segment windows fs name upto = elim (Bool-cases (is_archive name)) [
  | inl a ↦ rw a (sym (build_root windows))
  | inr a ↦ elim (Bool-cases (is_torrent name)) [
    | inl b ↦ rw (a, b) (sym (build_root windows))
    | inr b ↦ rw (a, b)
  ]
]

last_level-build_from :
    (windows : Bool) (fs : Fs) (since target : List PathSegment) (l : PathLevel)
    → StandsAt fs (build_segments_to_path windows since) l
    → (m : PathLevel) × (last_level (l ∷ build_from windows fs since target) ≡ some m)
      × StandsAt
          (reach windows fs since target).0
          (build_segments_to_path windows (reach windows fs since target).1)
          m
unfolding build_from reach last_level
last_level-build_from windows fs since [] l h = (l, refl, h)
last_level-build_from windows fs since (s ∷ ss) l h =
    let upto = since ++ s ∷ [] in
    let level = open_segment fs s.name (build_segments_to_path windows upto) in
    last_level-build_from windows level.fs (if is_mount s.name then [] else upto) ss level
      (record { fs_eq = refl; relative_eq = StandsAt-open_segment windows fs s.name upto })

-- Levels for one more segment: the same levels, and that of the segment at the reached provider.
pub build_levels-append :
    (windows : Bool) (target : List PathSegment) (s : PathSegment) (base_name : Str) (base : Fs)
    → build_levels windows (target ++ s ∷ []) base_name base
      ≡ build_levels windows target base_name base
        ++ open_segment
            (reach windows base [] target).0
            s.name
            (build_segments_to_path windows ((reach windows base [] target).1 ++ s ∷ []))
          ∷ []
unfolding build_levels
build_levels-append windows target s base_name base =
    ap (λ r. new_level base_name root_path base ∷ r) (build_from-append windows base [] target s)

pub last_level-build_levels :
    (windows : Bool) (target : List PathSegment) (base_name : Str) (base : Fs)
    → (m : PathLevel) × (last_level (build_levels windows target base_name base) ≡ some m)
      × StandsAt
          (reach windows base [] target).0
          (build_segments_to_path windows (reach windows base [] target).1)
          m
unfolding build_levels new_level
last_level-build_levels windows target base_name base =
    last_level-build_from windows base [] target (new_level base_name root_path base)
      (record { fs_eq = refl; relative_eq = sym (build_root windows) })

pub segment_names-append :
    (ss ts : List PathSegment) → segment_names (ss ++ ts) ≡ segment_names ss ++ segment_names ts
segment_names-append [] ts = refl
segment_names-append (s ∷ ss) ts = ap (λ r. s.name ∷ r) (segment_names-append ss ts)

-- What holds of the names of all segments holds of those behind the last mount.
pub All-reach :
    (P : Str → Type 0) (windows : Bool) (fs : Fs) (since target : List PathSegment)
    → All P (segment_names since)
    → All P (segment_names target)
    → All P (segment_names (reach windows fs since target).1)
unfolding reach
All-reach P windows fs since [] h k = h
All-reach P windows fs since (s ∷ ss) h (k, ks) =
    let upto = since ++ s ∷ [] in
    let level = open_segment fs s.name (build_segments_to_path windows upto) in
    All-reach P windows level.fs (if is_mount s.name then [] else upto) ss
      (pending (is_mount s.name)) ks
  where
    pending : (b : Bool) → All P (segment_names (if b then [] else since ++ s ∷ []))
    pending true = tt
    pending false =
        rw (segment_names-append since (s ∷ []))
          (All-append P (segment_names since) (s.name ∷ []) h (k, tt))
