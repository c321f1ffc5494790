-- ===== src/PanelCore/Nav.antt =====
-- The levels of a panel's path (src/panel-core/src/nav.rs).
pub mod Levels
use app_full.Base.{
  ℕ, suc, ◌+◌, ◌-◌, Bool, true, false, ◌||◌, ◌&&◌, List, [], ◌∷◌, ◌++◌, Option, none, some,
  if◌then◌else◌, ltb, leb, length, take, drop, map,
}
use app_full.Base.Texts.{Str, codes, ends_with}
use app_full.FmCore.Path.{slash}
use app_full.PanelCore.{PathSegment, join_segment_names, build_segments_to_path}

-- A provider behind an `Rc`: one that was made elsewhere, or what is mounted over a file of another.
pub data Fs : Type 0 where
  provider : ℕ → Fs
  archive : Str → Fs → Fs
  torrent : Str → Fs → Fs

pub record RemoteFileEntry : Type 0 where
  pub name : Str
  pub is_dir : Bool
  pub size : ℕ
  pub modified : ℕ
  pub permissions : Option ℕ
  pub extra : List Str

pub record PathLevel : Type 0 where
  pub name : Str
  pub relative_path : Str
  pub fs : Fs
  pub entries : List RemoteFileEntry
  pub selected : Option Str
  pub loaded : Bool

unfoldable pub new_level : Str → Str → Fs → PathLevel
new_level name relative_path fs = record {
  name = name;
  relative_path = relative_path;
  fs = fs;
  entries = [];
  selected = none;
  loaded = false;
}

pub record NavPath : Type 0 where
  pub levels : List PathLevel

abbrev pub root_path : Str
root_path = slash ∷ []

unfoldable pub new : PathLevel → NavPath
new root = record { levels = root ∷ [] }

-- `base.display_name().unwrap_or_default()` is handed in as `base_name`.
unfoldable pub from_levels : List PathLevel → Str → Fs → NavPath
unfolding new new_level
from_levels [] base_name base = new (new_level base_name root_path base)
from_levels (l ∷ ls) base_name base = record { levels = l ∷ ls }

unfoldable pub last_level : List PathLevel → Option PathLevel
last_level [] = none
last_level (l ∷ []) = some l
last_level (l ∷ m ∷ ls) = last_level (m ∷ ls)

-- `none` is the panic of `expect`.
unfoldable pub active : NavPath → Option PathLevel
unfolding last_level
active p = last_level p.levels

unfoldable pub update_last : (PathLevel → PathLevel) → List PathLevel → List PathLevel
update_last f [] = []
update_last f (l ∷ []) = f l ∷ []
update_last f (l ∷ m ∷ ls) = l ∷ update_last f (m ∷ ls)

-- A write through `active_mut`.
unfoldable pub update_active : (PathLevel → PathLevel) → NavPath → NavPath
unfolding update_last
update_active f p = record { levels = update_last f p.levels }

unfoldable pub depth : NavPath → ℕ
depth p = length p.levels

unfoldable pub push : PathLevel → NavPath → NavPath
push level p = record { levels = p.levels ++ level ∷ [] }

unfoldable pub pop : NavPath → Bool × NavPath
pop p =
    if ltb 1 (length p.levels)
    then (true, record { levels = take (length p.levels - 1) p.levels })
    else (false, p)

unfoldable pub truncate_to : ℕ → NavPath → NavPath
truncate_to idx p =
    if ltb (idx + 1) (length p.levels) then record { levels = take (idx + 1) p.levels } else p

unfoldable pub level_names : List PathLevel → List Str
level_names [] = []
level_names (l ∷ ls) = l.name ∷ level_names ls

-- `self.levels[1..]` panics without a level, which a path always has.
unfoldable pub absolute_path : Bool → NavPath → Str
unfolding level_names
absolute_path windows p = join_segment_names windows (level_names (drop 1 p.levels))

-- Lower case of the ASCII letters. The other letters whose lower case `to_lowercase` gives do not
-- matter to the tests below: none of their lower cases ends in one of the suffixes.
lower : ℕ → ℕ
lower c = if leb b'A' c && leb c b'Z' then c + 32 else c

unfoldable pub is_torrent : Str → Bool
unfolding lower ends_with
is_torrent name = ends_with (codes ".torrent") (map lower name)

unfoldable pub is_archive : Str → Bool
unfolding lower ends_with
is_archive name =
    let n = map lower name in
    ends_with (codes ".zip") n
    || ends_with (codes ".tar") n
    || ends_with (codes ".tar.gz") n
    || ends_with (codes ".tgz") n
    || ends_with (codes ".tar.bz2") n
    || ends_with (codes ".tbz2") n
    || ends_with (codes ".tbz") n

-- The level of one segment behind those of its provider: an archive or a torrent is mounted.
unfoldable pub open_segment : Fs → Str → Str → PathLevel
unfolding new_level
open_segment current_fs name relative =
    if is_archive name
    then new_level name root_path (archive relative current_fs)
    else if is_torrent name
    then new_level name root_path (torrent relative current_fs)
    else new_level name relative current_fs

is_mount : Str → Bool
is_mount name = is_archive name || is_torrent name

-- The loop of `build_levels`; `since` is `target[fs_start..i]`.
pub build_from : Bool → Fs → List PathSegment → List PathSegment → List PathLevel
build_from windows current_fs since [] = []
build_from windows current_fs since (s ∷ ss) =
    let upto = since ++ s ∷ [] in
    let level = open_segment current_fs s.name (build_segments_to_path windows upto) in
    level ∷ build_from windows level.fs (if is_mount s.name then [] else upto) ss

unfoldable pub build_levels : Bool → List PathSegment → Str → Fs → List PathLevel
unfolding new_level open_segment is_mount build_from
build_levels windows target base_name base =
    new_level base_name root_path base ∷ build_from windows base [] target
