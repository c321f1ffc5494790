-- ===== src/PanelCore/Router.antt =====
-- The state of a panel and its operations (src/panel-core/src/state.rs).
-- A provider is asked through `Backend`; the answer to a listing may differ from call to call, so
-- the state counts the listings in `listed`. A call of the `on_changed` callback is counted in
-- `changes`. The `RefCell`s of the source are the fields.
pub mod Typing
pub mod Places
pub mod Location
pub mod Entering
mod Tests
use app_full.Base.{
  ℕ, suc, ◌+◌, Bool, true, false, ◌&&◌, not, List, [], ◌∷◌, ◌++◌, Option, none, some, if◌then◌else◌,
  ◌==◌, ltb, leb, length, take, drop, map,
}
use app_full.Base.Texts.{Str, codes, str_eq, is_empty, starts_with}
use app_full.Base.Outcome.{
  AppError, Outcome, ok, err, panicked, dropped, Exec, ◌>>=◌, ◌>>◌, pure, raise, gets, expect,
  modify,
}
use app_full.FmCore.Path.{slash, is_drive_segment, split_joined}
use app_full.PanelCore.{PathSegment, join_segment_names, parse_path_to_segments}
use app_full.PanelCore.Nav
use app_full.PanelCore.Nav.{
  Fs, RemoteFileEntry, PathLevel, NavPath, new_level, root_path, active, update_active,
  absolute_path, open_segment, build_levels, from_levels,
}
use app_full.PanelCore.History
use app_full.PanelCore.History.{History}

-- How a listing ends: with its entries, with an error, or not before the panel stops to wait for it.
pub data Listing : Type 0 where
  listing : List RemoteFileEntry → Listing
  failed : AppError → Listing
  timed_out : Listing

-- The trait object behind a provider (fm_core::rpc::FileSystemRpc), as far as a panel asks it. The
-- number of a listing stands for the time at which it is made.
pub record Backend : Type 0 where
  pub list_dir : ℕ → Fs → Str → Listing
  pub display_name : Fs → Option Str
  pub is_root_fs : Fs → Bool

abbrev pub NameMap : Type 0
NameMap = List (Str × Str)

pub record RouterState : Type 0 where
  pub local_provider : Fs
  pub base_provider : Fs
  pub history : History
  pub last_selected : NameMap
  pub showing_selector : Bool
  pub resolving : Bool
  pub path : NavPath
  pub on_changed : Bool
  pub listed : ℕ
  pub changes : ℕ

-- `HashMap::insert` and `get`.
pub insert : Str → Str → NameMap → NameMap
insert k v [] = (k, v) ∷ []
insert k v ((j, w) ∷ m) = if str_eq j k then (j, v) ∷ m else (j, w) ∷ insert k v m

unfoldable pub lookup : Str → NameMap → Option Str
lookup k [] = none
lookup k ((j, w) ∷ m) = if str_eq j k then some w else lookup k m

abbrev pub Op : Type 0 → Type 0
Op A = Exec RouterState A

unwrap_or_default : Option Str → Str
unwrap_or_default none = []
unwrap_or_default (some s) = s

-- `.await` on a listing: a panel that stops to wait drops the future.
abbrev pub await_listing : Listing → Outcome (List RemoteFileEntry)
await_listing (listing entries) = ok entries
await_listing (failed e) = err e
await_listing timed_out = dropped

module _ (windows : Bool) (backend : Backend) where
  pub base_name : Fs → Str
  base_name fs = unwrap_or_default (backend.display_name fs)

  pub new : Fs → Fs → RouterState
  new base local = record {
    local_provider = local;
    base_provider = base;
    history = History.new;
    last_selected = [];
    showing_selector = false;
    resolving = false;
    path = Nav.new (new_level (base_name base) root_path base);
    on_changed = false;
    listed = 0;
    changes = 0;
  }

  pub set_on_changed : RouterState → RouterState
  set_on_changed s = record s { on_changed = true }

  pub notify_changed : RouterState → RouterState
  notify_changed s = if s.on_changed then record s { changes = suc s.changes } else s

  -- `fs.list_dir(rel).await`
  pub list_dir : Fs → Str → Op (List RemoteFileEntry)
  list_dir fs rel s =
      (await_listing (backend.list_dir s.listed fs rel), record s { listed = suc s.listed })

  pub store_entries : List RemoteFileEntry → RouterState → RouterState
  store_entries entries s = record s {
    path = update_active (λ l. record l { entries = entries; loaded = true }) s.path;
  }

  pub list_active : Op Unit
  list_active = do
    a ← gets (λ s. active s.path)
    level ← expect a
    entries ← list_dir level.fs level.relative_path
    modify (store_entries entries)
    modify notify_changed

  pub refresh : Op Unit
  refresh = list_active

  pub show_active : Op Unit
  show_active = do
    a ← gets (λ s. active s.path)
    level ← expect a
    if level.loaded then modify notify_changed else list_active

  pub record_history_snapshot : RouterState → RouterState
  record_history_snapshot s = record s { history = History.record_nav windows s.path s.history }

  pub go_up : Op Unit
  go_up s =
      let (popped, path) = Nav.pop s.path in
      let moved = record s { path = path } in
      if popped then (do show_active; modify record_history_snapshot) moved else (ok tt, moved)

  pub go_to_level : ℕ → Op Unit
  go_to_level idx = do
    modify (λ s. record s { path = Nav.truncate_to idx s.path })
    show_active
    modify record_history_snapshot

  pub save_last_selected : Str → Str → RouterState → RouterState
  save_last_selected path name s = record s { last_selected = insert path name s.last_selected }

  pub get_last_selected : Str → RouterState → Option Str
  get_last_selected path s = lookup path s.last_selected

  pub set_selected : Option Str → RouterState → RouterState
  set_selected name s = record s { path = update_active (λ l. record l { selected = name }) s.path }

  pub child_relative : Str → Str → Str
  child_relative parent_rel name = join_segment_names windows (split_joined parent_rel ++ name ∷ [])

  pub push_child : Str → PathLevel → RouterState → RouterState
  push_child name a s = record s {
    path = Nav.push (open_segment a.fs name (child_relative a.relative_path name)) s.path;
  }

  pub enter : Str → Op Unit
  enter name = do
    parent_abs ← gets (λ s. absolute_path windows s.path)
    modify (save_last_selected parent_abs name)
    modify (set_selected (some name))
    a ← gets (λ s. active s.path)
    level ← expect a
    modify (push_child name level)
    list_active
    modify record_history_snapshot
