-- ===== src/PanelCore/Router/Typing.antt =====
-- A path that the user types (src/panel-core/src/state.rs).
pub mod Resolving
pub mod Normalizing
mod Tests
use app_full.Base.{
  ℕ, zero, suc, ◌+◌, ◌-◌, Bool, true, false, ◌&&◌, ◌||◌, List, [], ◌∷◌, ◌++◌, Option, none, some,
  if◌then◌else◌, ◌==◌, leb, length, take, map,
}
use app_full.Base.Texts.{Str, codes, str_eq, is_empty}
use app_full.Base.Trim.{trim}
use app_full.Base.Outcome.{
  AppError, Outcome, ok, err, panicked, dropped, ◌>>=◌, ◌>>◌, pure, gets, expect, modify,
}
use app_full.FmCore.Path.{is_drive_segment}
use app_full.PanelCore.{PathSegment, parse_path_to_segments}
use app_full.PanelCore.Nav.{
  Fs, PathLevel, NavPath, active, absolute_path, build_levels, from_levels, last_level,
}
use app_full.PanelCore.Router.{
  Listing, listing, failed, timed_out, Backend, RouterState, Op, base_name, list_active,
  record_history_snapshot, save_last_selected,
}

upper : ℕ → ℕ
upper c = if leb b'a' c && leb c b'z' then c - 32 else c

drop_last : List PathSegment → List PathSegment
drop_last [] = []
drop_last (s ∷ []) = []
drop_last (s ∷ t ∷ ss) = s ∷ drop_last (t ∷ ss)

no_segments : List PathSegment → Bool
no_segments [] = true
no_segments (s ∷ ss) = false

-- On Windows a drive letter at the start is written in upper case.
write_drive : Bool → List PathSegment → PathSegment → PathSegment
unfolding upper no_segments
write_drive windows out s =
    if windows && no_segments out && is_drive_segment s.name
    then record s { name = map upper s.name }
    else s

normalize_one : Bool → List PathSegment → PathSegment → List PathSegment
unfolding write_drive drop_last
normalize_one windows out s =
    if str_eq s.name (codes ".")
    then out
    else if str_eq s.name (codes "..")
    then drop_last out
    else out ++ write_drive windows out s ∷ []

normalize_loop : Bool → List PathSegment → List PathSegment → List PathSegment
normalize_loop windows out [] = out
normalize_loop windows out (s ∷ ss) = normalize_loop windows (normalize_one windows out s) ss

unfoldable pub normalize_typed_segments : Bool → List PathSegment → List PathSegment
unfolding normalize_loop normalize_one
normalize_typed_segments windows segs = normalize_loop windows [] segs

head_level : List PathLevel → Option PathLevel
head_level [] = none
head_level (l ∷ ls) = some l

module _ (windows : Bool) (backend : Backend) where
  -- `match fs.list_dir(rel).await`, where only success matters.
  probe : Fs → Str → Op Bool
  probe fs rel s = (
    elim (backend.list_dir s.listed fs rel) [
      | listing entries ↦ ok true
      | failed e ↦ ok false
      | timed_out ↦ dropped
    ],
    record s { listed = suc s.listed },
  )

  -- The rounds of the loop from `i` on; before round `i` the first `i` segments are valid.
  valid_from : ℕ → ℕ → List PathSegment → Fs → Op ℕ
  valid_from zero i segs base = pure i
  valid_from (suc left) i segs base =
      let rest = valid_from left (i + 1) segs base in
      do
        last ← expect (
            last_level
              (build_levels windows (take (i + 1) segs) (base_name windows backend base) base))
        found ← probe last.fs last.relative_path
        if found then rest else pure i

  pub remember_selection : RouterState → RouterState
  remember_selection s = elim (active s.path) [
    | none ↦ s
    | some l ↦ elim l.selected [
      | none ↦ s
      | some name ↦ save_last_selected windows backend (absolute_path windows s.path) name s
    ]
  ]

  commit_path : List PathSegment → Fs → RouterState → RouterState
  commit_path segs base s = record s {
    path =
        from_levels (build_levels windows segs (base_name windows backend base) base)
          (base_name windows backend base) base;
    showing_selector = false;
  }

  navigate_segments : List PathSegment → Op Bool
  navigate_segments segs = do
    first ← gets (λ s. head_level s.path.levels)
    f0 ← expect first
    local ← gets (λ s. s.local_provider)
    let walk_base = if backend.is_root_fs f0.fs then local else f0.fs
    modify remember_selection
    valid ← valid_from (length segs) 0 segs walk_base
    modify (commit_path (take valid segs) (if valid == 0 then f0.fs else walk_base))
    list_active windows backend
    modify (record_history_snapshot windows backend)
    pure (valid == length segs)

  pub navigate_typed_inner : Str → Op Bool
  navigate_typed_inner input =
      if is_empty (trim input)
      then pure true
      else navigate_segments
          (normalize_typed_segments windows (parse_path_to_segments windows (trim input)))

  -- `self.resolving.set(false)` behind the `await`.
  clear_resolving : Outcome Bool × RouterState → Outcome Bool × RouterState
  clear_resolving (ok b, s) = (ok b, record s { resolving = false })
  clear_resolving (err e, s) = (err e, record s { resolving = false })
  clear_resolving (panicked, s) = (panicked, s)
  clear_resolving (dropped, s) = (dropped, s)

  pub navigate_typed : Str → Op Bool
  navigate_typed input s =
      if s.resolving
      then (ok true, s)
      else clear_resolving (navigate_typed_inner input (record s { resolving = true }))
