-- ===== src/PanelCore/Router/Typing/Resolving.antt =====
-- The flag that keeps typed paths from overlapping (src/panel-core/src/state.rs).
use app_full.Base.{
  ℕ, zero, suc, ◌+◌, List, ◌≡◌, refl, ap, ◌∙◌, Bool, true, false, Bool-cases, inl, inr, arith,
}
use app_full.Base.Texts.{Str}
use app_full.Base.Outcome.{Outcome, ok, err, panicked, dropped}
use app_full.Base.Keeps.{Keeps, Keeps-pure, Keeps-bind, Keeps-expect, Keeps-if, keeps_rules}
use app_full.PanelCore.{PathSegment}
use app_full.PanelCore.Nav.{Fs}
use app_full.PanelCore.Router.{
  Backend, RouterState, list_dir, list_active, store_entries, notify_changed,
  record_history_snapshot, save_last_selected,
}
use app_full.PanelCore.Router.Typing.{
  probe, valid_from, remember_selection, commit_path, navigate_segments, navigate_typed_inner,
  clear_resolving, navigate_typed,
}

-- The operation did not run to its end.
pub is_cut_off {ℓ} : {A : Type ℓ} → Outcome A → Bool
is_cut_off (ok a) = false
is_cut_off (err e) = false
is_cut_off panicked = true
is_cut_off dropped = true

abbrev IsResolving : RouterState → Type 0
IsResolving s = s.resolving ≡ true

module _ (windows : Bool) (backend : Backend) where
  list_dir-Keeps : (fs : Fs) (rel : Str) → Keeps IsResolving (list_dir windows backend fs rel)
  unfolding list_dir
  list_dir-Keeps fs rel = record { at = λ s h. h }

  notify_changed-keeps :
      (s : RouterState) → IsResolving s → IsResolving (notify_changed windows backend s)
  unfolding notify_changed
  notify_changed-keeps s h = elim (Bool-cases s.on_changed) [ inl e ↦ rw e h | inr e ↦ rw e h ]

  store_entries-keeps :
      (entries : _) (s : RouterState)
      → IsResolving s
      → IsResolving (store_entries windows backend entries s)
  unfolding store_entries
  store_entries-keeps entries s h = h

  list_active-Keeps : Keeps IsResolving (list_active windows backend)
  unfolding list_active
  list_active-Keeps =
      search (keeps_rules, list_dir-Keeps, store_entries-keeps, notify_changed-keeps) depth 12

  probe-Keeps : (fs : Fs) (rel : Str) → Keeps IsResolving (probe windows backend fs rel)
  unfolding probe
  probe-Keeps fs rel = record { at = λ s h. h }

  remember_selection-keeps :
      (s : RouterState) → IsResolving s → IsResolving (remember_selection windows backend s)
  unfolding remember_selection save_last_selected
  remember_selection-keeps s h = ground arith

  valid_from-Keeps :
      (left i : ℕ) (segs : List PathSegment) (base : Fs)
      → Keeps IsResolving (valid_from windows backend left i segs base)
  unfolding valid_from
  valid_from-Keeps zero i segs base = Keeps-pure i
  valid_from-Keeps (suc left) i segs base =
      let rest = valid_from-Keeps left (i + 1) segs base in
      Keeps-bind _ _ (Keeps-expect _) λ last.
        Keeps-bind _ _ (probe-Keeps last.fs last.relative_path)
          λ found. Keeps-if found _ _ rest (Keeps-pure i)

  commit_path-keeps :
      (segs : List PathSegment) (base : Fs) (s : RouterState)
      → IsResolving s
      → IsResolving (commit_path windows backend segs base s)
  unfolding commit_path
  commit_path-keeps segs base s h = h

  record_history_snapshot-keeps :
      (s : RouterState) → IsResolving s → IsResolving (record_history_snapshot windows backend s)
  unfolding record_history_snapshot
  record_history_snapshot-keeps s h = h

  navigate_segments-Keeps :
      (segs : List PathSegment) → Keeps IsResolving (navigate_segments windows backend segs)
  unfolding navigate_segments
  navigate_segments-Keeps segs =
      search
        (
          keeps_rules, remember_selection-keeps, valid_from-Keeps, commit_path-keeps,
          list_active-Keeps, record_history_snapshot-keeps,
        )
        depth 24

  navigate_typed_inner-Keeps :
      (input : Str) → Keeps IsResolving (navigate_typed_inner windows backend input)
  unfolding navigate_typed_inner
  navigate_typed_inner-Keeps input = search (keeps_rules, navigate_segments-Keeps)

  resolving-clear_resolving :
      (r : Outcome Bool) (s : RouterState)
      → IsResolving s
      → (clear_resolving windows backend (r, s)).1.resolving
        ≡ is_cut_off (clear_resolving windows backend (r, s)).0
  unfolding clear_resolving is_cut_off
  resolving-clear_resolving (ok b) s h = refl
  resolving-clear_resolving (err e) s h = refl
  resolving-clear_resolving panicked s h = h
  resolving-clear_resolving dropped s h = h

  -- When no typed path is being resolved, the flag is clear after `navigate_typed` exactly if the
  -- operation ran to its end, with a result or an error; after a panic or a drop it stays set.
  pub resolving-navigate_typed :
      (input : Str) (s : RouterState)
      → s.resolving ≡ false
      → (navigate_typed windows backend input s).1.resolving
        ≡ is_cut_off (navigate_typed windows backend input s).0
  unfolding navigate_typed
  resolving-navigate_typed input s h = rw h (
      resolving-clear_resolving _ _
        ((navigate_typed_inner-Keeps input).at (record s { resolving = true }) refl))

  navigate_typed_again :
      (input : Str) (s : RouterState)
      → IsResolving s
      → navigate_typed windows backend input s ≡ (ok true, s)
  unfolding navigate_typed
  navigate_typed_again input s h = rw h

  -- When no typed path is being resolved and the wait for a listing of a typed path ends by a drop,
  -- every later typed path is reported as found, and the panel does not move.
  pub navigate_typed_stuck :
      (input later : Str) (s : RouterState)
      → s.resolving ≡ false
      → (navigate_typed windows backend input s).0 ≡ dropped
      → navigate_typed windows backend later (navigate_typed windows backend input s).1
        ≡ (ok true, (navigate_typed windows backend input s).1)
  navigate_typed_stuck input later s h d =
      navigate_typed_again later _
        (resolving-navigate_typed input s h ∙ ap is_cut_off d ∙ (unfold is_cut_off in refl))
