-- ===== src/TransferCore/Engine/Execute/Moves.antt =====
-- Every deletion at the source that a transfer asks for is one of an item that has moved.
use app_full.Base.{
  ◌≡◌, refl, sym, subst, Bool, true, false, List, [], ◌∷◌, All, All-map, All-both, All-swap,
  All-reverse_aux, Any-self, reverse, if◌then◌else◌,
}
use app_full.Base.Texts.{Str}
use app_full.Base.Outcome.{Outcome, ok, err, panicked, dropped, ◌>>◌, pure}
use app_full.Base.Keeps.{Keeps}
use app_full.Base.Gives.{Gives, ended-bind}
use app_full.TransferCore.{TransferItem, join_path}
use app_full.TransferCore.Engine.{delete_src, World, Transfer, Op, call, log}
use app_full.TransferCore.Engine.Growth.{Grows, deleted_paths}
use app_full.TransferCore.Engine.Execute.{paths_to_delete, delete_moved, delete_sources}
use app_full.TransferCore.Engine.Execute.Arrival.{Evidence, Lasts, IsSettled}
use app_full.TransferCore.Engine.Execute.Deleting.{
  IsSpared, IsMoved, AreMoved, AreMoved-later, IsPart, paths_to_delete-IsSame,
  paths_to_delete-Gives,
}

-- Nothing has been deleted at the source.
abbrev pub HasNoDeletes : Transfer → Type 0
HasNoDeletes s = All (λ c. deleted_paths c ≡ []) s.tried

pub HasNoDeletes-Grows : Grows HasNoDeletes
HasNoDeletes-Grows = record {
  by_rest = λ s t a b c h. subst (λ l. All (λ c. deleted_paths c ≡ []) l) (sym a) h;
  by_try = λ c s e h. (e, h);
  by_done = λ c s e h. (e, h);
  by_skip = λ x s h. h;
}

module _ (world : World) (Q : Evidence) (lasts : Lasts Q) (dest_parent : Str)
    (items : List TransferItem) where
  -- All that was deleted at the source are the sources of moved items.
  abbrev pub OnlyMoved : Transfer → Type 0
  OnlyMoved s = All (λ c. AreMoved world Q dest_parent items (deleted_paths c) s) s.tried

  no_deletes-OnlyMoved : (s : Transfer) → HasNoDeletes s → OnlyMoved s
  no_deletes-OnlyMoved s h =
      All-map _ s.tried (λ c e. subst (λ ps. AreMoved world Q dest_parent items ps s) (sym e) tt) h

  deletion-OnlyMoved :
      (path : Str) (paths : List Str) (s t : Transfer)
      → t.tried ≡ delete_src (path ∷ paths) ∷ s.tried
      → HasNoDeletes s
      → AreMoved world Q dest_parent items (path ∷ paths) s
      → ((p : Str) (item : TransferItem)
          → IsMoved world Q dest_parent s p item
          → IsMoved world Q dest_parent t p item)
      → OnlyMoved t
  deletion-OnlyMoved path paths s t e h m f =
      subst (λ l. All (λ c. AreMoved world Q dest_parent items (deleted_paths c) t) l) (sym e)
        (
          AreMoved-later world Q dest_parent items (path ∷ paths) s t f m,
          All-map _ s.tried
              (λ c k. subst (λ ps. AreMoved world Q dest_parent items ps t) (sym k) tt) h,
        )

  same_logs-IsMoved :
      (s t : Transfer)
      → t.done ≡ s.done
      → t.skipped ≡ s.skipped
      → (p : Str) (item : TransferItem) → IsMoved world Q dest_parent s p item
      → IsMoved world Q dest_parent t p item
  same_logs-IsMoved s t d k p item m = record {
    source_eq = m.source_eq;
    spared = subst (λ ks. IsSpared ks item) (sym k) m.spared;
    arrived = subst (Q (join_path dest_parent item.relative_path) item) (sym d) m.arrived;
  }

  log-OnlyMoved :
      (path : Str) (paths : List Str) (o : Outcome Unit) (s : Transfer)
      → HasNoDeletes s
      → AreMoved world Q dest_parent items (path ∷ paths) s
      → OnlyMoved (log (delete_src (path ∷ paths)) o s).1
  unfolding log
  log-OnlyMoved path paths (ok u) s h m = deletion-OnlyMoved path paths s _ refl h m λ p item k.
      record {
        source_eq = k.source_eq;
        spared = k.spared;
        arrived = lasts.by_call _ item _ s.done k.arrived;
      }
  log-OnlyMoved path paths (err e) s h m =
      deletion-OnlyMoved path paths s _ refl h m (same_logs-IsMoved s _ refl refl)
  log-OnlyMoved path paths panicked s h m =
      deletion-OnlyMoved path paths s _ refl h m (same_logs-IsMoved s _ refl refl)
  log-OnlyMoved path paths dropped s h m =
      deletion-OnlyMoved path paths s _ refl h m (same_logs-IsMoved s _ refl refl)

  delete_moved-OnlyMoved :
      (paths : List Str) (s : Transfer)
      → HasNoDeletes s
      → AreMoved world Q dest_parent items paths s
      → OnlyMoved (delete_moved world paths s).1
  unfolding delete_moved call
  delete_moved-OnlyMoved [] s h m = no_deletes-OnlyMoved s h
  delete_moved-OnlyMoved (path ∷ paths) s h m = log-OnlyMoved path paths _ s h m

  settled-IsPart :
      (s : Transfer)
      → All (λ item. IsSettled Q dest_parent item s) items
      → All (IsPart world Q dest_parent items s) (reverse items)
  settled-IsPart s h =
      All-reverse_aux _ items []
        (All-both _ _ items h
          (All-swap _ items (λ path. Any-self (IsMoved world Q dest_parent s path) items)))
        tt

  delete_sources-OnlyMoved :
      (s : Transfer)
      → HasNoDeletes s
      → All (λ item. IsSettled Q dest_parent item s) items
      → OnlyMoved (delete_sources world items s).1
  unfolding delete_sources
  delete_sources-OnlyMoved s h settled =
      let same =
        (paths_to_delete-IsSame world Q dest_parent s (reverse items)).at s
          (record { tried_eq = refl; done_eq = refl; skipped_eq = refl }) in
      let t = (paths_to_delete world (reverse items) s).1 in
      let none = subst (λ l. All (λ c. deleted_paths c ≡ []) l) (sym same.tried_eq) h in
      ended-bind OnlyMoved (paths_to_delete world (reverse items)) (delete_moved world) s
        (no_deletes-OnlyMoved t none)
        λ paths e. delete_moved-OnlyMoved paths t none (
          AreMoved-later world Q dest_parent items paths s t
            (same_logs-IsMoved s t same.done_eq same.skipped_eq)
            (paths_to_delete-Gives world Q dest_parent items s (reverse items)
              (settled-IsPart s settled) s paths
              (record { tried_eq = refl; done_eq = refl; skipped_eq = refl }) e))

  -- What is deleted behind a copy that has settled every item is what has moved.
  pub moved_behind :
      (copy : Op Unit) (is_move : Bool)
      → Keeps HasNoDeletes copy
      → Gives (λ u s. All (λ item. IsSettled Q dest_parent item s) items) copy
      → (s : Transfer) → HasNoDeletes s
      → OnlyMoved ((copy >> (if is_move then delete_sources world items else pure tt)) s).1
  moved_behind copy true keeps gives s h =
      ended-bind OnlyMoved copy _ s (no_deletes-OnlyMoved _ (keeps.at s h))
        λ u e. delete_sources-OnlyMoved (copy s).1 (keeps.at s h) (gives.at s u e)
  moved_behind copy false keeps gives s h =
      ended-bind OnlyMoved copy _ s (no_deletes-OnlyMoved _ (keeps.at s h))
        λ u e. no_deletes-OnlyMoved _ (keeps.at s h)
