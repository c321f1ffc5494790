-- ===== src/TransferCore/Engine/Execute/Growth.antt =====
-- The loops of a transfer let the logs grow only by calls that delete nothing at the source.
use app_full.Base.{refl, Bool, List, [], ◌∷◌, ◌++◌, if◌then◌else◌}
use app_full.Base.Texts.{Str}
use app_full.Base.Outcome.{
  AppError, cancelled, io, remote, config, other, ok, err, panicked, dropped, modify, pure,
}
use app_full.Base.Keeps.{Keeps, Keeps-bind, Keeps-pure, Keeps-gets}
use app_full.TransferCore.{TransferItem, file_skipped, ErrorAction, retry, skip, abort}
use app_full.TransferCore.Engine.{World, Transfer, Op, Ended, check_cancelled, send}
use app_full.TransferCore.Engine.Growth.{Grows, check_cancelled-Keeps, growth_rules}
use app_full.TransferCore.Engine.Execute.{
  drop_partial, skip_item, abort_item, settle, answered, ask_user, failed_with, attempt_then,
  transfer_item, transfer_items, is_kept, paths_to_delete,
}

module _ {P : Transfer → Type 0} (grows : Grows P) (world : World) where
  pub drop_partial-Keeps :
      (local : Bool) (path : Str) (item : TransferItem)
      → Keeps P (drop_partial world local path item)
  unfolding drop_partial
  drop_partial-Keeps local path item = search growth_rules depth 8

  pub marked-Keeps :
      (item : TransferItem) → Keeps P (if item.is_dir then pure tt else modify (send file_skipped))
  marked-Keeps item = search growth_rules depth 8

  mark_skipped-Keeps :
      (item : TransferItem)
      → Keeps P (modify (λ s. record s { skipped = s.skipped ++ item.relative_path ∷ [] }))
  mark_skipped-Keeps item = record { at = λ s h. grows.by_skip _ s h }

  pub skip_item-Keeps :
      (local : Bool) (path : Str) (item : TransferItem) → Keeps P (skip_item world local path item)
  unfolding skip_item
  skip_item-Keeps local path item =
      search (growth_rules, drop_partial-Keeps, mark_skipped-Keeps) depth 16

  abort_item-Keeps :
      {A : Type 0}
      → (local : Bool) (path : Str) (item : TransferItem)
      → Keeps P (abort_item world {A = A} local path item)
  unfolding abort_item
  abort_item-Keeps local path item = search (growth_rules, drop_partial-Keeps) depth 8

  settle-On :
      {A : Type 0}
      → (failed : AppError → Op A) (left : A) (r : Ended Unit)
      → ((e : AppError) → Keeps P (failed e))
      → P r.1
      → P (settle world failed left r).1
  unfolding settle
  settle-On failed left (ok u, s) kf h = h
  settle-On failed left (err cancelled, s) kf h = h
  settle-On failed left (err (io m), s) kf h = (kf (io m)).at s h
  settle-On failed left (err (remote m), s) kf h = (kf (remote m)).at s h
  settle-On failed left (err (config m), s) kf h = (kf (config m)).at s h
  settle-On failed left (err (other m), s) kf h = (kf (other m)).at s h
  settle-On failed left (panicked, s) kf h = h
  settle-On failed left (dropped, s) kf h = h

  answered-Keeps :
      (action : ErrorAction) (again : Op (List ErrorAction)) (left : List ErrorAction)
      (local : Bool) (path : Str) (item : TransferItem)
      → Keeps P again
      → Keeps P (answered world action again left local path item)
  unfolding answered
  answered-Keeps retry again left local path item k = k
  answered-Keeps skip again left local path item k = search (growth_rules, skip_item-Keeps) depth 8
  answered-Keeps abort again left local path item k = abort_item-Keeps local path item

  ask_user-Keeps : (item : TransferItem) (e : AppError) → Keeps P (modify (ask_user world item e))
  unfolding ask_user
  ask_user-Keeps item e = record { at = λ s h. grows.by_rest s _ refl refl refl h }

  failed_with-Keeps :
      (next : Op (List ErrorAction)) (item : TransferItem)
      → Keeps P next
      → (e : AppError) → Keeps P (failed_with world next item e)
  unfolding failed_with
  failed_with-Keeps next item k e = search (growth_rules, ask_user-Keeps) depth 8

  module _ (attempt : Str → TransferItem → Op Unit) (local : Bool) (dest_parent : Str)
      (attempt-Keeps : (path : Str) (item : TransferItem) → Keeps P (attempt path item)) where
    attempt_then-Keeps :
        (next : Op (List ErrorAction)) (left : List ErrorAction) (item : TransferItem)
        → Keeps P next
        → Keeps P (attempt_then world attempt local dest_parent next left item)
    unfolding attempt_then
    attempt_then-Keeps next left item k = record {
      at = λ s h. settle-On _ _ _ (failed_with-Keeps next item k) ((attempt-Keeps _ item).at s h);
    }

    pub transfer_item-Keeps :
        (actions : List ErrorAction) (item : TransferItem)
        → Keeps P (transfer_item world attempt local dest_parent actions item)
    unfolding transfer_item
    transfer_item-Keeps [] item =
        search (growth_rules, attempt_then-Keeps, abort_item-Keeps) depth 8
    transfer_item-Keeps (action ∷ actions) item =
        Keeps-bind (check_cancelled world) _ (check_cancelled-Keeps grows world) λ u.
          attempt_then-Keeps _ _ item
            (answered-Keeps action _ actions local _ item (transfer_item-Keeps actions item))

    pub transfer_items-Keeps :
        (items : List TransferItem) (actions : List ErrorAction)
        → Keeps P (transfer_items world attempt local dest_parent items actions)
    unfolding transfer_items
    transfer_items-Keeps [] actions = Keeps-pure _
    transfer_items-Keeps (item ∷ items) actions =
        Keeps-bind _ _ (transfer_item-Keeps actions item) λ left. transfer_items-Keeps items left

  pub paths_to_delete-Keeps : (items : List TransferItem) → Keeps P (paths_to_delete world items)
  unfolding paths_to_delete
  paths_to_delete-Keeps [] = Keeps-pure _
  paths_to_delete-Keeps (item ∷ items) = Keeps-bind _ _ (check_cancelled-Keeps grows world) λ u.
      Keeps-bind _ _ (Keeps-gets (λ (s : Transfer). s.skipped)) λ skipped.
        Keeps-bind _ _ (paths_to_delete-Keeps items)
          λ paths. Keeps-pure (if is_kept world skipped item then paths else item.src_path ∷ paths)
