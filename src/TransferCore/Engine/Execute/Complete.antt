-- ===== src/TransferCore/Engine/Execute/Complete.antt =====
-- What a transfer that returns has done.
use app_full.Base.{
  ◌≡◌, inl, inr, Bool, true, false, List, [], ◌∷◌, All, All-map, reverse, if◌then◌else◌,
}
use app_full.Base.Texts.{Str}
use app_full.Base.Outcome.{Outcome, ok, err, panicked, dropped, pure}
use app_full.Base.Keeps.{Keeps, Keeps-bind, Keeps-pure}
use app_full.Base.Gives.{Gives-then}
use app_full.TransferCore.{TransferItem, ErrorAction}
use app_full.TransferCore.Engine.{Call, World, Transfer, call, log, start}
use app_full.TransferCore.Engine.Execute.{
  runs_locally, paths_to_delete, delete_moved, delete_sources, execute_transfer, copy_as, copy_all,
}
use app_full.TransferCore.Engine.Execute.Growth.{paths_to_delete-Keeps}
use app_full.TransferCore.Engine.Execute.Arrival.{Evidence, Lasts, IsSettled, IsSettled-Grows}
use app_full.TransferCore.Engine.Execute.Transfers.{Arrived, Arrived-Lasts, copy_as-Gives}

module _ (world : World) (Q : Evidence) (lasts : Lasts Q) (dest_parent : Str)
    (item : TransferItem) where
  log-IsSettled :
      (c : Call) (o : Outcome Unit) (s : Transfer)
      → IsSettled Q dest_parent item s
      → IsSettled Q dest_parent item (log c o s).1
  unfolding log
  log-IsSettled c (ok u) s h = elim h [
    | inl k ↦ inl k
    | inr q ↦ inr (lasts.by_call _ item c s.done q)
  ]
  log-IsSettled c (err e) s h = h
  log-IsSettled c panicked s h = h
  log-IsSettled c dropped s h = h

  delete_moved-IsSettled :
      (paths : List Str) → Keeps (IsSettled Q dest_parent item) (delete_moved world paths)
  unfolding delete_moved call
  delete_moved-IsSettled [] = Keeps-pure tt
  delete_moved-IsSettled (path ∷ paths) = record { at = λ s h. log-IsSettled _ _ s h }

  delete_sources-IsSettled :
      (items : List TransferItem)
      → Keeps (IsSettled Q dest_parent item) (delete_sources world items)
  unfolding delete_sources
  delete_sources-IsSettled items =
      Keeps-bind (paths_to_delete world (reverse items)) (delete_moved world)
        (paths_to_delete-Keeps (IsSettled-Grows Q dest_parent lasts item) world (reverse items))
        delete_moved-IsSettled

  sources-IsSettled :
      (is_move : Bool) (items : List TransferItem) (s : Transfer)
      → IsSettled Q dest_parent item s
      → IsSettled Q dest_parent item ((if is_move then delete_sources world items else pure tt) s).1
  sources-IsSettled true items s h = (delete_sources-IsSettled items).at s h
  sources-IsSettled false items s h = h

module _ (world : World) (items : List TransferItem) (dest_parent : Str)
    (actions : List ErrorAction) where
  -- If a transfer returns with no error, then every item has arrived or is among the skipped: a
  -- directory was created, and all bytes that were read of a file were written.
  pub IsSettled-execute_transfer :
      (src_is_local dest_is_local is_move : Bool)
      → (execute_transfer world src_is_local dest_is_local items dest_parent is_move actions
          start).0
        ≡ ok tt
      → All
          (λ item.
            IsSettled
              (Arrived world (runs_locally world src_is_local dest_is_local items))
              dest_parent
              item
              (execute_transfer world src_is_local dest_is_local items dest_parent is_move actions
                start).1)
          items
  unfolding execute_transfer copy_all
  IsSettled-execute_transfer src_is_local dest_is_local is_move e =
      let b = runs_locally world src_is_local dest_is_local items in
      (Gives-then {Post = λ u s. All (λ item. IsSettled (Arrived world b) dest_parent item s) items}
          (copy_as world b dest_is_local items dest_parent actions)
          (λ u. if is_move then delete_sources world items else pure tt)
          (copy_as-Gives world items dest_parent actions b dest_is_local)
          (λ u s h v e'.
            All-map _ items
              (λ item k.
                sources-IsSettled world (Arrived world b) (Arrived-Lasts world b) dest_parent item
                  is_move items s k)
              h)).at
        start tt e
