-- ===== src/TransferCore/Engine/Execute.antt =====
-- The loops of `execute_transfer` (src/transfer-core/src/lib.rs).
mod Tests
pub mod Complete
pub mod Backslash
pub mod Transfers
pub mod Moves
pub mod Deleting
pub mod Arrival
pub mod Growth
use app_full.Base.{
  ℕ, suc, ◌+◌, ◌==◌, ◌%◌, ◌^◌, Bool, true, false, ◌&&◌, ◌||◌, not, List, [], ◌∷◌, ◌++◌, Option,
  none, some, if◌then◌else◌, length, take, any, reverse,
}
use app_full.Base.Texts.{Str, codes, str_eq, starts_with, rfind, contains}
use app_full.Base.Outcome.{
  AppError, cancelled, io, remote, config, other, Outcome, ok, err, panicked, dropped, Exec, ◌>>=◌,
  ◌>>◌, pure, raise, gets, modify,
}
use app_full.FmCore.Path.{slash}
use app_full.TransferCore.{
  TransferItem, CopyMessage, file_start, progress, file_done, file_skipped, ErrorAction, retry,
  skip, abort, join_path, throttled, ready,
}
use app_full.TransferCore.Engine.{
  Call, create_directory, write_file, create_dir_all, create_file, write_all, remove_file,
  set_permissions, delete_dest, delete_src, World, Transfer, Op, Ended, send, send_all, ask, log,
  call, ignored, call_ignored, check_cancelled, returned, report, finish,
}
use app_full.TransferCore.Engine.Attempts.{attempt_remote, attempt_local}

module _ (world : World) where
  -- A partial file of a provider that is not local is taken away.
  pub drop_partial : Bool → Str → TransferItem → Op Unit
  drop_partial dest_is_local dest_path item =
      if not dest_is_local && not item.is_dir
      then call_ignored world (delete_dest (dest_path ∷ []))
      else pure tt

  pub skip_item : Bool → Str → TransferItem → Op Unit
  skip_item dest_is_local dest_path item = do
    modify (λ s. record s { skipped = s.skipped ++ item.relative_path ∷ [] })
    drop_partial dest_is_local dest_path item
    if item.is_dir then pure tt else modify (send file_skipped)

  pub abort_item : {A : Type 0} → Bool → Str → TransferItem → Op A
  abort_item dest_is_local dest_path item = do
    drop_partial dest_is_local dest_path item
    raise cancelled

  -- What follows an attempt: `left` are the answers that remain after one that needs none.
  pub settle : {A : Type 0} → (AppError → Op A) → A → Ended Unit → Ended A
  settle failed left (ok u, s) = (ok left, s)
  settle failed left (err cancelled, s) = (err cancelled, s)
  settle failed left (err (io m), s) = failed (io m) s
  settle failed left (err (remote m), s) = failed (remote m) s
  settle failed left (err (config m), s) = failed (config m) s
  settle failed left (err (other m), s) = failed (other m) s
  settle failed left (panicked, s) = (panicked, s)
  settle failed left (dropped, s) = (dropped, s)

  -- The answer of the user to an error.
  pub answered :
      ErrorAction
      → Op (List ErrorAction)
      → List ErrorAction
      → Bool
      → Str
      → TransferItem
      → Op (List ErrorAction)
  answered retry again left dest_is_local dest_path item = again
  answered skip again left dest_is_local dest_path item = do
    skip_item dest_is_local dest_path item
    pure left
  answered abort again left dest_is_local dest_path item = abort_item dest_is_local dest_path item

  pub ask_user : TransferItem → AppError → Transfer → Transfer
  ask_user item e s = record s { asked = s.asked ++ (item.name, e) ∷ [] }

  pub failed_with : Op (List ErrorAction) → TransferItem → AppError → Op (List ErrorAction)
  failed_with next item e = modify (ask_user item e) >> next

  module _ (attempt : Str → TransferItem → Op Unit) (dest_is_local : Bool) (dest_parent : Str) where
    pub attempt_then :
        Op (List ErrorAction) → List ErrorAction → TransferItem → Op (List ErrorAction)
    attempt_then next left item s =
        settle (failed_with next item) left
          (attempt (join_path dest_parent item.relative_path) item s)

    -- The inner loop for one item; it returns the answers that are left.
    pub transfer_item : List ErrorAction → TransferItem → Op (List ErrorAction)
    transfer_item [] item =
        check_cancelled world
        >> attempt_then (abort_item dest_is_local (join_path dest_parent item.relative_path) item)
            [] item
    transfer_item (action ∷ actions) item =
        let again = transfer_item actions item in
        let dest_path = join_path dest_parent item.relative_path in
        check_cancelled world
        >> attempt_then (answered action again actions dest_is_local dest_path item)
            (action ∷ actions) item

    pub transfer_items : List TransferItem → List ErrorAction → Op Unit
    transfer_items [] actions = pure tt
    transfer_items (item ∷ items) actions = do
      left ← transfer_item actions item
      transfer_items items left

  -- What keeps the source of an item from being deleted.
  pub is_kept : List Str → TransferItem → Bool
  is_kept skipped item =
      contains skipped item.relative_path
      || item.is_dir && any (λ s. starts_with (item.relative_path ++ slash ∷ []) s) skipped

  pub paths_to_delete : List TransferItem → Op (List Str)
  paths_to_delete [] = pure []
  paths_to_delete (item ∷ items) = do
    check_cancelled world
    skipped ← gets (λ s. s.skipped)
    paths ← paths_to_delete items
    pure (if is_kept skipped item then paths else item.src_path ∷ paths)

  pub delete_moved : List Str → Op Unit
  delete_moved [] = pure tt
  delete_moved (path ∷ paths) = call world (delete_src (path ∷ paths))

  -- A panic of the blocking task is an error of the one that waits for it.
  joined : Ended Unit → Ended Unit
  joined (ok u, s) = (ok u, s)
  joined (err e, s) = (err e, s)
  joined (panicked, s) = (err (other (codes "Blocking task panicked")), s)
  joined (dropped, s) = (dropped, s)

  copy_locally : List TransferItem → Str → List ErrorAction → Op Unit
  copy_locally items dest_parent actions = do
    t ← ask world.clock
    modify (λ s. record s { timer = t })
    transfer_items (attempt_local world) true dest_parent items actions

  -- Whether the transfer runs on the local disk.
  pub runs_locally : Bool → Bool → List TransferItem → Bool
  runs_locally src_is_local dest_is_local items =
      src_is_local && (not (length items == 0) && dest_is_local)

  joining : Op Unit → Op Unit
  joining m s = joined (m s)

  -- The two branches: on the local disk, and between providers.
  pub copy_as : Bool → Bool → List TransferItem → Str → List ErrorAction → Op Unit
  copy_as local dest_is_local items dest_parent actions =
      if local
      then joining (copy_locally items dest_parent actions)
      else transfer_items (attempt_remote world) dest_is_local dest_parent items actions

  copy_all : Bool → Bool → List TransferItem → Str → List ErrorAction → Op Unit
  copy_all src_is_local dest_is_local items dest_parent actions =
      copy_as (runs_locally src_is_local dest_is_local items) dest_is_local items dest_parent
        actions

  pub delete_sources : List TransferItem → Op Unit
  delete_sources items = do paths ← paths_to_delete (reverse items); delete_moved paths

  pub execute_transfer : Bool → Bool → List TransferItem → Str → Bool → List ErrorAction → Op Unit
  execute_transfer src_is_local dest_is_local items dest_parent is_move actions = do
    copy_all src_is_local dest_is_local items dest_parent actions
    if is_move then delete_sources items else pure tt
