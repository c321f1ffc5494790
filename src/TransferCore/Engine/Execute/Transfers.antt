-- ===== src/TransferCore/Engine/Execute/Transfers.antt =====
-- A whole transfer, between providers or on the local disk.
use app_full.Base.{◌≡◌, Bool, true, false, List, All}
use app_full.Base.Texts.{Str}
use app_full.Base.Outcome.{ok, err, panicked, dropped, modify}
use app_full.Base.Keeps.{Keeps, Keeps-bind}
use app_full.Base.Gives.{Gives, Gives-bind}
use app_full.TransferCore.{TransferItem, ErrorAction}
use app_full.TransferCore.Engine.{World, Transfer, Op, Ended, ask, start}
use app_full.TransferCore.Engine.Growth.{ask-Keeps}
use app_full.TransferCore.Engine.Attempts.{attempt_remote, attempt_local}
use app_full.TransferCore.Engine.Attempts.Growth.{attempt_remote-Keeps, attempt_local-Keeps}
use app_full.TransferCore.Engine.Attempts.Evidence.{
  HasArrived, HasArrivedAs-later, attempt_remote-Gives,
}
use app_full.TransferCore.Engine.Attempts.LocalEvidence.{
  IsHere, IsHereAs-later, attempt_local-Gives,
}
use app_full.TransferCore.Engine.Execute.{
  runs_locally, joined, joining, copy_locally, copy_as, copy_all, execute_transfer,
}
use app_full.TransferCore.Engine.Execute.Growth.{transfer_items-Keeps}
use app_full.TransferCore.Engine.Execute.Arrival.{Evidence, Lasts, IsSettled, transfer_items-Gives}
use app_full.TransferCore.Engine.Execute.Moves.{
  HasNoDeletes, HasNoDeletes-Grows, OnlyMoved, moved_behind,
}

module _ (world : World) where
  -- That an item has arrived: on the local disk, and between providers.
  abbrev pub Arrived : Bool → Evidence
  Arrived true path item d = IsHere world path item d
  Arrived false path item d = HasArrived world path item d

  pub Arrived-Lasts : (b : Bool) → Lasts (Arrived b)
  Arrived-Lasts true = record {
    by_call = λ path item c d h. IsHereAs-later world item.is_dir path item c d h;
  }
  Arrived-Lasts false = record {
    by_call = λ path item c d h. HasArrivedAs-later world item.is_dir path item c d h;
  }

  module _ (P : Transfer → Type 0) (m : Op Unit) where
    joined-On : (r : Ended Unit) → P r.1 → P (joined world r).1
    unfolding joined
    joined-On (ok u, s) h = h
    joined-On (err e, s) h = h
    joined-On (panicked, s) h = h
    joined-On (dropped, s) h = h

    joined-ok :
        (r : Ended Unit) (u : Unit)
        → (joined world r).0 ≡ ok u
        → (r.0 ≡ ok u → P r.1)
        → P (joined world r).1
    unfolding joined
    joined-ok (ok v, s) u e f = f e
    joined-ok (err x, s) u e f = absurd (cc)
    joined-ok (panicked, s) u e f = absurd (cc)
    joined-ok (dropped, s) u e f = absurd (cc)

    joining-Keeps : Keeps P m → Keeps P (joining world m)
    unfolding joining
    joining-Keeps k = record { at = λ s h. joined-On (m s) (k.at s h) }

    joining-Gives : Gives (λ u s. P s) m → Gives (λ u s. P s) (joining world m)
    unfolding joining
    joining-Gives g = record { at = λ s u e. joined-ok (m s) u e (g.at s u) }

  module _ (items : List TransferItem) (dest_parent : Str) (actions : List ErrorAction) where
    copy_locally-Keeps : Keeps HasNoDeletes (copy_locally world items dest_parent actions)
    unfolding copy_locally
    copy_locally-Keeps =
        Keeps-bind (ask world.clock) _ (ask-Keeps HasNoDeletes-Grows world.clock) λ t.
          Keeps-bind (modify (λ s. record s { timer = t })) _ (record { at = λ s h. h })
            λ u.
              transfer_items-Keeps HasNoDeletes-Grows world (attempt_local world) true dest_parent
                (attempt_local-Keeps HasNoDeletes-Grows world) items actions

    copy_locally-Gives :
        Gives
          (λ u s. All (λ item. IsSettled (Arrived true) dest_parent item s) items)
          (copy_locally world items dest_parent actions)
    unfolding copy_locally
    copy_locally-Gives = Gives-bind (ask world.clock) _ λ t.
        Gives-bind (modify (λ s. record s { timer = t })) _ λ u.
          transfer_items-Gives (Arrived true) dest_parent (Arrived-Lasts true) world
            (attempt_local world) true (λ P grows. attempt_local-Keeps grows world)
            (attempt_local-Gives world) items actions

    copy_as-Keeps : (b d : Bool) → Keeps HasNoDeletes (copy_as world b d items dest_parent actions)
    unfolding copy_as
    copy_as-Keeps true d = joining-Keeps _ _ copy_locally-Keeps
    copy_as-Keeps false d =
        transfer_items-Keeps HasNoDeletes-Grows world (attempt_remote world) d dest_parent
          (attempt_remote-Keeps HasNoDeletes-Grows world) items actions

    pub copy_as-Gives :
        (b d : Bool)
        → Gives
            (λ u s. All (λ item. IsSettled (Arrived b) dest_parent item s) items)
            (copy_as world b d items dest_parent actions)
    unfolding copy_as
    copy_as-Gives true d = joining-Gives _ _ copy_locally-Gives
    copy_as-Gives false d =
        transfer_items-Gives (Arrived false) dest_parent (Arrived-Lasts false) world
          (attempt_remote world) d (λ P grows. attempt_remote-Keeps grows world)
          (attempt_remote-Gives world) items actions

    -- However a transfer ends, it has asked for the deletion of a path at the source only if the path
    -- is the source of an item of the run which was not skipped, is no directory above a skipped item,
    -- and has arrived: a directory was created, and all bytes that were read of a file were written.
    pub OnlyMoved-execute_transfer :
        (src_is_local dest_is_local is_move : Bool)
        → OnlyMoved world
            (Arrived (runs_locally world src_is_local dest_is_local items))
            (Arrived-Lasts (runs_locally world src_is_local dest_is_local items))
            dest_parent
            items
            (execute_transfer world src_is_local dest_is_local items dest_parent is_move actions
              start).1
    unfolding execute_transfer copy_all start
    OnlyMoved-execute_transfer src_is_local dest_is_local is_move =
        let b = runs_locally world src_is_local dest_is_local items in
        moved_behind world (Arrived b) (Arrived-Lasts b) dest_parent items
          (copy_as world b dest_is_local items dest_parent actions) is_move
          (copy_as-Keeps b dest_is_local) (copy_as-Gives b dest_is_local) start tt
