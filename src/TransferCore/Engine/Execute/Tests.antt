-- ===== src/TransferCore/Engine/Execute/Tests.antt =====
-- A transfer that returns, at a concrete provider.
use app_full.Base.{All, ◌≡◌, refl, true, false, List, [], ◌∷◌, none}
use app_full.Base.Texts.{codes}
use app_full.Base.Outcome.{ok}
use app_full.TransferCore.{TransferItem, ErrorAction, skip}
use app_full.TransferCore.Engine.{World, start}
use app_full.TransferCore.Engine.Execute.{runs_locally, execute_transfer}
use app_full.TransferCore.Engine.Execute.Arrival.{IsSettled}
use app_full.TransferCore.Engine.Execute.Complete.{IsSettled-execute_transfer}
use app_full.TransferCore.Engine.Execute.Transfers.{Arrived}

abbrev willing : World
willing = record {
  is_cancelled = λ n. false;
  clock = λ n. n;
  read_file = λ n path. ([], ok (codes "text"));
  written = λ n. [];
  open_file = λ n path. ok (ok (codes "te") ∷ ok (codes "xt") ∷ []);
  perform = λ n c. ok tt;
}

abbrev items : List TransferItem
items =
    record {
      src_path = codes "/src/a";
      relative_path = codes "a";
      name = codes "a";
      is_dir = true;
      size = 0;
      permissions = none;
    }
    ∷ record {
      src_path = codes "/src/a/b";
      relative_path = codes "a/b";
      name = codes "b";
      is_dir = false;
      size = 4;
      permissions = none;
    }
    ∷ []

all_went_well :
    (execute_transfer willing true false items (codes "/dest") true (skip ∷ []) start).0 ≡ ok tt
unfolding execute_transfer app_full.TransferCore.Engine.Execute.copy_all
    app_full.TransferCore.Engine.Execute.copy_as runs_locally
    app_full.TransferCore.Engine.Execute.transfer_items
    app_full.TransferCore.Engine.Execute.transfer_item app_full.TransferCore.Engine.check_cancelled
    app_full.TransferCore.Engine.ask app_full.TransferCore.Engine.Execute.attempt_then
    app_full.TransferCore.Engine.Execute.settle app_full.TransferCore.Engine.Attempts.attempt_remote
    app_full.TransferCore.Engine.call app_full.TransferCore.Engine.log
    app_full.TransferCore.Engine.Attempts.send_file
    app_full.TransferCore.Engine.Attempts.read_remote app_full.TransferCore.Engine.report
    app_full.TransferCore.Engine.returned app_full.TransferCore.Engine.Attempts.deliver
    app_full.TransferCore.Engine.Attempts.write_remote app_full.TransferCore.Engine.finish
    app_full.TransferCore.Engine.send app_full.TransferCore.Engine.send_all start
    app_full.TransferCore.Engine.Execute.delete_sources
    app_full.TransferCore.Engine.Execute.paths_to_delete
    app_full.TransferCore.Engine.Execute.delete_moved app_full.TransferCore.Engine.Execute.is_kept
all_went_well = refl

IsSettled-execute_transfer_example :
    All
      (λ item.
        IsSettled
          (Arrived willing (runs_locally willing true false items))
          (codes "/dest")
          item
          (execute_transfer willing true false items (codes "/dest") true (skip ∷ []) start).1)
      items
IsSettled-execute_transfer_example =
    IsSettled-execute_transfer willing items (codes "/dest") (skip ∷ []) true false true
      all_went_well
