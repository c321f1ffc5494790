-- ===== src/TransferCore/Tests.antt =====
-- Transfers at concrete providers.
use app_full.Base.{◌≡◌, refl, true, false, List, [], ◌∷◌, Option, none, some, if◌then◌else◌, arith}
use app_full.Base.Texts.{Str, codes, str_eq}
use app_full.Base.Outcome.{ok}
use app_full.TransferCore.{TransferItem, skip, retarget}
use app_full.TransferCore.Engine.{World, start}
use app_full.TransferCore.Engine.Execute.{runs_locally, is_kept, execute_transfer}
use app_full.TransferCore.Engine.Execute.Backslash.{is_kept-backslash}
use app_full.TransferCore.Paths.{child_path, relative_path-retarget}
use app_full.TransferCore.Engine.Execute.Moves.{OnlyMoved}
use app_full.TransferCore.Engine.Execute.Transfers.{
  Arrived, Arrived-Lasts, OnlyMoved-execute_transfer,
}

abbrev willing : World
willing = record {
  is_cancelled = λ n. false;
  clock = λ n. n;
  read_file = λ n path. ([], ok (codes "text"));
  written = λ n. [];
  open_file = λ n path. ok (ok (codes "te") ∷ ok (codes "xt") ∷ []);
  perform = λ n c. ok tt;
}

abbrev items : List TransferItem
items =
    record {
      src_path = codes "/src/a";
      relative_path = codes "a";
      name = codes "a";
      is_dir = true;
      size = 0;
      permissions = none;
    }
    ∷ record {
      src_path = codes "/src/a/b";
      relative_path = codes "a/b";
      name = codes "b";
      is_dir = false;
      size = 4;
      permissions = none;
    }
    ∷ []

OnlyMoved-execute_transfer_example :
    OnlyMoved willing
      (Arrived willing (runs_locally willing true false items))
      (Arrived-Lasts willing (runs_locally willing true false items))
      (codes "/dest")
      items
      (execute_transfer willing true false items (codes "/dest") true (skip ∷ []) start).1
OnlyMoved-execute_transfer_example =
    OnlyMoved-execute_transfer willing items (codes "/dest") (skip ∷ []) true false true

abbrev folder : TransferItem
folder = record {
  src_path = codes "C:\\src\\a";
  relative_path = codes "a";
  name = codes "a";
  is_dir = true;
  size = 0;
  permissions = none;
}

abbrev file_at : Str → TransferItem
file_at path = record {
  src_path = codes "C:\\src\\a\\b";
  relative_path = path;
  name = codes "b";
  is_dir = false;
  size = 4;
  permissions = none;
}

abbrev renamed : Str → Option Str
renamed name = if str_eq name (codes "a") then some (codes "a (1)") else none

relative_path-retarget_example :
    (retarget renamed (file_at (codes "a/b"))).relative_path
    ≡ child_path (retarget renamed folder).relative_path (codes "b")
relative_path-retarget_example =
    relative_path-retarget renamed folder (file_at (codes "a/b")) (codes "b") refl

not_renamed : renamed (codes "a\\b") ≡ none
unfolding str_eq
not_renamed = refl

is_kept-backslash_example :
    (retarget renamed (file_at (codes "a\\b")) ≡ file_at (codes "a\\b"))
    × (is_kept willing (codes "a\\b" ∷ []) folder ≡ false)
is_kept-backslash_example =
    is_kept-backslash willing renamed folder (file_at (codes "a\\b")) (codes "b") refl
      (omega arith, (omega arith, (omega arith, tt))) not_renamed
