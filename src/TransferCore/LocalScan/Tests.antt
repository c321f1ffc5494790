-- ===== src/TransferCore/LocalScan/Tests.antt =====
-- Scans of a small tree of the local disk.
use app_full.Base.{false, List, [], ◌∷◌, none, some, if◌then◌else◌, ◌≡◌, refl}
use app_full.Base.Texts.{codes}
use app_full.TransferCore.{join_path}
use app_full.TransferCore.LocalScan.{
  Entries, unreadable, no_entries, file_entry, dir_entry, Selected, selected_file, selected_dir,
  Platform, scan_local,
}
use app_full.TransferCore.LocalScan.Found.{all_readable, all_found}
use app_full.TransferCore.LocalScan.Complete.{scan_local_lem}

abbrev platform : Platform
platform = record { join = join_path; is_cancelled = λ i. false; clock = λ i. 0 }

-- A file, and a directory with a file and a directory that is given.
abbrev items_with : Entries → List Selected
items_with below =
    selected_file (codes "a") 3 none
    ∷ selected_dir (codes "d") none
        (file_entry (codes "b") 5 none (dir_entry (codes "e") none below no_entries))
    ∷ []

-- One directory that cannot be read, and the scan returns no item at all.
test_unreadable : scan_local platform (λ i. false) (codes "/home") (items_with unreadable) ≡ some []
unfolding scan_local join_path
test_unreadable = refl

scan_local_lem_example :
    scan_local platform (λ i. false) (codes "/home") (items_with no_entries)
    ≡ some (
        if all_readable (items_with no_entries)
        then all_found platform.join (codes "/home") (items_with no_entries)
        else [])
scan_local_lem_example =
    scan_local_lem platform (λ i. false) (codes "/home") (items_with no_entries) (λ i. refl)
      (λ i. refl)
