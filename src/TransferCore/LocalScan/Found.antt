-- ===== src/TransferCore/LocalScan/Found.antt =====
-- The items that are on the disk, in the order of the scan, as a function of the tree alone.
use app_full.Base.{Bool, true, false, ◌&&◌, List, [], ◌∷◌, ◌++◌, if◌then◌else◌}
use app_full.Base.Texts.{Str}
use app_full.TransferCore.{TransferItem}
use app_full.TransferCore.LocalScan.{
  Entries, unreadable, no_entries, bad_entry, file_entry, dir_entry, Selected, selected_file,
  selected_dir, local_item,
}

-- Every directory and entry can be read.
unfoldable pub is_readable : Entries → Bool
is_readable unreadable = false
is_readable no_entries = true
is_readable bad_entry = false
is_readable (file_entry name size mode rest) = is_readable rest
is_readable (dir_entry name mode below rest) = is_readable below && is_readable rest

-- The items in front of the first entry that cannot be read: a directory, then what is in it.
unfoldable pub found : (Str → Str → Str) → Str → Str → Entries → List TransferItem
unfolding local_item
found join src rel unreadable = []
found join src rel no_entries = []
found join src rel bad_entry = []
found join src rel (file_entry name size mode rest) =
    local_item (join src name) (join rel name) name false size mode ∷ found join src rel rest
found join src rel (dir_entry name mode below rest) =
    local_item (join src name) (join rel name) name true 0 mode
    ∷ (found join (join src name) (join rel name) below
        ++ (if is_readable below then found join src rel rest else []))

-- The same of the selected items.
unfoldable pub all_readable : List Selected → Bool
unfolding is_readable
all_readable [] = true
all_readable (selected_file name size mode ∷ rest) = all_readable rest
all_readable (selected_dir name mode below ∷ rest) = is_readable below && all_readable rest

unfoldable pub all_found : (Str → Str → Str) → Str → List Selected → List TransferItem
unfolding local_item is_readable found
all_found join parent [] = []
all_found join parent (selected_file name size mode ∷ rest) =
    local_item (join parent name) name name false size mode ∷ all_found join parent rest
all_found join parent (selected_dir name mode below ∷ rest) =
    local_item (join parent name) name name true 0 mode
    ∷ (found join (join parent name) name below
        ++ (if is_readable below then all_found join parent rest else []))
