-- ===== src/TransferCore/Scan.antt =====
-- The scan of a provider that is not local (`scan_items` of src/transfer-core/src/lib.rs).
-- The number of a question to the flag, the clock and the provider is `now`. The queue is the `Vec` of
-- the source, its last element first. The loop runs on fuel.
pub mod Places
mod Tests
pub mod Fuel
pub mod Placed
use app_full.Base.{
  ℕ, zero, suc, ◌+◌, ◌%◌, ◌^◌, Bool, true, false, List, [], ◌∷◌, ◌++◌, Option, none, some,
  if◌then◌else◌,
}
use app_full.Base.Texts.{Str}
use app_full.Base.Outcome.{ok, cancelled, Outcome, Exec, ◌>>=◌, ◌>>◌, pure, raise, modify}
use app_full.FmCore.Path.{slash}
use app_full.PanelCore.Nav.{RemoteFileEntry}
use app_full.TransferCore.{TransferItem, join_path, ready}

pub record Provider : Type 0 where
  pub is_cancelled : ℕ → Bool
  pub clock : ℕ → ℕ
  pub list_dir : ℕ → Str → Outcome {0} (List RemoteFileEntry)

-- A directory that is still to be listed.
pub record Pending : Type 0 where
  pub src_path : Str
  pub relative_path : Str
  pub name : Str
  pub permissions : Option ℕ

pub record Selected : Type 0 where
  pub name : Str
  pub is_dir : Bool
  pub size : ℕ
  pub permissions : Option ℕ

pub record Scan : Type 0 where
  pub now : ℕ
  pub timer : ℕ
  pub updates : List (ℕ × (ℕ × ℕ))
  pub items : List TransferItem
  pub queue : List Pending
  pub files : ℕ
  pub dirs : ℕ
  pub bytes : ℕ

abbrev pub Op : Type 0 → Type 0
Op A = Exec Scan A

pub nothing_scanned : Scan
nothing_scanned = record {
  now = 0;
  timer = 0;
  updates = [];
  items = [];
  queue = [];
  files = 0;
  dirs = 0;
  bytes = 0;
}

on_update : Scan → Scan
on_update s = record s { updates = s.updates ++ (s.files, (s.dirs, s.bytes)) ∷ [] }

count_file : ℕ → Scan → Scan
count_file size s = record s { files = suc s.files; bytes = (s.bytes + size) % 2 ^ 64 }

add_item : TransferItem → Scan → Scan
add_item item s = record s { items = s.items ++ item ∷ [] }

push : Pending → Scan → Scan
push p s = record s { queue = p ∷ s.queue }

ask : {A : Type 0} → (ℕ → A) → Op A
ask f s = (ok (f s.now), record s { now = suc s.now })

module _ (provider : Provider) (src_parent : Str) where
  -- A selected item: a directory waits, a file is an item.
  select : Selected → Scan → Scan
  select it s =
      if it.is_dir
      then push
          (record {
            src_path = join_path src_parent it.name;
            relative_path = it.name;
            name = it.name;
            permissions = it.permissions;
          })
          s
      else add_item
          (record {
            src_path = join_path src_parent it.name;
            relative_path = it.name;
            name = it.name;
            is_dir = false;
            size = it.size;
            permissions = it.permissions;
          })
          (count_file it.size s)

  select_all : List Selected → Scan → Scan
  select_all [] s = s
  select_all (it ∷ its) s = select_all its (select it s)

  -- `if throttle.ready() { on_update(..) }`
  maybe_update_at : ℕ → Scan → Scan
  maybe_update_at t s =
      let (go, kept) = ready s.timer t in
      let ticked : Scan = record s { timer = kept } in if go then on_update ticked else ticked

  maybe_update : Op Unit
  maybe_update = ask provider.clock >>= λ t. modify (maybe_update_at t)

  check_cancelled : Op Unit
  check_cancelled = ask provider.is_cancelled >>= λ c. if c then raise cancelled else pure tt

  list_dir : Str → Op (List RemoteFileEntry)
  list_dir path s = (provider.list_dir s.now path, record s { now = suc s.now })

  child_of : Pending → RemoteFileEntry → Pending
  child_of dir entry = record {
    src_path = join_path dir.src_path entry.name;
    relative_path = dir.relative_path ++ slash ∷ entry.name;
    name = entry.name;
    permissions = entry.permissions;
  }

  file_of : Pending → RemoteFileEntry → TransferItem
  file_of dir entry = record {
    src_path = join_path dir.src_path entry.name;
    relative_path = dir.relative_path ++ slash ∷ entry.name;
    name = entry.name;
    is_dir = false;
    size = entry.size;
    permissions = entry.permissions;
  }

  dir_of : Pending → TransferItem
  dir_of dir = record {
    src_path = dir.src_path;
    relative_path = dir.relative_path;
    name = dir.name;
    is_dir = true;
    size = 0;
    permissions = dir.permissions;
  }

  scan_file : Pending → RemoteFileEntry → Op Unit
  scan_file dir entry = do
    modify (count_file entry.size)
    maybe_update
    modify (add_item (file_of dir entry))

  scan_entry : Pending → RemoteFileEntry → Op Unit
  scan_entry dir entry =
      if entry.is_dir then modify (push (child_of dir entry)) else scan_file dir entry

  scan_entries : Pending → List RemoteFileEntry → Op Unit
  scan_entries dir [] = pure tt
  scan_entries dir (entry ∷ entries) =
      let rest = scan_entries dir entries in scan_entry dir entry >> rest

  -- What a round does in front of the listing.
  prepare : Pending → Op Unit
  prepare dir = do
    check_cancelled
    modify (λ s. record s { dirs = suc s.dirs })
    maybe_update
    modify (add_item (dir_of dir))

  -- A round of the loop with the directory that was popped.
  scan_dir : Pending → Op Unit
  scan_dir dir = prepare dir >> (list_dir dir.src_path >>= scan_entries dir)

  -- `while let Some(dir) = queue.pop()`, with the rounds that follow.
  scan_next : Op Bool → List Pending → Op Bool
  scan_next next [] s = (ok true, on_update s)
  scan_next next (dir ∷ dirs) s = (scan_dir dir >> next) (record s { queue = dirs })

  -- Whether the queue is empty within so many rounds, the last one counted.
  pub scan_loop : ℕ → Op Bool
  scan_loop zero s = (ok false, s)
  scan_loop (suc left) s = scan_next (scan_loop left) s.queue s

  pub scan_items : ℕ → List Selected → Op Bool
  scan_items fuel selected_items = do
    t ← ask provider.clock
    modify (λ s. record s { timer = t })
    modify (select_all selected_items)
    modify on_update
    scan_loop fuel
