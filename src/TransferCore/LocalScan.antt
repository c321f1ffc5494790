-- ===== src/TransferCore/LocalScan.antt =====
-- The scan of the local disk (the first branch of `scan_items` of src/transfer-core/src/lib.rs): a
-- thread that scans and sends messages, and the loop that receives them. The disk is the tree of the
-- answers that the thread gets, so that every scan that ends is one of these; `now` is the number of
-- a question to the flag or the clock. `join` is `Path::join` of the platform.
pub mod Found
pub mod Complete
mod Tests
use app_full.Base.{
  ℕ, zero, suc, ◌+◌, ◌%◌, ◌^◌, Bool, true, false, List, [], ◌∷◌, ◌++◌, Option, none, some,
  if◌then◌else◌, map,
}
use app_full.Base.Texts.{Str}
use app_full.TransferCore.{TransferItem, ready}

-- What the loop over `read_dir` meets: that the directory or an entry cannot be read, the end, a file
-- with its size and mode, or a directory with its mode and its own entries.
pub data Entries : Type 0 where
  unreadable : Entries
  no_entries : Entries
  bad_entry : Entries
  file_entry : Str → ℕ → Option ℕ → Entries → Entries
  dir_entry : Str → Option ℕ → Entries → Entries → Entries

-- A selected item; a directory has its mode and its entries on the disk.
pub data Selected : Type 0 where
  selected_file : Str → ℕ → Option ℕ → Selected
  selected_dir : Str → Option ℕ → Entries → Selected

pub data ScanMessage : Type 0 where
  progress : ℕ → ℕ → ℕ → ScanMessage
  done : List TransferItem → ScanMessage

pub record Platform : Type 0 where
  pub join : Str → Str → Str
  pub is_cancelled : ℕ → Bool
  pub clock : ℕ → ℕ

pub record LocalScanner : Type 0 where
  pub now : ℕ
  pub sent : List ScanMessage
  pub items : List TransferItem
  pub total_files : ℕ
  pub total_dirs : ℕ
  pub total_bytes : ℕ
  pub last_update : ℕ

-- Whether the operation succeeded.
abbrev pub Op : Type 0
Op = LocalScanner → Bool × LocalScanner

and_then : Op → Op → Op
and_then m n s = let (ok, t) = m s in if ok then n t else (false, t)

push_item : TransferItem → LocalScanner → LocalScanner
push_item item s = record s { items = s.items ++ item ∷ [] }

count_file : ℕ → LocalScanner → LocalScanner
count_file size s = record s {
  total_files = suc s.total_files;
  total_bytes = (s.total_bytes + size) % 2 ^ 64;
}

count_dir : LocalScanner → LocalScanner
count_dir s = record s { total_dirs = suc s.total_dirs }

send : ScanMessage → LocalScanner → LocalScanner
send m s = record s { sent = s.sent ++ m ∷ [] }

local_item : Str → Str → Str → Bool → ℕ → Option ℕ → TransferItem
local_item src rel name is_dir size permissions = record {
  src_path = src;
  relative_path = rel;
  name = name;
  is_dir = is_dir;
  size = size;
  permissions = permissions;
}

module _ (p : Platform) where
  maybe_send_progress : LocalScanner → LocalScanner
  unfolding ready send
  maybe_send_progress s =
      let (go, kept) = ready s.last_update (p.clock s.now) in
      let t : LocalScanner = record s { now = suc s.now; last_update = kept } in
      if go then send (progress s.total_files s.total_dirs s.total_bytes) t else t

  check_cancelled : Op
  check_cancelled s =
      if p.is_cancelled s.now
      then (false, record s { now = suc s.now })
      else (true, record s { now = suc s.now })

  add_file : Str → Str → Str → ℕ → Option ℕ → Op
  unfolding push_item count_file maybe_send_progress local_item
  add_file src rel name size mode s = (
    true,
    maybe_send_progress (count_file size (push_item (local_item src rel name false size mode) s)),
  )

  add_dir : Str → Str → Str → Option ℕ → Op
  unfolding push_item count_dir maybe_send_progress local_item
  add_dir src rel name mode s =
      (true, maybe_send_progress (count_dir (push_item (local_item src rel name true 0 mode) s)))

  -- `LocalScanner::scan` behind the item of the directory: the loop over its entries.
  scan_entries : Str → Str → Entries → Op
  unfolding and_then check_cancelled add_file add_dir
  scan_entries src rel unreadable s = (false, s)
  scan_entries src rel no_entries s = (true, s)
  scan_entries src rel bad_entry s = and_then check_cancelled (λ t. (false, t)) s
  scan_entries src rel (file_entry name size mode rest) s =
      let later = scan_entries src rel rest in
      and_then check_cancelled
        (and_then (add_file (p.join src name) (p.join rel name) name size mode) later) s
  scan_entries src rel (dir_entry name mode below rest) s =
      let inner = scan_entries (p.join src name) (p.join rel name) below in
      let later = scan_entries src rel rest in
      and_then check_cancelled
        (and_then
          (and_then check_cancelled
            (and_then (add_dir (p.join src name) (p.join rel name) name mode) inner))
          later)
        s

  -- The loop over the selected items, up to the first error.
  scan_selected : Str → List Selected → Op
  unfolding and_then check_cancelled add_file add_dir scan_entries
  scan_selected parent [] s = (true, s)
  scan_selected parent (selected_file name size mode ∷ rest) s =
      let later = scan_selected parent rest in
      and_then (add_file (p.join parent name) name name size mode) later s
  scan_selected parent (selected_dir name mode below ∷ rest) s =
      let later = scan_selected parent rest in
      and_then
        (and_then check_cancelled (
          and_then (add_dir (p.join parent name) name name mode)
            (scan_entries (p.join parent name) name below)))
        later s

  start : LocalScanner
  start = record {
    now = 1;
    sent = [];
    items = [];
    total_files = 0;
    total_dirs = 0;
    total_bytes = 0;
    last_update = p.clock 0;
  }

  -- What the thread has sent when it ends.
  finish : Bool × LocalScanner → List ScanMessage
  unfolding send
  finish (false, s) = s.sent
  finish (true, s) = if p.is_cancelled s.now then s.sent else (send (done s.items) s).sent

  scanner_thread : Str → List Selected → List ScanMessage
  unfolding scan_selected start finish
  scanner_thread parent selected = finish (scan_selected parent selected start)

-- The loop that receives, with the flag at each of its questions; none is `Err(Cancelled)`.
receive : (ℕ → Bool) → ℕ → List ScanMessage → List TransferItem → Option (List TransferItem)
receive flag i [] items = if flag i then none else some items
receive flag i (progress files dirs bytes ∷ ms) items =
    let rest = receive flag (suc i) ms items in if flag i then none else rest
receive flag i (done scanned ∷ ms) items =
    let rest = receive flag (suc i) ms scanned in if flag i then none else rest

-- The calls of `on_update`.
updates : (ℕ → Bool) → ℕ → List ScanMessage → List (ℕ × (ℕ × ℕ))
updates flag i [] = []
updates flag i (progress files dirs bytes ∷ ms) =
    let rest = updates flag (suc i) ms in if flag i then [] else (files, (dirs, bytes)) ∷ rest
updates flag i (done scanned ∷ ms) =
    let rest = updates flag (suc i) ms in if flag i then [] else rest

pub scan_local : Platform → (ℕ → Bool) → Str → List Selected → Option (List TransferItem)
unfolding scanner_thread receive
scan_local p flag parent selected = receive flag 0 (scanner_thread p parent selected) []
