-- ===== src/TransferCore/Engine/Attempts.antt =====
-- One attempt to transfer an item (src/transfer-core/src/lib.rs).
pub mod LocalEvidence
pub mod LocalCopy
pub mod Evidence
pub mod Growth
use app_full.Base.{
  ℕ, suc, ◌+◌, ◌==◌, ◌%◌, ◌^◌, Bool, true, false, ◌&&◌, ◌||◌, not, List, [], ◌∷◌, ◌++◌, Option,
  none, some, if◌then◌else◌, length, take, any, reverse,
}
use app_full.Base.Texts.{Str, codes, str_eq, starts_with, rfind, contains}
use app_full.Base.Outcome.{
  AppError, cancelled, io, remote, config, other, Outcome, ok, err, panicked, dropped, Exec, ◌>>=◌,
  ◌>>◌, pure, raise, gets, modify,
}
use app_full.FmCore.Path.{slash}
use app_full.TransferCore.{
  TransferItem, CopyMessage, file_start, progress, file_done, file_skipped, ErrorAction, retry,
  skip, abort, join_path, throttled, ready,
}
use app_full.TransferCore.Engine.{
  Call, create_directory, write_file, create_dir_all, create_file, write_all, remove_file,
  set_permissions, delete_dest, delete_src, World, Transfer, Op, Ended, send, send_all, ask, log,
  call, ignored, call_ignored, check_cancelled, returned, report, finish,
}

-- `let parent = match dest_path.rfind('/')`
unfoldable pub parent_of : Str → Str
parent_of path = elim (rfind slash path) [ none ↦ [] | some i ↦ take i path ]

-- `Path::parent` of a path with no doubled slash and none at the end.
path_parent : Str → Str
path_parent path = elim (rfind slash path) [
  | none ↦ []
  | some i ↦ if i == 0 then slash ∷ [] else take i path
]

module _ (world : World) where
  unfoldable pub read_remote : Str → Op (List ℕ)
  read_remote path = do
    begun ← ask world.clock
    answer ← ask (λ n. world.read_file n path)
    report begun answer.0
    returned answer.1

  unfoldable pub write_remote : Str → List ℕ → Option ℕ → Op Unit
  write_remote path content permissions = do
    begun ← ask world.clock
    reports ← ask world.written
    report begun reports
    call world (write_file path content permissions)

  unfoldable pub deliver : Str → TransferItem → List ℕ → Op Unit
  deliver dest_path item content = do
    check_cancelled world
    write_remote dest_path content item.permissions
    modify (finish item.size)

  unfoldable pub send_file : Str → TransferItem → Op Unit
  send_file dest_path item = do
    modify (send (file_start item.name item.size))
    content ← read_remote item.src_path
    deliver dest_path item content

  -- An attempt of the loop where one of the providers is not local.
  unfoldable pub attempt_remote : Str → TransferItem → Op Unit
  attempt_remote dest_path item =
      if item.is_dir
      then call world (create_directory (parent_of dest_path) item.name item.permissions)
      else send_file dest_path item

  -- The flag is set: what has been written of the file is taken away.
  give_up : {A : Type 0} → Str → Op A
  give_up dest_path = do call_ignored world (remove_file dest_path); raise cancelled

  tick : ℕ → ℕ → Transfer → Transfer
  tick now file_copied s =
      let (go, kept) = ready s.timer now in
      let ticked : Transfer = record s { timer = kept } in
      if go then send (progress file_copied ((s.copied + file_copied) % 2 ^ 64)) ticked else ticked

  pub write_chunk : Str → List ℕ → ℕ → Op Unit
  write_chunk dest_path bytes file_copied = do
    call world (write_all dest_path bytes)
    t ← ask world.clock
    modify (tick t ((file_copied + length bytes) % 2 ^ 64))

  -- A round with what a read returns, in front of the rounds that follow it.
  pub copy_chunk : (ℕ → Op ℕ) → Outcome (List ℕ) → Str → ℕ → Op ℕ
  copy_chunk rest read dest_path file_copied = do
    bytes ← returned read
    if length bytes == 0 then pure file_copied else (do
      write_chunk dest_path bytes file_copied
      rest ((file_copied + length bytes) % 2 ^ 64))

  -- The rounds of the loop of `copy_one_file`, with what the reads return.
  pub copy_chunks : List (Outcome (List ℕ)) → Str → ℕ → Op ℕ
  copy_chunks [] dest_path file_copied = do
    c ← ask world.is_cancelled
    if c then give_up dest_path else pure file_copied
  copy_chunks (read ∷ reads) dest_path file_copied =
      let rest = copy_chunks reads dest_path in
      do
        c ← ask world.is_cancelled
        if c then give_up dest_path else copy_chunk rest read dest_path file_copied

  pub set_mode : Str → Option ℕ → Op Unit
  set_mode path none = pure tt
  set_mode path (some mode) = call_ignored world (set_permissions path mode)

  -- The destination is created and filled.
  fill_file : Str → List (Outcome (List ℕ)) → Op ℕ
  fill_file dest_path chunks = do
    call_ignored world (create_dir_all (path_parent dest_path))
    call world (create_file dest_path)
    copy_chunks chunks dest_path 0

  copy_one_file : Str → Str → Op ℕ
  copy_one_file src_path dest_path = do
    reads ← ask (λ n. world.open_file n src_path)
    chunks ← returned reads
    fill_file dest_path chunks

  pub complete : Str → Option ℕ → ℕ → Op Unit
  complete dest_path permissions bytes = do set_mode dest_path permissions; modify (finish bytes)

  copy_file : Str → TransferItem → Op Unit
  copy_file dest_path item = do
    modify (send (file_start item.name item.size))
    bytes ← copy_one_file item.src_path dest_path
    complete dest_path item.permissions bytes

  -- An attempt of the loop where both providers are local, on a Unix system.
  pub attempt_local : Str → TransferItem → Op Unit
  attempt_local dest_path item =
      if item.is_dir
      then (do call world (create_dir_all dest_path); set_mode dest_path item.permissions)
      else copy_file dest_path item
