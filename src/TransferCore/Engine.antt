-- ===== src/TransferCore/Engine.antt =====
-- `execute_transfer` (src/transfer-core/src/lib.rs).
-- What the providers, the clock, the flag and the local disk answer is a function of the number of
-- the question, `now`, so that nothing is assumed to stay as it is. The answers of the user to errors
-- are a list: behind its end the channel is closed. `u64` wraps, as in a release build.
pub mod Growth
pub mod Attempts
pub mod Execute
use app_full.Base.{
  ℕ, suc, ◌+◌, ◌==◌, ◌%◌, ◌^◌, Bool, true, false, ◌&&◌, ◌||◌, not, List, [], ◌∷◌, ◌++◌, Option,
  none, some, if◌then◌else◌, length, take, any, reverse,
}
use app_full.Base.Texts.{Str, codes, str_eq, starts_with, rfind, contains}
use app_full.Base.Outcome.{
  AppError, cancelled, io, remote, config, other, Outcome, ok, err, panicked, dropped, Exec, ◌>>=◌,
  ◌>>◌, pure, raise, gets, modify,
}
use app_full.FmCore.Path.{slash}
use app_full.TransferCore.{
  TransferItem, CopyMessage, file_start, progress, file_done, file_skipped, ErrorAction, retry,
  skip, abort, join_path, throttled, ready,
}

-- What a provider or the disk was asked to change.
pub data Call : Type 0 where
  create_directory : Str → Str → Option ℕ → Call
  write_file : Str → List ℕ → Option ℕ → Call
  create_dir_all : Str → Call
  create_file : Str → Call
  write_all : Str → List ℕ → Call
  remove_file : Str → Call
  set_permissions : Str → ℕ → Call
  delete_dest : List Str → Call
  delete_src : List Str → Call

pub record World : Type 0 where
  pub is_cancelled : ℕ → Bool
  pub clock : ℕ → ℕ
  -- `read_file` of the source and `write_file` of the destination report bytes as they go on.
  pub read_file : ℕ → Str → List (ℕ × ℕ) × Outcome {0} (List ℕ)
  pub written : ℕ → List (ℕ × ℕ)
  -- `File::open`, with what the reads of the file will return.
  pub open_file : ℕ → Str → Outcome {0} (List (Outcome {0} (List ℕ)))
  -- How a call that changes something ends.
  pub perform : ℕ → Call → Outcome {0} Unit

pub record Transfer : Type 0 where
  pub now : ℕ
  pub messages : List CopyMessage
  pub asked : List (Str × AppError)
  -- The calls that ended well, the last one first, and all that were made.
  pub done : List Call
  pub tried : List Call
  pub skipped : List Str
  pub copied : ℕ
  -- The time in the timer that the files of a local run share.
  pub timer : ℕ

abbrev pub Op : Type 0 → Type 0
Op A = Exec Transfer A

-- How an operation ended, and the state that it left.
abbrev pub Ended : Type 0 → Type 0
Ended A = Outcome A × Transfer

unfoldable pub start : Transfer
start = record {
  now = 0;
  messages = [];
  asked = [];
  done = [];
  tried = [];
  skipped = [];
  copied = 0;
  timer = 0;
}

unfoldable pub send : CopyMessage → Transfer → Transfer
send m s = record s { messages = s.messages ++ m ∷ [] }

unfoldable pub send_all : List CopyMessage → Transfer → Transfer
send_all ms s = record s { messages = s.messages ++ ms }

unfoldable pub ask : {A : Type 0} → (ℕ → A) → Op A
ask f s = (ok (f s.now), record s { now = suc s.now })

-- A call, and the outcome with which it ends.
unfoldable pub log : Call → Outcome {0} Unit → Transfer → Ended Unit
log c (ok u) s = (ok u, record s { now = suc s.now; tried = c ∷ s.tried; done = c ∷ s.done })
log c (err e) s = (err e, record s { now = suc s.now; tried = c ∷ s.tried })
log c panicked s = (panicked, record s { now = suc s.now; tried = c ∷ s.tried })
log c dropped s = (dropped, record s { now = suc s.now; tried = c ∷ s.tried })

-- `.await.ok()` and `let _ =`: an error is ignored.
unfoldable pub ignored : Ended Unit → Ended Unit
ignored (ok u, s) = (ok u, s)
ignored (err e, s) = (ok tt, s)
ignored (panicked, s) = (panicked, s)
ignored (dropped, s) = (dropped, s)

unfoldable pub returned : {A : Type 0} → Outcome A → Op A
returned r s = (r, s)

-- The messages of a callback behind a new timer.
unfoldable pub report : ℕ → List (ℕ × ℕ) → Op Unit
report begun reports = modify (λ s. send_all (throttled s.copied begun reports) s)

-- The messages and the sum behind a file that has arrived with `bytes`.
unfoldable pub finish : ℕ → Transfer → Transfer
finish bytes s =
    let total = (s.copied + bytes) % 2 ^ 64 in
    send file_done (record (send (progress bytes total) s) { copied = total })

module _ (world : World) where
  unfoldable pub call : Call → Op Unit
  call c s = log c (world.perform s.now c) s

  unfoldable pub call_ignored : Call → Op Unit
  call_ignored c s = ignored (call c s)

  unfoldable pub check_cancelled : Op Unit
  check_cancelled = do c ← ask world.is_cancelled; if c then raise cancelled else pure tt
