-- ===== src/ConsoleApp/FileOps/Transfers.antt =====
-- What a copy and a move of the console application ask of the providers.
use app_full.Base.{
  ℕ, ◌+◌, Bool, true, false, not, List, [], ◌∷◌, ◌++◌, All, All-map, length, length-append, ◌≡◌,
  refl, if◌then◌else◌,
}
use app_full.Base.Texts.{Str, codes}
use app_full.Base.Outcome.{ok, pure}
use app_full.Base.Keeps.{Keeps, Keeps-bind, Keeps-pure}
use app_full.ConsoleApp.App.{
  App, Call, read, write, make, move, remove, list, Op, World, ask, attempt, set_message, describe,
}
use app_full.ConsoleApp.App.Rules.{
  attempt-at, Keeps-attempt, Keeps-ask, Keeps-set_message, Keeps-refresh, Logged, All-Lasts,
}
use app_full.ConsoleApp.FileOps.{do_transfer, finish_transfer, delete_source}

abbrev pub NotRemoval : Call → Type 0
NotRemoval (remove side paths) = ⊥
NotRemoval c = Unit

-- All bytes of the source were read, and then written to the destination with success.
pub record Copied (world : World) (s : App) (src_rel dst_rel : Str) : Type 0 where
  pub bytes : List ℕ
  pub was_read : world.read_file (length s.calls) s.active src_rel ≡ ok bytes
  pub was_written : world.write_file (length s.calls + 1) (not s.active) dst_rel bytes ≡ ok tt

-- A deletion is that of the source of a move that was copied.
abbrev pub Allowed : World → App → Bool → Str → Str → Call → Type 0
Allowed world s move_it src_rel dst_rel (remove side paths) =
    (move_it ≡ true) × (side ≡ s.active) × (paths ≡ src_rel ∷ []) × Copied world s src_rel dst_rel
Allowed world s move_it src_rel dst_rel c = Unit

module _ (world : World) (s : App) (move_it : Bool) (src_rel dst_rel : Str) where
  abbrev P : Call → Type 0
  P = Allowed world s move_it src_rel dst_rel

  delete_source-Keeps :
      move_it ≡ true
      → Copied world s src_rel dst_rel
      → Keeps (Logged (All P)) (delete_source world s.active src_rel)
  unfolding delete_source
  delete_source-Keeps m copied =
      Keeps-bind _ _
        (Keeps-attempt _ _ _
          (Keeps-ask (All P) (remove s.active (src_rel ∷ []))
            (λ n. world.delete_entries n s.active (src_rel ∷ []))
            (All-Lasts P (remove s.active (src_rel ∷ [])) (m, refl, refl, copied)))
          (λ _. Keeps-pure tt) (λ _. Keeps-pure tt))
        (λ _. Keeps-refresh (All P) world s.active (All-Lasts P (list s.active) tt))

  maybe_delete-Keeps :
      (b : Bool)
      → move_it ≡ b
      → Copied world s src_rel dst_rel
      → Keeps (Logged (All P)) (if b then delete_source world s.active src_rel else pure tt)
  maybe_delete-Keeps true e copied = delete_source-Keeps e copied
  maybe_delete-Keeps false e copied = Keeps-pure tt

  finish_transfer-Keeps :
      Copied world s src_rel dst_rel
      → Keeps (Logged (All P)) (finish_transfer world move_it s.active src_rel)
  unfolding finish_transfer
  finish_transfer-Keeps copied =
      Keeps-bind _ _ (maybe_delete-Keeps move_it refl copied)
        (λ _. Keeps-refresh (All P) world (not s.active) (All-Lasts P (list (not s.active)) tt))

  abbrev after_read : App
  after_read = record s { calls = s.calls ++ read s.active src_rel ∷ [] }

  abbrev write_bytes : List ℕ → Op Unit
  write_bytes bytes =
      ask (write (not s.active) dst_rel bytes)
        (λ n. world.write_file n (not s.active) dst_rel bytes)

  abbrev copy_bytes : List ℕ → Op Unit
  copy_bytes bytes =
      attempt (write_bytes bytes) (λ _. finish_transfer world move_it s.active src_rel)
        (λ e. set_message (codes "Write failed") (describe e))

  copy_bytes-Logged :
      (bytes : List ℕ)
      → world.read_file (length s.calls) s.active src_rel ≡ ok bytes
      → Logged (All P) after_read
      → Logged (All P) (copy_bytes bytes after_read).1
  unfolding ask
  copy_bytes-Logged bytes was_read h =
      let at_one : length after_read.calls ≡ length s.calls + 1 =
        length-append s.calls (read s.active src_rel ∷ []) in
      let logged : Logged (All P) (write_bytes bytes after_read).1 =
        All-Lasts P (write (not s.active) dst_rel bytes) tt after_read.calls h in
      attempt-at (Logged (All P)) (write_bytes bytes)
        (λ _. finish_transfer world move_it s.active src_rel)
        (λ e. set_message (codes "Write failed") (describe e)) after_read logged
        (λ done was_written.
          (finish_transfer-Keeps (record {
            bytes = bytes;
            was_read = was_read;
            was_written = rw (← at_one) was_written;
          })).at
            (write_bytes bytes after_read).1 logged)
        (λ e.
          (Keeps-set_message (All P) (codes "Write failed") (describe e)).at
            (write_bytes bytes after_read).1 logged)

  Allowed-do_transfer : All P s.calls → All P (do_transfer world move_it src_rel dst_rel s).1.calls
  unfolding do_transfer
  Allowed-do_transfer h =
      let logged : Logged (All P) after_read = All-Lasts P (read s.active src_rel) tt s.calls h in
      attempt-at (Logged (All P))
        (ask (read s.active src_rel) (λ n. world.read_file n s.active src_rel)) copy_bytes
        (λ e. set_message (codes "Read failed") (describe e)) s logged
        (λ bytes was_read. copy_bytes-Logged bytes was_read logged) (λ e. logged)

Allowed-NotRemoval :
    (world : World) (s : App) (move_it : Bool) (src_rel dst_rel : Str) (c : Call)
    → NotRemoval c
    → Allowed world s move_it src_rel dst_rel c
Allowed-NotRemoval world s move_it src_rel dst_rel (read side path) h = tt
Allowed-NotRemoval world s move_it src_rel dst_rel (write side path bytes) h = tt
Allowed-NotRemoval world s move_it src_rel dst_rel (make side dir name) h = tt
Allowed-NotRemoval world s move_it src_rel dst_rel (move side from to) h = tt
Allowed-NotRemoval world s move_it src_rel dst_rel (list side) h = tt
Allowed-NotRemoval world s move_it src_rel dst_rel (remove side paths) h = absurd h

-- If no deletion was logged before a copy or a move, then however it ends, every deletion that is
-- logged is one of a move, at the pane of the source, of the source alone, and all bytes of the
-- source were read, and those were written to the destination with success.
pub removals-do_transfer :
    (world : World) (s : App) (move_it : Bool) (src_rel dst_rel : Str)
    → All NotRemoval s.calls
    → All
        (Allowed world s move_it src_rel dst_rel)
        (do_transfer world move_it src_rel dst_rel s).1.calls
removals-do_transfer world s move_it src_rel dst_rel h =
    Allowed-do_transfer world s move_it src_rel dst_rel
      (All-map NotRemoval s.calls (Allowed-NotRemoval world s move_it src_rel dst_rel) h)
