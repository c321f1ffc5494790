-- ===== src/ConsoleApp/Overlays/SelfMove.antt =====
-- A move between two panes that show the same folder.
use app_full.Base.{
  ℕ, ◌+◌, Bool, true, false, not, List, [], ◌∷◌, ◌++◌, length, length-append, ◌≡◌, ◌∙◌, some,
  append_assoc, append-nil,
}
use app_full.Base.Texts.{Str, codes}
use app_full.Base.Outcome.{ok, pure, ◌>>◌}
use app_full.Base.Gives.{ended-bind}
use app_full.Base.Keeps.{Keeps}
use app_full.ConsoleApp.Util.{join_rel}
use app_full.ConsoleApp.App.{
  App, Call, read, write, remove, list, Op, World, Row, ask, attempt, pane_of, selected_row,
  code_enter, refresh, confirm, transfer, nothing,
}
use app_full.ConsoleApp.App.Rules.{attempt-at, Keeps-refresh, Logged, StartsWith, StartsWith-Lasts}
use app_full.ConsoleApp.Overlays.{handle_overlay_key}
use app_full.ConsoleApp.FileOps.{prompt_transfer, do_transfer, finish_transfer, delete_source}

-- Finishing a move deletes the source first.
module _ (world : World) (side : Bool) (path : Str) (t : App) where
  abbrev P : List Call → Type 0
  P = StartsWith (t.calls ++ remove side (path ∷ []) ∷ [])

  abbrev asked : Op Unit
  asked = ask (remove side (path ∷ [])) (λ n. world.delete_entries n side (path ∷ []))

  refresh-StartsWith : (b : Bool) → Keeps (Logged P) (refresh world b)
  refresh-StartsWith b =
      Keeps-refresh P world b (StartsWith-Lasts (t.calls ++ remove side (path ∷ []) ∷ []) (list b))

  attempt-StartsWith : Logged P (attempt asked (λ _. pure tt) (λ _. pure tt) t).1
  unfolding ask
  attempt-StartsWith =
      let first : Logged P (asked t).1 = ([], append-nil _) in
      attempt-at (Logged P) asked (λ _. pure tt) (λ _. pure tt) t first (λ _ _. first) (λ _. first)

  delete_source-StartsWith : Logged P (delete_source world side path t).1
  unfolding delete_source
  delete_source-StartsWith =
      ended-bind (Logged P) (attempt asked (λ _. pure tt) (λ _. pure tt)) (λ _. refresh world side)
        t attempt-StartsWith
        (λ _ _.
          (refresh-StartsWith side).at (attempt asked (λ _. pure tt) (λ _. pure tt) t).1
            attempt-StartsWith)

  finish_transfer-StartsWith : Logged P (finish_transfer world true side path t).1
  unfolding finish_transfer
  finish_transfer-StartsWith =
      ended-bind (Logged P) (delete_source world side path) (λ _. refresh world (not side)) t
        delete_source-StartsWith
        (λ _ _.
          (refresh-StartsWith (not side)).at (delete_source world side path t).1
            delete_source-StartsWith)

-- A move that is read and written.
do_transfer-StartsWith :
    (world : World) (t : App) (path : Str) (bytes : List ℕ)
    → world.read_file (length t.calls) t.active path ≡ ok bytes
    → world.write_file (length t.calls + 1) (not t.active) path bytes ≡ ok tt
    → StartsWith
        (t.calls
          ++ read t.active path
            ∷ write (not t.active) path bytes
            ∷ remove t.active (path ∷ [])
            ∷ [])
        (do_transfer world true path path t).1.calls
unfolding do_transfer
do_transfer-StartsWith world t path bytes was_read was_written =
    let two : length (t.calls ++ read t.active path ∷ []) ≡ length t.calls + 1 =
      length-append t.calls (read t.active path ∷ []) in
    let (rest, e) = finish_transfer-StartsWith world t.active path (record t {
      calls = (t.calls ++ read t.active path ∷ []) ++ write (not t.active) path bytes ∷ [];
    }) in
    let same : (t.calls
            ++ read t.active path
              ∷ write (not t.active) path bytes
              ∷ remove t.active (path ∷ [])
              ∷ [])
          ++ rest
        ≡ (((t.calls ++ read t.active path ∷ []) ++ write (not t.active) path bytes ∷ [])
            ++ remove t.active (path ∷ []) ∷ [])
          ++ rest =
      simp append_assoc in
    rw was_read (rw (two, was_written) (rest, same ∙ e))

module _ (world : World) (s : App) (row : Row) (bytes : List ℕ) where
  abbrev path : Str
  path = join_rel (pane_of s.active s).relative_path row.name

  abbrev question : Str
  question =
      codes "Move"
      ++ codes " \""
      ++ row.name
      ++ codes "\" to "
      ++ (pane_of (not s.active) s).absolute_path
      ++ codes "?"

  prompt_transfer-offer :
      selected_row (pane_of s.active s) ≡ some row
      → row.is_parent ≡ false
      → row.is_dir ≡ false
      → (pane_of (not s.active) s).relative_path ≡ (pane_of s.active s).relative_path
      → prompt_transfer true s
        ≡ (ok tt, record s { overlay = confirm (codes "Move") question (transfer true path path) })
  unfolding prompt_transfer
  prompt_transfer-offer sel par dir same = rw sel (rw (par) (rw (dir) (rw same)))

  -- If both panes show the same folder, a file is selected, reading it succeeds and so does writing
  -- it where it is, then the move that is offered and confirmed with Enter deletes the file at the
  -- path that it has just been written to.
  pub self_move :
      selected_row (pane_of s.active s) ≡ some row
      → row.is_parent ≡ false
      → row.is_dir ≡ false
      → (pane_of (not s.active) s).relative_path ≡ (pane_of s.active s).relative_path
      → world.read_file (length s.calls) s.active path ≡ ok bytes
      → world.write_file (length s.calls + 1) (not s.active) path bytes ≡ ok tt
      → StartsWith
          (s.calls
            ++ read s.active path
              ∷ write (not s.active) path bytes
              ∷ remove s.active (path ∷ [])
              ∷ [])
          ((prompt_transfer true >> handle_overlay_key world false code_enter) s).1.calls
  self_move sel par dir same was_read was_written = rw (prompt_transfer-offer sel par dir same) (
      unfold handle_overlay_key in
      do_transfer-StartsWith world (record s { overlay = nothing }) path bytes was_read was_written)
