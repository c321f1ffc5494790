-- ===== src/ConsoleApp/FileOps.antt =====
-- The file operations of the console application (src/console-app/src/fileops.rs).
pub mod Transfers
use app_full.Base.{
  ℕ, zero, suc, ◌+◌, ◌-◌, Bool, true, false, not, ◌||◌, List, [], ◌∷◌, ◌++◌, Option, none, some,
  if◌then◌else◌, ltb, leb, ◌==◌, length,
}
use app_full.Base.Texts.{Str, codes, str_eq, is_empty}
use app_full.Base.Trim.{trim}
use app_full.Base.Utf8.{encode, decode}
use app_full.Base.Outcome.{◌>>=◌, ◌>>◌, pure, gets, modify}
use app_full.ConsoleApp.Chars.{Chars}
use app_full.ConsoleApp.Editor.{Editor}
use app_full.ConsoleApp.Util.{join_rel}
use app_full.ConsoleApp.App.{
  Row, Pane, InputAction, mk_dir, rename, ConfirmAction, delete, transfer, Overlay, nothing, input,
  confirm, message, sources, help, viewer, editor, Call, read, write, make, move, remove, App,
  World, Op, describe, pane_of, set_pane, selected_row, set_overlay, set_message, ask, attempt,
  refresh, KeyCode, code_esc, code_f, code_char, code_up, code_down, code_home, code_end,
  code_page_up, code_page_down, code_enter, code_backspace, handle_editor_key,
}

-- `self.rows().iter().position(|r| r.name == name).unwrap_or(0)`
unfoldable pub position : Str → List Row → Option ℕ
unfolding str_eq
position name [] = none
position name (r ∷ rows) =
    let rest = position name rows in
    if str_eq r.name name then some 0 else elim rest [ none ↦ none | some i ↦ some (suc i) ]

unfoldable pub select_name : Str → Pane → Pane
unfolding position
select_name name p = elim (position name p.rows) [
  | none ↦ record p { cursor = 0 }
  | some i ↦ record p { cursor = i }
]

unfoldable pub prompt_mkdir : Op Unit
unfolding set_overlay
prompt_mkdir = modify (set_overlay (input (codes "Create directory") [] mk_dir))

-- What the prompts need of the pane: its selected row, unless that is the row of the parent.
unfoldable pub for_row : Option Row → (Row → Op Unit) → Op Unit
for_row none f = pure tt
for_row (some row) f = if row.is_parent then pure tt else f row

unfoldable pub with_row : (Pane → Row → Op Unit) → Op Unit
unfolding for_row
with_row f = gets (λ s. pane_of s.active s) >>= λ p. for_row (selected_row p) (f p)

unfoldable pub prompt_rename : Op Unit
unfolding with_row join_rel set_overlay decode
prompt_rename = with_row λ p row. modify (
    set_overlay (
      input (codes "Rename") (decode row.name)
        (rename (join_rel p.relative_path row.name) p.relative_path)))

unfoldable pub prompt_delete : Op Unit
unfolding with_row join_rel set_overlay
prompt_delete = with_row λ p row. modify (
    set_overlay (
      confirm (codes "Delete") (codes "Delete \"" ++ row.name ++ codes "\"?")
        (delete (join_rel p.relative_path row.name))))

unfoldable pub prompt_transfer : Bool → Op Unit
unfolding with_row set_overlay set_message
prompt_transfer move_it = with_row λ p row.
    if row.is_dir
    then set_message (codes "Not supported yet")
        (codes "Directory copy/move is not implemented in v1 (files only).")
    else do
      q ← gets (λ s. pane_of (not s.active) s)
      let verb = if move_it then codes "Move" else codes "Copy"
      modify (
          set_overlay (
            confirm verb
              (verb ++ codes " \"" ++ row.name ++ codes "\" to " ++ q.absolute_path ++ codes "?")
              (transfer move_it (join_rel p.relative_path row.name)
                (join_rel q.relative_path row.name))))

module _ (world : World) where
  unfoldable pub do_mkdir : Str → Op Unit
  unfolding trim is_empty pane_of attempt ask refresh set_message describe
  do_mkdir name = if is_empty (trim name) then pure tt else do
    side ← gets (λ s. s.active)
    base ← gets (λ s. (pane_of side s).relative_path)
    attempt (ask (make side base (trim name)) (λ n. world.create_directory n side base (trim name)))
        (λ _. refresh world side) (λ e. set_message (codes "Create directory failed") (describe e))

  unfoldable pub do_rename : Str → Str → Str → Op Unit
  unfolding trim is_empty pane_of attempt ask refresh set_message describe join_rel select_name
      set_pane
  do_rename old_rel dir new_name = if is_empty (trim new_name) then pure tt else do
    side ← gets (λ s. s.active)
    let new_rel = join_rel dir (trim new_name)
    attempt (ask (move side old_rel new_rel) (λ n. world.rename_entry n side old_rel new_rel))
        (λ _.
          refresh world side
          >> modify (λ s. set_pane side (select_name (trim new_name) (pane_of side s)) s))
        (λ e. set_message (codes "Rename failed") (describe e))

  unfoldable pub do_delete : Str → Op Unit
  unfolding attempt ask refresh set_message describe
  do_delete rel = do
    side ← gets (λ s. s.active)
    attempt (ask (remove side (rel ∷ [])) (λ n. world.delete_entries n side (rel ∷ [])))
        (λ _. refresh world side) (λ e. set_message (codes "Delete failed") (describe e))

  -- `let _ = src_provider.delete_entries(vec![src_rel]).await;`, and the refresh behind it.
  unfoldable pub delete_source : Bool → Str → Op Unit
  unfolding attempt ask refresh
  delete_source side src_rel =
      attempt (ask (remove side (src_rel ∷ [])) (λ n. world.delete_entries n side (src_rel ∷ [])))
        (λ _. pure tt) (λ e. pure tt)
      >> refresh world side

  unfoldable pub finish_transfer : Bool → Bool → Str → Op Unit
  unfolding delete_source refresh
  finish_transfer move_it side src_rel =
      (if move_it then delete_source side src_rel else pure tt) >> refresh world (not side)

  unfoldable pub do_transfer : Bool → Str → Str → Op Unit
  unfolding attempt ask set_message describe finish_transfer
  do_transfer move_it src_rel dst_rel = do
    side ← gets (λ s. s.active)
    attempt (ask (read side src_rel) (λ n. world.read_file n side src_rel))
        (λ bytes.
          attempt
            (ask (write (not side) dst_rel bytes)
              (λ n. world.write_file n (not side) dst_rel bytes))
            (λ _. finish_transfer move_it side src_rel)
            (λ e. set_message (codes "Write failed") (describe e)))
        (λ e. set_message (codes "Read failed") (describe e))

  unfoldable pub run_input : InputAction → Chars → Op Unit
  unfolding do_mkdir do_rename encode
  run_input mk_dir value = do_mkdir (encode value)
  run_input (rename old_rel dir) value = do_rename old_rel dir (encode value)

  unfoldable pub run_confirm : ConfirmAction → Op Unit
  unfolding do_delete do_transfer
  run_confirm (delete rel) = do_delete rel
  run_confirm (transfer move_it src_rel dst_rel) = do_transfer move_it src_rel dst_rel
