-- ===== src/ConsoleApp/App.antt =====
-- The state of the console application (`App` of src/console-app/src/app.rs, `Pane` of pane.rs and
-- `Overlay` of overlay.rs), and the handlers of the editor (editor.rs). The providers of the two panes
-- are asked through `World`; the number of the question is an argument, so that two answers may
-- differ. The calls are logged, the newest last. The rows of a pane come with its listing.
pub mod Rules
pub mod RoundTrip
use app_full.Base.{
  ℕ, zero, suc, ◌+◌, ◌-◌, ◌*◌, ◌^◌, Bool, true, false, not, List, [], ◌∷◌, ◌++◌, Option, none, some,
  if◌then◌else◌, ltb, ◌==◌, ◌&&◌, length, get_elem?,
}
use app_full.Base.Texts.{Str, codes, str_eq}
use app_full.Base.Outcome.{
  AppError, cancelled, io, remote, config, other, Outcome, ok, err, panicked, dropped, Exec, ◌>>=◌,
  ◌>>◌, pure, gets, modify,
}
use app_full.Base.Utf8.{encode}
use app_full.ConsoleApp.Chars.{Chars}
use app_full.ConsoleApp.Editor.{
  Editor, Key, key_up, key_down, key_left, key_right, key_home, key_end, key_enter, key_backspace,
  key_delete, key_char, press, text,
}
use app_full.ConsoleApp.Util.{is_binary, to_lines, join_rel}

pub record Row : Type 0 where
  pub name : Str
  pub is_dir : Bool
  pub is_parent : Bool

pub record Pane : Type 0 where
  pub rows : List Row
  pub cursor : ℕ
  pub relative_path : Str
  pub absolute_path : Str

pub data InputAction : Type 0 where
  mk_dir : InputAction
  rename : Str → Str → InputAction

pub data ConfirmAction : Type 0 where
  delete : Str → ConfirmAction
  transfer : Bool → Str → Str → ConfirmAction

-- Of the list of sources the number of its rows and the cursor are kept.
pub data Overlay : Type 0 where
  nothing : Overlay
  input : Str → Chars → InputAction → Overlay
  confirm : Str → Str → ConfirmAction → Overlay
  message : Str → Str → Overlay
  sources : ℕ → ℕ → Overlay
  help : Overlay
  viewer : Str → List Chars → ℕ → Overlay
  editor : Editor → Overlay

-- `false` is the pane with index 0.
pub data Call : Type 0 where
  read : Bool → Str → Call
  write : Bool → Str → List ℕ → Call
  make : Bool → Str → Str → Call
  move : Bool → Str → Str → Call
  remove : Bool → List Str → Call
  list : Bool → Call

pub record App : Type 0 where
  pub active : Bool
  pub first : Pane
  pub second : Pane
  pub overlay : Overlay
  pub calls : List Call

pub record World : Type 0 where
  pub read_file : ℕ → Bool → Str → Outcome {0} (List ℕ)
  pub write_file : ℕ → Bool → Str → List ℕ → Outcome {0} (Unit {0})
  pub create_directory : ℕ → Bool → Str → Str → Outcome {0} (Unit {0})
  pub rename_entry : ℕ → Bool → Str → Str → Outcome {0} (Unit {0})
  pub delete_entries : ℕ → Bool → List Str → Outcome {0} (Unit {0})
  pub refresh : ℕ → Bool → Pane → Outcome {0} Pane
  -- `activate_source` with the row that was chosen, as a step on the whole state.
  pub activate_source : ℕ → App → Outcome {0} (Unit {0}) × App

-- `e.to_string()`
unfoldable pub describe : AppError → Str
describe cancelled = codes "Cancelled"
describe (io msg) = msg
describe (remote msg) = msg
describe (config msg) = msg
describe (other msg) = msg

abbrev pub Op : Type 0 → Type 0
Op A = Exec App A

unfoldable pub pane_of : Bool → App → Pane
pane_of side s = if side then s.second else s.first

unfoldable pub set_pane : Bool → Pane → App → App
set_pane side p s = if side then record s { second = p } else record s { first = p }

unfoldable pub selected_row : Pane → Option Row
selected_row p = get_elem? p.rows p.cursor

unfoldable pub set_overlay : Overlay → App → App
set_overlay o s = record s { overlay = o }

unfoldable pub set_message : Str → Str → Op Unit
unfolding set_overlay
set_message title body = modify (set_overlay (message title body))

-- A call to a provider, with its number and its answer.
unfoldable pub ask : {A : Type 0} → Call → (ℕ → Outcome A) → Op A
ask c answer s = (answer (length s.calls), record s { calls = s.calls ++ c ∷ [] })

-- `match … { Ok(a) => good(a), Err(e) => bad(e) }`
unfoldable pub settle : {A B : Type 0} → Outcome A → (A → Op B) → (AppError → Op B) → Op B
settle (ok a) good bad s = good a s
settle (err e) good bad s = bad e s
settle panicked good bad s = (panicked, s)
settle dropped good bad s = (dropped, s)

unfoldable pub attempt : {A B : Type 0} → Op A → (A → Op B) → (AppError → Op B) → Op B
unfolding settle
attempt m good bad s = let (r, s') = m s in settle r good bad s'

-- The key codes that the handlers name.
pub data KeyCode : Type 0 where
  code_esc : KeyCode
  code_f : ℕ → KeyCode
  code_char : ℕ → KeyCode
  code_up : KeyCode
  code_down : KeyCode
  code_left : KeyCode
  code_right : KeyCode
  code_home : KeyCode
  code_end : KeyCode
  code_page_up : KeyCode
  code_page_down : KeyCode
  code_enter : KeyCode
  code_backspace : KeyCode
  code_delete : KeyCode
  code_other : KeyCode

-- The keys without a character that the buffer knows.
unfoldable pub buffer_key : KeyCode → Option Key
buffer_key code_up = some key_up
buffer_key code_down = some key_down
buffer_key code_left = some key_left
buffer_key code_right = some key_right
buffer_key code_home = some key_home
buffer_key code_end = some key_end
buffer_key code_enter = some key_enter
buffer_key code_backspace = some key_backspace
buffer_key code_delete = some key_delete
buffer_key code = none

abbrev max_bytes : ℕ
max_bytes = 4 * 1024 * 1024

unfoldable pub new_editor : Str → Str → List Chars → Editor
new_editor path title [] = record {
  path = path;
  title = title;
  lines = [] ∷ [];
  cx = 0;
  cy = 0;
  dirty = false;
  status = none;
}
new_editor path title (l ∷ ls) = record {
  path = path;
  title = title;
  lines = l ∷ ls;
  cx = 0;
  cy = 0;
  dirty = false;
  status = none;
}

unfoldable pub show_file : Str → Str → List ℕ → Op Unit
unfolding set_message set_overlay
show_file path title bytes =
    if ltb max_bytes (length bytes)
    then set_message (codes "Edit") (codes "File too large to edit.")
    else if is_binary bytes
    then set_message (codes "Edit")
        (codes "Binary file " ++ 0xe2 ∷ 0x80 ∷ 0x94 ∷ codes " cannot edit.")
    else modify (set_overlay (editor (new_editor path title (to_lines bytes))))

-- `if let Overlay::Editor(ed) = &mut self.overlay`
unfoldable pub set_status : Str → Overlay → Overlay
set_status body (editor ed) = editor (record ed { status = some body })
set_status body o = o

-- A key that is passed to the buffer.
unfoldable pub press_overlay : Key → Overlay → Op Unit
unfolding press
press_overlay k (editor ed) s = let (r, ed') = press k ed in (r, record s { overlay = editor ed' })
press_overlay k o s = (ok tt, s)

module _ (world : World) where
  -- `let _ = core.refresh().await;`
  unfoldable pub refresh : Bool → Op Unit
  unfolding ask attempt set_pane pane_of
  refresh side = do
    p ← gets (pane_of side)
    attempt (ask (list side) (λ n. world.refresh n side p)) (λ q. modify (set_pane side q))
        (λ e. pure tt)

  unfoldable pub open_row : Option Row → Op Unit
  unfolding attempt ask show_file describe set_message
  open_row none = pure tt
  open_row (some row) = if row.is_dir then pure tt else do
    side ← gets (λ s. s.active)
    dir ← gets (λ s. (pane_of side s).relative_path)
    let path = join_rel dir row.name
    attempt (ask (read side path) (λ n. world.read_file n side path)) (show_file path row.name)
        (λ e. set_message (codes "Edit failed") (describe e))

  unfoldable pub open_editor : Op Unit
  unfolding open_row
  open_editor = do row ← gets (λ s. selected_row (pane_of s.active s)); open_row row

  unfoldable pub save : Overlay → Op Unit
  unfolding attempt ask refresh set_overlay set_status describe
  save (editor ed) = do
    side ← gets (λ s. s.active)
    let bytes = encode (text ed)
    attempt (ask (write side ed.path bytes) (λ n. world.write_file n side ed.path bytes))
        (λ _. refresh side >> modify (set_overlay nothing))
        (λ e.
          modify (λ s. record s {
            overlay = set_status (codes "Save failed: " ++ describe e) s.overlay;
          }))
  save o = pure tt

  unfoldable pub save_active_editor : Op Unit
  unfolding save
  save_active_editor = gets (λ s. s.overlay) >>= save

  unfoldable pub handle_editor_key : Bool → KeyCode → Op Unit
  unfolding set_overlay save_active_editor press_overlay buffer_key
  handle_editor_key ctrl code_esc = modify (set_overlay nothing)
  handle_editor_key ctrl (code_f n) = if n == 2 then save_active_editor else pure tt
  handle_editor_key ctrl (code_char c) =
      if c == b's' && ctrl
      then save_active_editor
      else gets (λ s. s.overlay) >>= press_overlay (key_char c)
  handle_editor_key ctrl code = gets (λ s. s.overlay) >>= λ o. elim (buffer_key code) [
    | none ↦ pure tt
    | some k ↦ press_overlay k o
  ]
