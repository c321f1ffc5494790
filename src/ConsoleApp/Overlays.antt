-- ===== src/ConsoleApp/Overlays.antt =====
-- The keys of the windows of the console application (`handle_overlay_key` of
-- src/console-app/src/app.rs).
pub mod SelfMove
use app_full.Base.{
  ℕ, zero, suc, ◌+◌, ◌-◌, Bool, true, false, not, ◌||◌, List, [], ◌∷◌, ◌++◌, Option, none, some,
  if◌then◌else◌, ltb, leb, ◌==◌, length,
}
use app_full.Base.Texts.{Str, codes, str_eq, is_empty}
use app_full.Base.Trim.{trim}
use app_full.Base.Utf8.{encode, decode}
use app_full.Base.Outcome.{◌>>=◌, ◌>>◌, pure, gets, modify}
use app_full.ConsoleApp.Chars.{Chars}
use app_full.ConsoleApp.Editor.{Editor}
use app_full.ConsoleApp.Util.{join_rel}
use app_full.ConsoleApp.App.{
  Row, Pane, InputAction, mk_dir, rename, ConfirmAction, delete, transfer, Overlay, nothing, input,
  confirm, message, sources, help, viewer, editor, Call, read, write, make, move, remove, App,
  World, Op, describe, pane_of, set_pane, selected_row, set_overlay, set_message, ask, attempt,
  refresh, KeyCode, code_esc, code_f, code_char, code_up, code_down, code_home, code_end,
  code_page_up, code_page_down, code_enter, code_backspace, handle_editor_key,
}
use app_full.ConsoleApp.FileOps.{run_input, run_confirm}

-- `String::pop`
unfoldable pub pop : Chars → Chars
pop [] = []
pop (c ∷ []) = []
pop (c ∷ d ∷ s) = c ∷ pop (d ∷ s)

-- The cursor of a list of so many rows, one row up and one down.
unfoldable pub down_in : ℕ → ℕ → ℕ
down_in count cursor = if ltb (cursor + 1) count then cursor + 1 else cursor

-- The line at which the viewer starts after a key; none if the key closes the viewer.
unfoldable pub scroll_by : ℕ → ℕ → KeyCode → Option ℕ
unfolding down_in
scroll_by count scroll code_up = some (scroll - 1)
scroll_by count scroll code_down = some (down_in count scroll)
scroll_by count scroll (code_char c) =
    if c == b'k'
    then some (scroll - 1)
    else if c == b'j'
    then some (down_in count scroll)
    else if c == b'q'
    then none
    else some scroll
scroll_by count scroll code_page_up = some (scroll - 20)
scroll_by count scroll code_page_down =
    some (if leb (scroll + 20) (count - 1) then scroll + 20 else count - 1)
scroll_by count scroll code_home = some 0
scroll_by count scroll code_end = some (count - 1)
scroll_by count scroll code_esc = none
scroll_by count scroll (code_f n) = if n == 3 || n == 10 then none else some scroll
scroll_by count scroll code = some scroll

unfoldable pub show_scrolled : Str → List Chars → Option ℕ → Op Unit
unfolding set_overlay
show_scrolled title lines none = modify (set_overlay nothing)
show_scrolled title lines (some n) = modify (set_overlay (viewer title lines n))

unfoldable pub viewer_key : Str → List Chars → ℕ → KeyCode → Op Unit
unfolding show_scrolled scroll_by
viewer_key title lines scroll code =
    show_scrolled title lines (scroll_by (length lines) scroll code)

module _ (world : World) where
  unfoldable pub input_key : Str → Chars → InputAction → KeyCode → Op Unit
  unfolding set_overlay run_input pop
  input_key title value action code_enter =
      modify (set_overlay nothing) >> run_input world action value
  input_key title value action code_esc = modify (set_overlay nothing)
  input_key title value action code_backspace =
      modify (set_overlay (input title (pop value) action))
  input_key title value action (code_char c) =
      modify (set_overlay (input title (value ++ c ∷ []) action))
  input_key title value action code = pure tt

  unfoldable pub confirm_key : ConfirmAction → KeyCode → Op Unit
  unfolding set_overlay run_confirm
  confirm_key action code_enter = modify (set_overlay nothing) >> run_confirm world action
  confirm_key action (code_char c) =
      if c == b'y' || c == b'Y'
      then modify (set_overlay nothing) >> run_confirm world action
      else modify (set_overlay nothing)
  confirm_key action code = modify (set_overlay nothing)

  unfoldable pub sources_key : ℕ → ℕ → KeyCode → Op Unit
  unfolding set_overlay down_in
  sources_key count cursor code_up = modify (set_overlay (sources count (cursor - 1)))
  sources_key count cursor code_down = modify (set_overlay (sources count (down_in count cursor)))
  sources_key count cursor (code_char c) =
      if c == b'k'
      then modify (set_overlay (sources count (cursor - 1)))
      else if c == b'j'
      then modify (set_overlay (sources count (down_in count cursor)))
      else pure tt
  sources_key count cursor code_home = modify (set_overlay (sources count 0))
  sources_key count cursor code_end = modify (set_overlay (sources count (count - 1)))
  sources_key count cursor code_esc = modify (set_overlay nothing)
  sources_key count cursor code_enter =
      modify (set_overlay nothing)
      >> (if ltb cursor count then world.activate_source cursor else pure tt)
  sources_key count cursor code = pure tt

  unfoldable pub overlay_key : Overlay → Bool → KeyCode → Op Unit
  unfolding handle_editor_key input_key confirm_key sources_key viewer_key set_overlay
  overlay_key (editor ed) ctrl code = handle_editor_key world ctrl code
  overlay_key (input title value action) ctrl code = input_key title value action code
  overlay_key (confirm title body action) ctrl code = confirm_key action code
  overlay_key (message title body) ctrl code = modify (set_overlay nothing)
  overlay_key (sources count cursor) ctrl code = sources_key count cursor code
  overlay_key help ctrl code = modify (set_overlay nothing)
  overlay_key (viewer title lines scroll) ctrl code = viewer_key title lines scroll code
  overlay_key nothing ctrl code = pure tt

  unfoldable pub handle_overlay_key : Bool → KeyCode → Op Unit
  unfolding overlay_key
  handle_overlay_key ctrl code = gets (λ s. s.overlay) >>= λ o. overlay_key o ctrl code
