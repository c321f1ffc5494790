-- ===== src/ViewerUi/Document.antt =====
-- The document of the viewer and its formats (src/ui-common/viewer-ui/src/content.rs). What the text
-- buffer holds behind `set_text`, which deletes the contents that it had, is a parameter: GTK takes no
-- text with a zero. A picture that is shown is left out.
pub mod Edited
pub mod Picture
pub mod HexEdits
use app_full.Base.{
  ℕ, Bool, true, false, not, ◌&&◌, ◌||◌, List, [], ◌∷◌, if◌then◌else◌, ◌==◌, any, Option, none,
  some,
}
use app_full.Base.Texts.{str_eq}
use app_full.Base.Utf8.{encode, decode}
use app_full.ViewerUi.Encoding.{
  Format, image, utf8, ansi, hex, encode_windows_1251, get_text_for_format,
}

pub data Mode : Type 0 where
  view : Mode
  edit : Mode

-- `is_new` holds when there is no path.
pub record Document : Type 0 where
  pub read_only : Bool
  pub mode : Mode
  pub is_new : Bool
  pub save_sensitive : Bool
  pub format : Format
  pub last_text_format : Format
  pub is_modified : Bool
  pub buffer : List ℕ
  pub hex_bytes : List ℕ
  pub original : List ℕ

pub data Event : Type 0 where
  selects : Format → Event
  edits_hex : List ℕ → Event
  switches : Mode → Event

unfoldable pub format_eq : Format → Format → Bool
format_eq image image = true
format_eq utf8 utf8 = true
format_eq ansi ansi = true
format_eq hex hex = true
format_eq f g = false

unfoldable pub is_edit : Mode → Bool
is_edit view = false
is_edit edit = true

-- `std::str::from_utf8(&bytes).is_ok()`
unfoldable pub is_utf8 : List ℕ → Bool
unfolding str_eq
is_utf8 bytes = str_eq (encode (decode bytes)) bytes

unfoldable pub initial_format : Bool → List ℕ → Format
unfolding is_utf8
initial_format is_image bytes =
    if is_image then image else if is_utf8 bytes && not (any (λ b. b == 0) bytes) then utf8 else hex

unfoldable pub text_format : Format → Format
text_format image = hex
text_format utf8 = utf8
text_format ansi = ansi
text_format hex = hex

unfoldable pub initial_mode : Bool → Bool → Bool → Mode
initial_mode is_image read_only start_in_edit_mode =
    if is_image || read_only then view else if start_in_edit_mode then edit else view

unfoldable pub update_save_sensitivity : Document → Document
update_save_sensitivity d = record d { save_sensitive = d.is_modified || d.is_new }

-- The bytes of what is shown in a format: `bytes_converted` and `save_bytes`.
unfoldable pub bytes_in : Format → Document → List ℕ
unfolding encode_windows_1251
bytes_in utf8 d = encode d.buffer
bytes_in ansi d = encode_windows_1251 d.buffer
bytes_in hex d = d.hex_bytes
bytes_in image d = d.original

unfoldable pub remember : Format → Document → Document
remember image d = d
remember utf8 d = record d { last_text_format = utf8 }
remember ansi d = record d { last_text_format = ansi }
remember hex d = record d { last_text_format = hex }

-- `is_modified_cb.set(false)` in the last branch.
unfoldable pub reloaded : Format → Document → Document
reloaded image d = d
reloaded hex d = d
reloaded utf8 d = record d { is_modified = false }
reloaded ansi d = record d { is_modified = false }

unfoldable pub set_format : Format → Document → Document
set_format new_fmt d = record d { format = new_fmt }

-- The signals of a changed text and of changed bytes.
unfoldable pub edit_text : List ℕ → Document → Document
unfolding update_save_sensitivity
edit_text text d = update_save_sensitivity (record d { buffer = text; is_modified = true })

-- The callback behind it, `hex_changed_ui`, is never set: the button is not updated.
unfoldable pub edit_hex : List ℕ → Document → Document
edit_hex bytes d = record d { hex_bytes = bytes; is_modified = true }

-- F3 and F4; the buttons do no more where they are visible.
unfoldable pub select_mode : Mode → Document → Document
unfolding format_eq
select_mode view d = record d { mode = view }
select_mode edit d =
    if not (format_eq d.format image) && not d.read_only then record d { mode = edit } else d

unfoldable pub parse_format : Document → Format
unfolding format_eq
parse_format d = if format_eq d.format image then d.last_text_format else d.format

-- The bytes that are saved.
unfoldable pub save_bytes : Document → List ℕ
unfolding parse_format bytes_in
save_bytes d = bytes_in (parse_format d) d

-- The button is visible and sensitive.
unfoldable pub can_save : Document → Bool
unfolding is_edit format_eq
can_save d = (is_edit d.mode && not (format_eq d.format image)) && d.save_sensitive

-- A click on the button: the bytes to write, if the button takes it.
unfoldable pub click_save : Document → Option (List ℕ)
unfolding can_save save_bytes
click_save d = if can_save d then some (save_bytes d) else none

module _ (set_text : List ℕ → List ℕ) where
  unfoldable pub initial_text : Format → List ℕ → List ℕ
  unfolding get_text_for_format
  initial_text image bytes = []
  initial_text hex bytes = []
  initial_text utf8 bytes = set_text (get_text_for_format utf8 bytes)
  initial_text ansi bytes = set_text (get_text_for_format ansi bytes)

  -- The document of a file that is opened.
  unfoldable pub opened : Bool → Bool → Bool → Bool → List ℕ → Document
  unfolding initial_mode initial_format text_format initial_text update_save_sensitivity
  opened read_only start_in_edit_mode is_new is_image bytes = update_save_sensitivity (record {
    read_only = read_only;
    mode = initial_mode is_image read_only start_in_edit_mode;
    is_new = is_new;
    save_sensitive = true;
    format = initial_format is_image bytes;
    last_text_format = text_format (initial_format is_image bytes);
    is_modified = false;
    buffer = initial_text (initial_format is_image bytes) bytes;
    hex_bytes = bytes;
    original = bytes;
  })

  -- Bytes are shown in the new format.
  unfoldable pub show_bytes : Format → List ℕ → Document → Document
  unfolding get_text_for_format
  show_bytes image bytes d = d
  show_bytes hex bytes d = record d { hex_bytes = bytes }
  show_bytes utf8 bytes d = record d { buffer = set_text (get_text_for_format utf8 bytes) }
  show_bytes ansi bytes d = record d { buffer = set_text (get_text_for_format ansi bytes) }

  unfoldable pub converted : Format → Document → Document
  unfolding bytes_in show_bytes reloaded
  converted new_fmt d =
      if d.is_modified
      then show_bytes new_fmt (bytes_in d.format d) d
      else reloaded new_fmt (show_bytes new_fmt d.original d)

  -- Another format is selected.
  unfoldable pub select_format : Format → Document → Document
  unfolding format_eq remember converted set_format
  select_format new_fmt d =
      if format_eq new_fmt d.format
      then d
      else set_format new_fmt (converted new_fmt (remember new_fmt d))

  unfoldable pub select_formats : List Format → Document → Document
  unfolding select_format
  select_formats [] d = d
  select_formats (f ∷ fs) d = select_formats fs (select_format f d)

  -- One event of the window that is no change of the text.
  unfoldable pub run_event : Event → Document → Document
  unfolding select_format edit_hex select_mode
  run_event (selects f) = select_format f
  run_event (edits_hex bytes) = edit_hex bytes
  run_event (switches m) = select_mode m

  unfoldable pub run_events : List Event → Document → Document
  unfolding run_event
  run_events [] d = d
  run_events (e ∷ es) d = run_events es (run_event e d)
