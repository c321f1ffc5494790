-- ===== src/ConsoleApp/Tests.antt =====
-- Runs of the console editor and its file operations, and instances of their theorems.
use app_full.Base.{ℕ, true, false, List, [], ◌∷◌, ◌++◌, none, ◌≡◌, refl, arith, All, ◌||◌}
use app_full.Base.Texts.{Str, codes}
use app_full.Base.Utf8.{encode, decode, next_char, within, follows, second3, second4, IsScalar}
use app_full.Base.Outcome.{ok, pure, ◌>>◌}
use app_full.ConsoleApp.Chars.{Chars}
use app_full.ConsoleApp.Editor.{
  Editor, insert_char, newline, backspace, delete, up, key_backspace, press, text,
}
use app_full.ConsoleApp.Editor.Landing.{IsValid, flat, whole, is_edit}
use app_full.ConsoleApp.Editor.Flat.{edit}
use app_full.ConsoleApp.Editor.Keys.{press-edit}
use app_full.ConsoleApp.Util.{to_lines, is_binary, join_rel}
use app_full.ConsoleApp.App.{
  App, Pane, Row, World, read, write, remove, nothing, code_f, code_enter, pane_of, selected_row,
  open_editor, handle_editor_key,
}
use app_full.ConsoleApp.App.Rules.{StartsWith}
use app_full.ConsoleApp.App.RoundTrip.{save-open_editor}
use app_full.ConsoleApp.Overlays.{handle_overlay_key}
use app_full.ConsoleApp.FileOps.{prompt_transfer, do_transfer}
use app_full.ConsoleApp.FileOps.Transfers.{Allowed, removals-do_transfer}
use app_full.ConsoleApp.Overlays.SelfMove.{self_move}

abbrev editor_at : List Chars → ℕ → ℕ → Editor
editor_at ls y x = record {
  path = codes "/notes.txt";
  title = codes "notes.txt";
  lines = ls;
  cx = x;
  cy = y;
  dirty = false;
  status = none;
}

-- Three letters of two bytes each, and one in the middle.
test_insert_multibyte :
    (insert_char b'-' (editor_at ((0x43f ∷ 0x440 ∷ 0x438 ∷ []) ∷ []) 0 1)).1.lines
    ≡ (0x43f ∷ b'-' ∷ 0x440 ∷ 0x438 ∷ []) ∷ []
unfolding insert_char
test_insert_multibyte = refl

test_newline :
    (newline (editor_at (codes "hello" ∷ []) 0 2)).1.lines ≡ codes "he" ∷ codes "llo" ∷ []
unfolding newline
test_newline = refl

test_backspace_joins :
    (backspace (editor_at (codes "ab" ∷ codes "cd" ∷ []) 1 0)).1.lines ≡ codes "abcd" ∷ []
unfolding backspace
test_backspace_joins = refl

test_delete_joins :
    (delete (editor_at (codes "ab" ∷ codes "cd" ∷ []) 0 2)).1.lines ≡ codes "abcd" ∷ []
unfolding delete
test_delete_joins = refl

test_up_clamps : (up (editor_at (codes "ab" ∷ codes "longer" ∷ []) 1 5)).1.cx ≡ 2
unfolding up
test_up_clamps = refl

test_to_lines :
    to_lines (codes "a" ++ 13 ∷ 10 ∷ codes "b" ++ 10 ∷ []) ≡ codes "a" ∷ codes "b" ∷ [] ∷ []
unfolding to_lines next_char within follows second3 second4
test_to_lines = refl

-- Bytes that no character starts with are replaced.
test_lossy : decode (0xff ∷ 0xe2 ∷ 0x82 ∷ b'x' ∷ []) ≡ 0xfffd ∷ 0xfffd ∷ b'x' ∷ []
unfolding decode next_char within follows second3 second4
test_lossy = refl

test_join_rel : join_rel (codes "/home/user/") (codes "f") ≡ codes "/home/user/f"
unfolding join_rel
test_join_rel = refl

abbrev two_lines : Editor
two_lines = editor_at (codes "ab" ∷ codes "cd" ∷ []) 1 0

two_lines-IsValid : IsValid two_lines
two_lines-IsValid = record { cursor = omega arith; plain = omega arith }

press-edit_example :
    ((press key_backspace two_lines).0 ≡ ok tt)
    × IsValid (press key_backspace two_lines).1
    × (flat (press key_backspace two_lines).1 ≡ edit key_backspace (flat two_lines))
    × (text (press key_backspace two_lines).1 ≡ whole (edit key_backspace (flat two_lines)))
    × ((press key_backspace two_lines).1.dirty ≡ (is_edit key_backspace || two_lines.dirty))
press-edit_example = press-edit key_backspace two_lines tt two_lines-IsValid

abbrev note : Row
note = record { name = codes "note"; is_dir = false; is_parent = false }

abbrev pane : Pane
pane = record {
  rows = note ∷ [];
  cursor = 0;
  relative_path = codes "/d";
  absolute_path = codes "/home/d";
}

abbrev started : App
started = record { active = false; first = pane; second = pane; overlay = nothing; calls = [] }

abbrev note_text : Chars
note_text = codes "hi" ++ 10 ∷ []

abbrev world : World
world = record {
  read_file = λ n side path. ok (encode note_text);
  write_file = λ n side path bytes. ok tt;
  create_directory = λ n side base name. ok tt;
  rename_entry = λ n side from to. ok tt;
  delete_entries = λ n side paths. ok tt;
  refresh = λ n side p. ok p;
  activate_source = λ n. pure tt;
}

abbrev note_path : Str
note_path = join_rel (pane_of false started).relative_path note.name

removals-do_transfer_example :
    All
      (Allowed world started true (codes "/d/note") (codes "/e/note"))
      (do_transfer world true (codes "/d/note") (codes "/e/note") started).1.calls
removals-do_transfer_example =
    removals-do_transfer world started true (codes "/d/note") (codes "/e/note") tt

self_move_example :
    StartsWith
      (read false note_path
        ∷ write true note_path (encode note_text)
        ∷ remove false (note_path ∷ [])
        ∷ [])
      ((prompt_transfer true >> handle_overlay_key world false code_enter) started).1.calls
unfolding pane_of selected_row
self_move_example = self_move world started note (encode note_text) refl refl refl refl refl refl

note_text-IsScalar : All IsScalar note_text
note_text-IsScalar = omega arith

save-open_editor_example :
    StartsWith
      (read false note_path ∷ write false note_path (encode note_text) ∷ [])
      ((open_editor world >> handle_editor_key world false (code_f 2)) started).1.calls
unfolding pane_of selected_row encode is_binary
save-open_editor_example =
    save-open_editor world started note note_text refl refl refl note_text-IsScalar (omega arith)
      refl refl
