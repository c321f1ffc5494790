-- ===== src/ConsoleApp/App/RoundTrip.antt =====
-- Opening a file in the editor and saving it as it is.
use app_full.Base.{
  false, List, [], ◌∷◌, ◌++◌, All, some, length, ◌≡◌, refl, ◌∙◌, ltb, append_assoc, append-nil,
}
use app_full.Base.Texts.{Str, Lacks, codes}
use app_full.Base.Utf8.{encode, IsScalar}
use app_full.Base.Outcome.{ok, modify, ◌>>◌}
use app_full.ConsoleApp.Chars.{Chars, join_lines}
use app_full.ConsoleApp.Editor.{Editor, text}
use app_full.ConsoleApp.Util.{is_binary, to_lines, join_rel}
use app_full.ConsoleApp.Util.Lines.{join_lines-to_lines}
use app_full.ConsoleApp.App.{
  App, Row, Call, read, write, list, World, nothing, editor, pane_of, selected_row, ask, new_editor,
  max_bytes, open_editor, save, handle_editor_key, set_overlay, code_f, refresh, set_status,
  describe,
}
use app_full.ConsoleApp.App.Rules.{StartsWith, StartsWith-Lasts, Logged, attempt-at, Keeps-refresh}
use app_full.Base.Keeps.{Keeps-bind, Keeps-modify}

text-new_editor :
    (path title : Str) (ls : List Chars) → text (new_editor path title ls) ≡ join_lines ls
unfolding text new_editor
text-new_editor path title [] = refl
text-new_editor path title (l ∷ ls) = refl

path-new_editor : (path title : Str) (ls : List Chars) → (new_editor path title ls).path ≡ path
unfolding new_editor
path-new_editor path title [] = refl
path-new_editor path title (l ∷ ls) = refl

-- Saving writes the text of the editor first.
save-StartsWith :
    (world : World) (ed : Editor) (t : App)
    → StartsWith
        (t.calls ++ write t.active ed.path (encode (text ed)) ∷ [])
        (save world (editor ed) t).1.calls
unfolding save
save-StartsWith world ed t =
    let P : List Call → Type 0 =
      StartsWith (t.calls ++ write t.active ed.path (encode (text ed)) ∷ []) in
    let written : P (t.calls ++ write t.active ed.path (encode (text ed)) ∷ []) =
      ([], append-nil _) in
    let asked : App = record t {
      calls = t.calls ++ write t.active ed.path (encode (text ed)) ∷ [];
    } in
    attempt-at (Logged P)
      (ask (write t.active ed.path (encode (text ed)))
        (λ n. world.write_file n t.active ed.path (encode (text ed))))
      (λ _. refresh world t.active >> modify (set_overlay nothing))
      (λ e.
        modify
          (λ s. record s { overlay = set_status (codes "Save failed: " ++ describe e) s.overlay }))
      t written
      (λ _ _.
        (Keeps-bind (refresh world t.active) (λ _. modify (set_overlay nothing))
            (Keeps-refresh P world t.active (
              StartsWith-Lasts (t.calls ++ write t.active ed.path (encode (text ed)) ∷ [])
                (list t.active)))
            (λ _. Keeps-modify {P = Logged P} (set_overlay nothing) (λ s h. h))).at
          asked written)
      (λ e. written)

module _ (world : World) (s : App) (row : Row) (cs : Chars) where
  abbrev path : Str
  path = join_rel (pane_of s.active s).relative_path row.name

  abbrev opened : App
  opened = record s {
    overlay = editor (new_editor path row.name (to_lines (encode cs)));
    calls = s.calls ++ read s.active path ∷ [];
  }

  -- If the row is no folder and its file holds at most 4 MiB of UTF-8, with no zero among the first
  -- 8192 bytes, it is shown as its lines.
  open_editor-opened :
      selected_row (pane_of s.active s) ≡ some row
      → row.is_dir ≡ false
      → world.read_file (length s.calls) s.active path ≡ ok (encode cs)
      → ltb max_bytes (length (encode cs)) ≡ false
      → is_binary (encode cs) ≡ false
      → open_editor world s ≡ (ok tt, opened)
  unfolding open_editor
  open_editor-opened sel dir was_read small plain =
      rw sel (rw (dir) (rw was_read (rw (small, plain))))

  -- If the selected row is no folder and its file holds at most 4 MiB of UTF-8, with no carriage
  -- return, and no zero among the first 8192 bytes, then opening it in the editor and saving it with
  -- F2 first reads the file and then writes the same bytes to the same path.
  pub save-open_editor :
      selected_row (pane_of s.active s) ≡ some row
      → row.is_dir ≡ false
      → world.read_file (length s.calls) s.active path ≡ ok (encode cs)
      → All IsScalar cs
      → Lacks 13 cs
      → ltb max_bytes (length (encode cs)) ≡ false
      → is_binary (encode cs) ≡ false
      → StartsWith
          (s.calls ++ read s.active path ∷ write s.active path (encode cs) ∷ [])
          ((open_editor world >> handle_editor_key world false (code_f 2)) s).1.calls
  save-open_editor sel dir was_read h k small plain =
      let ed : Editor = new_editor path row.name (to_lines (encode cs)) in
      let (rest, e) = save-StartsWith world ed opened in
      let same : (s.calls ++ read s.active path ∷ write s.active path (encode cs) ∷ []) ++ rest
          ≡ (opened.calls ++ write s.active ed.path (encode (text ed)) ∷ []) ++ rest =
        rw (text-new_editor path row.name (to_lines (encode cs)), join_lines-to_lines cs h k)
          (rw (path-new_editor path row.name (to_lines (encode cs))) (simp append_assoc)) in
      rw (open_editor-opened sel dir was_read small plain)
        (unfold handle_editor_key in (rest, same ∙ e))
