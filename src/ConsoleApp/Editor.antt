-- ===== src/ConsoleApp/Editor.antt =====
-- The text buffer of the console editor (`Editor` of src/console-app/src/editor.rs).
-- A line is a list of characters; the positions in it that the source computes are byte offsets, and
-- a position that is not on the boundary of a character panics, as does an index out of range.
pub mod Lines
pub mod Flat
pub mod Moves
mod Rows
pub mod Landing
pub mod Forward
pub mod Back
pub mod Keys
use app_full.Base.{
  ℕ, zero, suc, ◌+◌, ◌-◌, ◌<◌, Bool, true, false, List, [], ◌∷◌, ◌++◌, Option, none, some,
  if◌then◌else◌, ltb, ◌==◌, length, get_elem?, set, ◌≡◌, refl,
}
use app_full.Base.Texts.{Str}
use app_full.Base.Outcome.{Exec, ◌>>=◌, ◌>>◌, pure, gets, expect, modify}
use app_full.ConsoleApp.Chars.{
  Chars, len_utf8, byte_at, split_at_byte, insert_at_byte, remove_bytes, insert_line, remove_line,
  join_lines,
}

pub record Editor : Type 0 where
  pub path : Str
  pub title : Str
  pub lines : List Chars
  pub cx : ℕ
  pub cy : ℕ
  pub dirty : Bool
  pub status : Option Str

abbrev pub Op : Type 0 → Type 0
Op A = Exec Editor A

-- `&self.lines[y]`
unfoldable pub line_at : ℕ → Op Chars
line_at y s = expect (get_elem? s.lines y) s

-- A write to the line with the cursor, which was read before.
unfoldable pub set_line : Chars → Editor → Editor
set_line line s = record s { lines = set s.lines s.cy line }

unfoldable pub set_lines : List Chars → Editor → Editor
set_lines ls s = record s { lines = ls }

unfoldable pub move_to : ℕ → ℕ → Editor → Editor
move_to y x s = record s { cy = y; cx = x }

unfoldable pub mark_dirty : Editor → Editor
mark_dirty s = record s { dirty = true }

unfoldable pub cur_len : Op ℕ
unfolding line_at
cur_len = do y ← gets (λ s. s.cy); line ← line_at y; pure (length line)

unfoldable pub clamp_cx : Op Unit
unfolding cur_len
clamp_cx = do l ← cur_len; modify (λ s. if ltb l s.cx then record s { cx = l } else s)

unfoldable pub insert_char : ℕ → Op Unit
unfolding line_at byte_at insert_at_byte set_line mark_dirty
insert_char c = do
  x ← gets (λ s. s.cx)
  y ← gets (λ s. s.cy)
  line ← line_at y
  line' ← expect (insert_at_byte line (byte_at line x) c)
  modify (set_line line')
  modify (λ s. record s { cx = s.cx + 1 })
  modify mark_dirty

unfoldable pub newline : Op Unit
unfolding line_at byte_at split_at_byte set_line set_lines insert_line move_to mark_dirty
newline = do
  x ← gets (λ s. s.cx)
  y ← gets (λ s. s.cy)
  line ← line_at y
  parts ← expect (split_at_byte line (byte_at line x))
  modify (set_line parts.0)
  ls ← gets (λ s. s.lines)
  ls' ← expect (insert_line ls (y + 1) parts.1)
  modify (set_lines ls')
  modify (move_to (y + 1) 0)
  modify mark_dirty

-- `self.lines[self.cy].push_str(&text)`
unfoldable pub push_str : Chars → Op Unit
unfolding line_at set_line
push_str text = do y ← gets (λ s. s.cy); line ← line_at y; modify (set_line (line ++ text))

-- Takes the character at `x` out of the line with the cursor.
unfoldable pub remove_char : ℕ → Op Unit
unfolding line_at byte_at remove_bytes set_line
remove_char x = do
  y ← gets (λ s. s.cy)
  line ← line_at y
  line' ← expect (remove_bytes line (byte_at line x) (byte_at line (x + 1)))
  modify (set_line line')

-- The first branch of `backspace`, where `cx` is `suc x`, and the second, where `cy` is `suc y`.
unfoldable pub backspace_char : ℕ → Op Unit
unfolding remove_char
backspace_char x = remove_char x >> modify (λ s. record s { cx = x })

unfoldable pub backspace_line : ℕ → Op Unit
unfolding remove_line set_lines cur_len push_str
backspace_line y = do
  ls ← gets (λ s. s.lines)
  removed ← expect (remove_line ls (suc y))
  modify (set_lines removed.1)
  modify (λ s. record s { cy = y })
  l ← cur_len
  modify (λ s. record s { cx = l })
  push_str removed.0

unfoldable pub backspace_at : ℕ → ℕ → Op Unit
unfolding backspace_char backspace_line
backspace_at (suc x) y = backspace_char x
backspace_at zero (suc y) = backspace_line y
backspace_at zero zero = pure tt

unfoldable pub backspace : Op Unit
unfolding backspace_at mark_dirty
backspace = do x ← gets (λ s. s.cx); y ← gets (λ s. s.cy); backspace_at x y; modify mark_dirty

unfoldable pub delete_line : ℕ → Op Unit
unfolding remove_line set_lines push_str
delete_line y = do
  ls ← gets (λ s. s.lines)
  removed ← expect (remove_line ls (y + 1))
  modify (set_lines removed.1)
  push_str removed.0

unfoldable pub delete : Op Unit
unfolding cur_len remove_char delete_line mark_dirty
delete = do
  len ← cur_len
  x ← gets (λ s. s.cx)
  y ← gets (λ s. s.cy)
  count ← gets (λ s. length s.lines)
  if ltb x len then remove_char x else if ltb (y + 1) count then delete_line y else pure tt
  modify mark_dirty

-- `self.cy = y; self.cx = self.cur_len();`
unfoldable pub end_of_line : ℕ → Op Unit
unfolding cur_len
end_of_line y = do modify (λ s. record s { cy = y }); l ← cur_len; modify (λ s. record s { cx = l })

unfoldable pub left_of : ℕ → ℕ → Op Unit
unfolding end_of_line
left_of (suc x) y = modify (λ s. record s { cx = x })
left_of zero (suc y) = end_of_line y
left_of zero zero = pure tt

unfoldable pub left : Op Unit
unfolding left_of
left = do x ← gets (λ s. s.cx); y ← gets (λ s. s.cy); left_of x y

unfoldable pub right : Op Unit
unfolding cur_len move_to
right = do
  len ← cur_len
  x ← gets (λ s. s.cx)
  y ← gets (λ s. s.cy)
  count ← gets (λ s. length s.lines)
  if ltb x len
      then modify (λ s. record s { cx = s.cx + 1 })
      else if ltb (y + 1) count
      then modify (move_to (y + 1) 0)
      else pure tt

unfoldable pub up_from : ℕ → Op Unit
unfolding clamp_cx
up_from zero = pure tt
up_from (suc y) = modify (λ s. record s { cy = y }) >> clamp_cx

unfoldable pub up : Op Unit
unfolding up_from
up = gets (λ s. s.cy) >>= up_from

unfoldable pub down : Op Unit
unfolding clamp_cx
down = do
  y ← gets (λ s. s.cy)
  count ← gets (λ s. length s.lines)
  if ltb (y + 1) count then (modify (λ s. record s { cy = y + 1 }) >> clamp_cx) else pure tt

unfoldable pub text : Editor → Chars
unfolding join_lines
text s = join_lines s.lines

-- The keys that `handle_editor_key` passes to the buffer.
pub data Key : Type 0 where
  key_up : Key
  key_down : Key
  key_left : Key
  key_right : Key
  key_home : Key
  key_end : Key
  key_enter : Key
  key_backspace : Key
  key_delete : Key
  key_char : ℕ → Key

unfoldable pub press : Key → Op Unit
unfolding up down left right cur_len newline backspace delete insert_char
press key_up = up
press key_down = down
press key_left = left
press key_right = right
press key_home = modify (λ s. record s { cx = 0 })
press key_end = cur_len >>= λ l. modify (λ s. record s { cx = l })
press key_enter = newline
press key_backspace = backspace
press key_delete = delete
press (key_char c) = insert_char c
