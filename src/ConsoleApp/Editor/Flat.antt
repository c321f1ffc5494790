-- ===== src/ConsoleApp/Editor/Flat.antt =====
-- The editor as one text that is split at the cursor, and what each key does to it.
use app_full.Base.{
  ℕ, zero, suc, Bool, true, false, List, [], ◌∷◌, ◌++◌, if◌then◌else◌, ◌==◌, any, length, take,
  drop, ◌≡◌, refl, ap, sym, arith, append-nil, append_assoc,
}
use app_full.Base.Texts.{Lacks}
use app_full.ConsoleApp.Chars.{Chars, join_lines}
use app_full.ConsoleApp.Editor.{
  Key, key_up, key_down, key_left, key_right, key_home, key_end, key_enter, key_backspace,
  key_delete, key_char,
}
use app_full.ConsoleApp.Editor.Lines.{take-length, drop-length}

abbrev pub FlatText : Type 0
FlatText = Chars × Chars

-- Lines that each end with a newline, and that each start with one.
unfoldable pub ended : List Chars → Chars
ended [] = []
ended (l ∷ ls) = l ++ 10 ∷ ended ls

unfoldable pub started : List Chars → Chars
started [] = []
started (l ∷ ls) = 10 ∷ l ++ started ls

unfoldable pub before_cursor : List Chars → ℕ → ℕ → Chars
before_cursor [] y x = []
before_cursor (l ∷ ls) zero x = take x l
before_cursor (l ∷ ls) (suc y) x = l ++ 10 ∷ before_cursor ls y x

unfoldable pub behind_cursor : List Chars → ℕ → ℕ → Chars
unfolding started
behind_cursor [] y x = []
behind_cursor (l ∷ ls) zero x = drop x l ++ started ls
behind_cursor (l ∷ ls) (suc y) x = behind_cursor ls y x

abbrev pub has_newline : Chars → Bool
has_newline = any (λ c. c == 10)

-- A text up to its last newline, that newline included, and the text behind that.
unfoldable pub head_lines : Chars → Chars
head_lines [] = []
head_lines (c ∷ s) = let rest = head_lines s in if has_newline (c ∷ s) then c ∷ rest else []

unfoldable pub last_line : Chars → Chars
last_line [] = []
last_line (c ∷ s) = let rest = last_line s in if has_newline (c ∷ s) then rest else c ∷ s

-- A text up to its first newline, and the text from that newline on.
unfoldable pub first_line : Chars → Chars
first_line [] = []
first_line (c ∷ s) = let rest = first_line s in if c == 10 then [] else c ∷ rest

unfoldable pub later_lines : Chars → Chars
later_lines [] = []
later_lines (c ∷ s) = let rest = later_lines s in if c == 10 then c ∷ s else rest

unfoldable pub drop_last : Chars → Chars
drop_last [] = []
drop_last (c ∷ []) = []
drop_last (c ∷ d ∷ s) = c ∷ drop_last (d ∷ s)

-- The last character, as a text of at most one.
unfoldable pub last_char : Chars → Chars
last_char [] = []
last_char (c ∷ []) = c ∷ []
last_char (c ∷ d ∷ s) = last_char (d ∷ s)

-- To the previous line and the next one, at most as far to the right as the cursor stands.
unfoldable pub up_flat : FlatText → FlatText
unfolding head_lines last_line drop_last
up_flat (b, a) =
    let above = drop_last (head_lines b) in
    let x = length (last_line b) in
    (
      head_lines above ++ take x (last_line above),
      drop x (last_line above) ++ 10 ∷ (last_line b ++ a),
    )

unfoldable pub down_flat : Chars → FlatText → FlatText
unfolding first_line later_lines last_line
down_flat [] (b, a) = (b, a)
down_flat (newline ∷ rest) (b, a) =
    let x = length (last_line b) in
    (
      b ++ first_line a ++ newline ∷ take x (first_line rest),
      drop x (first_line rest) ++ later_lines rest,
    )

unfoldable pub edit : Key → FlatText → FlatText
unfolding up_flat down_flat head_lines last_line first_line later_lines drop_last last_char
edit key_up (b, a) = if has_newline b then up_flat (b, a) else (b, a)
edit key_down (b, a) = down_flat (later_lines a) (b, a)
edit key_left (b, a) = (drop_last b, last_char b ++ a)
edit key_right (b, a) = (b ++ take 1 a, drop 1 a)
edit key_home (b, a) = (head_lines b, last_line b ++ a)
edit key_end (b, a) = (b ++ first_line a, later_lines a)
edit key_enter (b, a) = (b ++ 10 ∷ [], a)
edit key_backspace (b, a) = (drop_last b, a)
edit key_delete (b, a) = (b, drop 1 a)
edit (key_char c) (b, a) = (b ++ c ∷ [], a)

-- At a line between other lines.
pub before_cursor-append :
    (xs ys : List Chars) (l r : Chars)
    → before_cursor (xs ++ (l ++ r) ∷ ys) (length xs) (length l) ≡ ended xs ++ l
unfolding before_cursor ended
before_cursor-append [] ys l r = take-length l r
before_cursor-append (x ∷ xs) ys l r =
    rw (before_cursor-append xs ys l r, append_assoc x (10 ∷ ended xs) l)

pub behind_cursor-append :
    (xs ys : List Chars) (l r : Chars)
    → behind_cursor (xs ++ (l ++ r) ∷ ys) (length xs) (length l) ≡ r ++ started ys
unfolding behind_cursor
behind_cursor-append [] ys l r = rw (drop-length l r)
behind_cursor-append (x ∷ xs) ys l r = behind_cursor-append xs ys l r

has_newline-append : (x s : Chars) → has_newline (x ++ 10 ∷ s) ≡ true
has_newline-append [] s = refl
has_newline-append (c ∷ x) s = ground (arith, has_newline-append x s)

pub has_newline-Lacks : (s : Chars) → Lacks 10 s → has_newline s ≡ false
has_newline-Lacks [] h = refl
has_newline-Lacks (c ∷ s) h = ground (arith, has_newline-Lacks s h.1)

head_lines-append : (x s : Chars) → head_lines (x ++ 10 ∷ s) ≡ x ++ 10 ∷ head_lines s
unfolding head_lines
head_lines-append [] s = refl
head_lines-append (c ∷ x) s = ground (arith, has_newline-append x s, head_lines-append x s)

last_line-append : (x s : Chars) → last_line (x ++ 10 ∷ s) ≡ last_line s
unfolding last_line
last_line-append [] s = refl
last_line-append (c ∷ x) s = ground (arith, has_newline-append x s, last_line-append x s)

head_lines-Lacks : (l : Chars) → Lacks 10 l → head_lines l ≡ []
unfolding head_lines
head_lines-Lacks [] h = refl
head_lines-Lacks (c ∷ l) h = rw (has_newline-Lacks (c ∷ l) h)

last_line-Lacks : (l : Chars) → Lacks 10 l → last_line l ≡ l
unfolding last_line
last_line-Lacks [] h = refl
last_line-Lacks (c ∷ l) h = rw (has_newline-Lacks (c ∷ l) h)

pub head_lines-ended :
    (xs : List Chars) (l : Chars) → Lacks 10 l → head_lines (ended xs ++ l) ≡ ended xs
unfolding ended
head_lines-ended [] l h = head_lines-Lacks l h
head_lines-ended (x ∷ xs) l h =
    rw (
      append_assoc x (10 ∷ ended xs) l,
      head_lines-append x (ended xs ++ l),
      head_lines-ended xs l h,
    )

pub last_line-ended : (xs : List Chars) (l : Chars) → Lacks 10 l → last_line (ended xs ++ l) ≡ l
unfolding ended
last_line-ended [] l h = last_line-Lacks l h
last_line-ended (x ∷ xs) l h =
    rw (append_assoc x (10 ∷ ended xs) l, last_line-append x (ended xs ++ l))
      (last_line-ended xs l h)

pub first_line-started :
    (r : Chars) (ys : List Chars) → Lacks 10 r → first_line (r ++ started ys) ≡ r
unfolding first_line started
first_line-started [] [] h = refl
first_line-started [] (y ∷ ys) h = refl
first_line-started (c ∷ r) ys h = ground (arith, first_line-started r ys h.1)

pub later_lines-started :
    (r : Chars) (ys : List Chars) → Lacks 10 r → later_lines (r ++ started ys) ≡ started ys
unfolding later_lines started
later_lines-started [] [] h = refl
later_lines-started [] (y ∷ ys) h = refl
later_lines-started (c ∷ r) ys h = ground (arith, later_lines-started r ys h.1)

pub drop_last_snoc : (s : Chars) (c : ℕ) → drop_last (s ++ c ∷ []) ≡ s
unfolding drop_last
drop_last_snoc [] c = refl
drop_last_snoc (d ∷ []) c = refl
drop_last_snoc (d ∷ e ∷ s) c = ap (λ r. d ∷ r) (drop_last_snoc (e ∷ s) c)

pub last_char_snoc : (s : Chars) (c : ℕ) → last_char (s ++ c ∷ []) ≡ c ∷ []
unfolding last_char
last_char_snoc [] c = refl
last_char_snoc (d ∷ []) c = refl
last_char_snoc (d ∷ e ∷ s) c = last_char_snoc (e ∷ s) c

pub ended-append : (xs : List Chars) (p : Chars) → ended (xs ++ p ∷ []) ≡ (ended xs ++ p) ++ 10 ∷ []
unfolding ended
ended-append [] p = refl
ended-append (x ∷ xs) p = rw (
  ended-append xs p,
  append_assoc x (10 ∷ ended xs) p,
  append_assoc x (10 ∷ (ended xs ++ p)) (10 ∷ []),
)

-- The text is what stands before the cursor with what stands behind it.
pub join_lines-append :
    (xs : List Chars) (m : Chars) (ys : List Chars)
    → join_lines (xs ++ m ∷ ys) ≡ ended xs ++ (m ++ started ys)
unfolding join_lines ended started
join_lines-append [] m [] = sym (append-nil m)
join_lines-append [] m (y ∷ ys) = ap (λ t. m ++ 10 ∷ t) (join_lines-append [] y ys)
join_lines-append (x ∷ []) m ys =
    rw (join_lines-append [] m ys, append_assoc x (10 ∷ []) (m ++ started ys))
join_lines-append (x ∷ z ∷ xs) m ys = rw (join_lines-append (z ∷ xs) m ys) (simp append_assoc)
