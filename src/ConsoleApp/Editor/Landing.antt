-- ===== src/ConsoleApp/Editor/Landing.antt =====
-- A valid cursor as two parts of its line between other lines, and what a key has to be shown to do.
use app_full.Base.{
  ℕ, zero, suc, ◌≤◌, Bool, true, false, ◌||◌, List, [], ◌∷◌, ◌++◌, Option, none, some, length,
  get_elem?, take, drop, take-append-drop, length-append, All, All-append, ◌≡◌, ◌≢◌, refl, sym, ap,
  ◌∙◌, arith, append_assoc,
}
use app_full.Base.Outcome.{ok}
use app_full.Base.Texts.{Lacks}
use app_full.ConsoleApp.Chars.{Chars, join_lines}
use app_full.ConsoleApp.Editor.{
  Editor, Key, key_enter, key_backspace, key_delete, key_char, press, text,
}
use app_full.ConsoleApp.Editor.Flat.{
  FlatText, ended, started, before_cursor, behind_cursor, edit, before_cursor-append,
  behind_cursor-append, join_lines-append,
}
use app_full.ConsoleApp.Editor.Moves.{put, done}

abbrev pub Within : Option Chars → ℕ → Type 0
Within none x = ⊥
Within (some l) x = x ≤ length l

-- The cursor stands in a line or at its end, and no line holds a newline.
pub record IsValid (s : Editor) : Type 0 where
  pub cursor : Within (get_elem? s.lines s.cy) s.cx
  pub plain : All (Lacks 10) s.lines

abbrev pub split_text : List Chars → ℕ → ℕ → FlatText
split_text ls y x = (before_cursor ls y x, behind_cursor ls y x)

abbrev pub flat : Editor → FlatText
flat s = split_text s.lines s.cy s.cx

-- A key with a character brings no newline.
abbrev pub IsTyped : Key → Type 0
IsTyped (key_char c) = c ≢ 10
IsTyped k = Unit

abbrev pub is_edit : Key → Bool
is_edit (key_char c) = true
is_edit key_enter = true
is_edit key_backspace = true
is_edit key_delete = true
is_edit k = false

-- The text on both sides of the cursor.
abbrev pub whole : FlatText → Chars
whole t = t.0 ++ t.1

abbrev pub Behaves : Key → Editor → Type 0
Behaves k s =
    ((press k s).0 ≡ ok tt)
    × IsValid (press k s).1
    × (flat (press k s).1 ≡ edit k (flat s))
    × (text (press k s).1 ≡ whole (edit k (flat s)))
    × ((press k s).1.dirty ≡ (is_edit k || s.dirty))

-- A cursor within its line has lines before it and behind it, and two parts of its line.
pub split_row :
    (ls : List Chars) (y x : ℕ)
    → Within (get_elem? ls y) x
    → (xs : List Chars) × (l : Chars) × (r : Chars) × (ys : List Chars) × (xs ++ (l ++ r) ∷ ys ≡ ls)
      × (length xs ≡ y)
      × (length l ≡ x)
split_row [] y x h = absurd h
split_row (l ∷ ls) zero x h = (
  [],
  take x l,
  drop x l,
  ls,
  ap (λ t. t ∷ ls) (take-append-drop x l),
  refl,
  length-take_le x l h,
)
  where
    length-take_le : (n : ℕ) (t : Chars) → n ≤ length t → length (take n t) ≡ n
    length-take_le zero t k = refl
    length-take_le (suc n) [] k = absurd (omega arith)
    length-take_le (suc n) (c ∷ t) k = ap suc (length-take_le n t (omega arith))
split_row (m ∷ ls) (suc y) x h =
    let (xs, l, r, ys, e, f, g) = split_row ls y x h in
    (m ∷ xs, l, r, ys, ap (λ t. m ∷ t) e, ap suc f, g)

pub Within-append :
    (xs ys : List Chars) (l r : Chars)
    → Within (get_elem? (xs ++ (l ++ r) ∷ ys) (length xs)) (length l)
Within-append [] ys l r = omega (arith, length-append l r)
Within-append (x ∷ xs) ys l r = Within-append xs ys l r

pub All-split : (P : Chars → Type 0) (xs ys : List Chars) → All P (xs ++ ys) → All P xs × All P ys
All-split P [] ys h = (tt, h)
All-split P (x ∷ xs) ys h = let (a, b) = All-split P xs ys h.1 in ((h.0, a), b)

pub Lacks-split : (l r : Chars) → Lacks 10 (l ++ r) → Lacks 10 l × Lacks 10 r
Lacks-split [] r h = (tt, h)
Lacks-split (c ∷ l) r h = let (a, b) = Lacks-split l r h.1 in ((h.0, a), b)

pub flat-append :
    (xs : List Chars) (l r : Chars) (ys : List Chars)
    → split_text (xs ++ (l ++ r) ∷ ys) (length xs) (length l) ≡ (ended xs ++ l, r ++ started ys)
flat-append xs l r ys = λ i. (before_cursor-append xs ys l r i, behind_cursor-append xs ys l r i)

-- Lines with no newline, that of the cursor in two parts.
pub record Plain (xs : List Chars) (l r : Chars) (ys : List Chars) : Type 0 where
  pub above : All (Lacks 10) xs
  pub before : Lacks 10 l
  pub behind : Lacks 10 r
  pub below : All (Lacks 10) ys

abbrev pub plain :
    {xs : List Chars} {l r : Chars} {ys : List Chars}
    → All (Lacks 10) xs
    → Lacks 10 l
    → Lacks 10 r
    → All (Lacks 10) ys
    → Plain xs l r ys
plain a b c d = record { above = a; before = b; behind = c; below = d }

pub All-Plain :
    {xs : List Chars} {l r : Chars} {ys : List Chars}
    → Plain xs l r ys
    → All (Lacks 10) (xs ++ (l ++ r) ∷ ys)
All-Plain {xs} {l} {r} {ys} p =
    All-append (Lacks 10) xs ((l ++ r) ∷ ys) p.above
      (All-append (λ c. c ≢ 10) l r p.before p.behind, p.below)

-- Where the cursor stands, where it lands, and what the text becomes.
module _ (k : Key) (s : Editor) (xs : List Chars) (l r : Chars) (ys : List Chars) where
  abbrev pub here : Editor
  here = put s (xs ++ (l ++ r) ∷ ys) (length xs) (length l)

  pub lands :
      (s' : Editor) (ls : List Chars) (y x : ℕ) (xs' : List Chars) (l' r' : Chars)
      (ys' : List Chars)
      → press k here ≡ done (put s' ls y x)
      → xs' ++ (l' ++ r') ∷ ys' ≡ ls
      → length xs' ≡ y
      → length l' ≡ x
      → Plain xs' l' r' ys'
      → (ended xs' ++ l', r' ++ started ys') ≡ edit k (ended xs ++ l, r ++ started ys)
      → s'.dirty ≡ (is_edit k || s.dirty)
      → Behaves k here
  unfolding text
  lands s' ls y x xs' l' r' ys' runs el ey ex rows flat_text dirty =
      let el' : ls ≡ xs' ++ (l' ++ r') ∷ ys' = sym el in
      let regroup : ended xs' ++ ((l' ++ r') ++ started ys')
          ≡ (ended xs' ++ l') ++ (r' ++ started ys') =
        simp append_assoc in
      rw (runs) (
        refl,
        rw (← el, ← ey, ← ex)
            (record { cursor = Within-append xs' ys' l' r'; plain = All-Plain rows }),
        sym (λ i. split_text (el i) (ey i) (ex i))
            ∙ flat-append xs' l' r' ys'
            ∙ flat_text
            ∙ ap (edit k) (sym (flat-append xs l r ys)),
        (λ i. join_lines (el' i))
            ∙ join_lines-append xs' (l' ++ r') ys'
            ∙ regroup
            ∙ ap whole (flat_text ∙ ap (edit k) (sym (flat-append xs l r ys))),
        dirty,
      )
