-- ===== src/ConsoleApp/Editor/Keys.antt =====
-- A key of the console editor does to the lines and the cursor what `edit` does to the text that is
-- split at the cursor.
use app_full.Base.{ℕ, ◌||◌, List, [], ◌∷◌, ◌++◌, All, ◌≡◌, sym, subst, inl, inr}
use app_full.Base.Outcome.{ok}
use app_full.Base.Texts.{Lacks}
use app_full.ConsoleApp.Chars.{Chars}
use app_full.ConsoleApp.Editor.{
  Editor, Key, key_up, key_down, key_left, key_right, key_home, key_end, key_enter, key_backspace,
  key_delete, key_char, press, text,
}
use app_full.ConsoleApp.Editor.Lines.{snoc_cases}
use app_full.ConsoleApp.Editor.Flat.{edit}
use app_full.ConsoleApp.Editor.Landing.{
  IsValid, IsTyped, is_edit, flat, whole, Behaves, Plain, plain, here, split_row, All-split,
  Lacks-split,
}
use app_full.ConsoleApp.Editor.Forward.{
  char-Behaves, enter-Behaves, delete-Behaves, right-Behaves, home-Behaves, end-Behaves,
  down_line-Behaves, down_none-Behaves,
}
use app_full.ConsoleApp.Editor.Back.{
  backspace_char-Behaves, backspace_line-Behaves, backspace_none-Behaves, left_char-Behaves,
  left_line-Behaves, left_none-Behaves, up_line-Behaves, up_none-Behaves,
}

-- A proof for each place that the cursor can have: behind a character, at the start of a line that is
-- not the first, and at the start of the text.
module _ (k : Key) (s : Editor) (ys : List Chars) where
  by_place :
      ((xs : List Chars) (l r : Chars) (c : ℕ)
        → Plain xs (l ++ c ∷ []) r ys
        → Behaves k (here k s xs (l ++ c ∷ []) r ys))
      → ((xs : List Chars) (q r : Chars)
          → Plain (xs ++ q ∷ []) [] r ys
          → Behaves k (here k s (xs ++ q ∷ []) [] r ys))
      → ((r : Chars) → Plain [] [] r ys → Behaves k (here k s [] [] r ys))
      → (xs : List Chars) (l r : Chars) → Plain xs l r ys
      → Behaves k (here k s xs l r ys)
  by_place at_char at_line at_start xs l r p = elim (snoc_cases l) [
    | inr (l0, c, e) ↦
        subst (λ t. Plain xs t r ys → Behaves k (here k s xs t r ys)) (sym e) (at_char xs l0 r c) p
    | inl e ↦
        subst (λ t. Plain xs t r ys → Behaves k (here k s xs t r ys)) (sym e)
          (elim (snoc_cases xs) [
            | inr (ws, q, f) ↦
                subst (λ t. Plain t [] r ys → Behaves k (here k s t [] r ys)) (sym f)
                  (at_line ws q r)
            | inl f ↦
                subst (λ t. Plain t [] r ys → Behaves k (here k s t [] r ys)) (sym f) (at_start r)
          ])
          p
  ]

key-Behaves :
    (k : Key) (s : Editor) (xs : List Chars) (l r : Chars) (ys : List Chars)
    → IsTyped k
    → Plain xs l r ys
    → Behaves k (here k s xs l r ys)
key-Behaves key_up s xs l r ys t p = elim (snoc_cases xs) [
  | inr (ws, q, f) ↦
      subst (λ v. Plain v l r ys → Behaves key_up (here key_up s v l r ys)) (sym f)
        (up_line-Behaves s ys ws q l r) p
  | inl f ↦
      subst (λ v. Plain v l r ys → Behaves key_up (here key_up s v l r ys)) (sym f)
        (up_none-Behaves s ys l r) p
]
key-Behaves key_down s xs l r [] t p = down_none-Behaves s xs l r p
key-Behaves key_down s xs l r (m ∷ ys) t p = down_line-Behaves s xs l r m ys p
key-Behaves key_left s xs l r ys t p =
    by_place key_left s ys (left_char-Behaves s ys) (left_line-Behaves s ys)
      (left_none-Behaves s ys) xs l r p
key-Behaves key_right s xs l r ys t p = right-Behaves s xs l r ys p
key-Behaves key_home s xs l r ys t p = home-Behaves s xs l r ys p
key-Behaves key_end s xs l r ys t p = end-Behaves s xs l r ys p
key-Behaves key_enter s xs l r ys t p = enter-Behaves s xs l r ys p
key-Behaves key_backspace s xs l r ys t p =
    by_place key_backspace s ys (backspace_char-Behaves s ys) (backspace_line-Behaves s ys)
      (backspace_none-Behaves s ys) xs l r p
key-Behaves key_delete s xs l r ys t p = delete-Behaves s xs l r ys p
key-Behaves (key_char c) s xs l r ys t p = char-Behaves s xs c l r ys t p

-- If the cursor stands in the text, no line holds a newline and no newline is typed, a key ends with
-- no panic, leaves such an editor, does to the text before and behind the cursor what it does to one
-- text that is split at the cursor, whose two parts are then the text of the editor, and marks the editor as changed if and only if it is a key that
-- edits or the editor was marked before.
pub press-edit :
    (k : Key) (s : Editor)
    → IsTyped k
    → IsValid s
    → ((press k s).0 ≡ ok tt)
      × IsValid (press k s).1
      × (flat (press k s).1 ≡ edit k (flat s))
      × (text (press k s).1 ≡ whole (edit k (flat s)))
      × ((press k s).1.dirty ≡ (is_edit k || s.dirty))
press-edit k s t v =
    let (xs, l, r, ys, e, f, g) = split_row s.lines s.cy s.cx v.cursor in
    let whole : All (Lacks 10) (xs ++ (l ++ r) ∷ ys) = rw e v.plain in
    let (a, b) = All-split (Lacks 10) xs ((l ++ r) ∷ ys) whole in
    let (c, d) = Lacks-split l r b.0 in
    subst (Behaves k) (λ i. record s { lines = e i; cy = f i; cx = g i })
      (key-Behaves k s xs l r ys t (plain a c d b.1))
