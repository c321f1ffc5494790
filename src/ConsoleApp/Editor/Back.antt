-- ===== src/ConsoleApp/Editor/Back.antt =====
-- The keys that look at what stands in front of the cursor.
use app_full.Base.{
  ℕ, List, [], ◌∷◌, ◌++◌, length, take, drop, take-append-drop, length-append, All-append, ◌≢◌,
  refl, append_assoc, append-nil,
}
use native.Mathlib.Numerals.{add-one}
use app_full.Base.Texts.{Lacks}
use app_full.ConsoleApp.Chars.{Chars}
use app_full.ConsoleApp.Editor.{Editor, key_up, key_left, key_backspace, press, mark_dirty}
use app_full.ConsoleApp.Editor.Flat.{
  ended, started, edit, drop_last_snoc, last_char_snoc, ended-append, has_newline-Lacks,
}
use app_full.ConsoleApp.Editor.Moves.{backspace_here, backspace_previous, left_previous, up-put}
use app_full.ConsoleApp.Editor.Landing.{Behaves, Plain, plain, here, lands, All-split, Lacks-split}
use app_full.ConsoleApp.Editor.Rows.{edit-up}

module _ (s : Editor) (ys : List Chars) where
  pub backspace_char-Behaves :
      (xs : List Chars) (l r : Chars) (c : ℕ)
      → Plain xs (l ++ c ∷ []) r ys
      → Behaves key_backspace (here key_backspace s xs (l ++ c ∷ []) r ys)
  unfolding press edit
  backspace_char-Behaves xs l r c p =
      lands key_backspace s xs (l ++ c ∷ []) r ys (mark_dirty s) (xs ++ (l ++ r) ∷ ys) (length xs)
        (length l) xs l r ys
        (rw (append_assoc l (c ∷ []) r, length-append l (c ∷ []), add-one)
          (backspace_here s xs l r ys c))
        refl refl refl (plain p.above (Lacks-split l (c ∷ []) p.before).0 p.behind p.below)
        (rw (← append_assoc (ended xs) l (c ∷ []), drop_last_snoc)) refl

  pub backspace_line-Behaves :
      (xs : List Chars) (q r : Chars)
      → Plain (xs ++ q ∷ []) [] r ys
      → Behaves key_backspace (here key_backspace s (xs ++ q ∷ []) [] r ys)
  unfolding press edit
  backspace_line-Behaves xs q r p =
      let (a, b) = All-split (Lacks 10) xs (q ∷ []) p.above in
      lands key_backspace s (xs ++ q ∷ []) [] r ys (mark_dirty s) (xs ++ (q ++ r) ∷ ys) (length xs)
        (length q) xs q r ys
        (rw (append_assoc xs (q ∷ []) (r ∷ ys), length-append xs (q ∷ []), add-one)
          (backspace_previous s xs q r ys))
        refl refl refl (plain a b.0 p.behind p.below)
        (rw (append-nil (ended (xs ++ q ∷ [])), ended-append xs q, drop_last_snoc)) refl

  pub backspace_none-Behaves :
      (r : Chars) → Plain [] [] r ys → Behaves key_backspace (here key_backspace s [] [] r ys)
  unfolding press edit ended
  backspace_none-Behaves r p =
      lands key_backspace s [] [] r ys (mark_dirty s) (r ∷ ys) 0 0 [] [] r ys refl refl refl refl p
        refl refl

  pub left_char-Behaves :
      (xs : List Chars) (l r : Chars) (c : ℕ)
      → Plain xs (l ++ c ∷ []) r ys
      → Behaves key_left (here key_left s xs (l ++ c ∷ []) r ys)
  unfolding press edit
  left_char-Behaves xs l r c p =
      let (a, b) = Lacks-split l (c ∷ []) p.before in
      lands key_left s xs (l ++ c ∷ []) r ys s (xs ++ ((l ++ c ∷ []) ++ r) ∷ ys) (length xs)
        (length l) xs l (c ∷ r) ys (rw (length-append l (c ∷ []), add-one))
        (rw (append_assoc l (c ∷ []) r)) refl refl (plain p.above a (b.0, p.behind) p.below)
        (rw (← append_assoc (ended xs) l (c ∷ []), drop_last_snoc, last_char_snoc)) refl

  pub left_line-Behaves :
      (xs : List Chars) (q r : Chars)
      → Plain (xs ++ q ∷ []) [] r ys
      → Behaves key_left (here key_left s (xs ++ q ∷ []) [] r ys)
  unfolding press edit started
  left_line-Behaves xs q r p =
      let (a, b) = All-split (Lacks 10) xs (q ∷ []) p.above in
      lands key_left s (xs ++ q ∷ []) [] r ys s (xs ++ q ∷ r ∷ ys) (length xs) (length q) xs q []
        (r ∷ ys)
        (rw (append_assoc xs (q ∷ []) (r ∷ ys), length-append xs (q ∷ []), add-one)
          (left_previous s xs q r ys))
        (rw (append-nil q)) refl refl (plain a b.0 tt (p.behind, p.below))
        (rw (append-nil (ended (xs ++ q ∷ [])), ended-append xs q, drop_last_snoc, last_char_snoc))
        refl

  pub left_none-Behaves :
      (r : Chars) → Plain [] [] r ys → Behaves key_left (here key_left s [] [] r ys)
  unfolding press edit ended
  left_none-Behaves r p =
      lands key_left s [] [] r ys s (r ∷ ys) 0 0 [] [] r ys refl refl refl refl p refl refl

  pub up_line-Behaves :
      (xs : List Chars) (q l r : Chars)
      → Plain (xs ++ q ∷ []) l r ys
      → Behaves key_up (here key_up s (xs ++ q ∷ []) l r ys)
  unfolding press started
  up_line-Behaves xs q l r p =
      let (a, b) = All-split (Lacks 10) xs (q ∷ []) p.above in
      let n = length l in
      let (c, d) = Lacks-split (take n q) (drop n q) (rw (take-append-drop n q) b.0) in
      lands key_up s (xs ++ q ∷ []) l r ys s (xs ++ q ∷ (l ++ r) ∷ ys) (length xs)
        (length (take n q)) xs (take n q) (drop n q) ((l ++ r) ∷ ys)
        (rw (append_assoc xs (q ∷ []) ((l ++ r) ∷ ys), length-append xs (q ∷ []), add-one)
          (up-put s xs q ((l ++ r) ∷ ys) n))
        (rw (take-append-drop n q)) refl refl
        (plain a c d (All-append (λ e. e ≢ 10) l r p.before p.behind, p.below))
        (rw (edit-up xs q l (r ++ started ys) b.0 p.before, append_assoc l r (started ys))) refl

  pub up_none-Behaves : (l r : Chars) → Plain [] l r ys → Behaves key_up (here key_up s [] l r ys)
  unfolding press edit ended
  up_none-Behaves l r p =
      lands key_up s [] l r ys s ((l ++ r) ∷ ys) 0 (length l) [] l r ys refl refl refl refl p
        (rw (has_newline-Lacks l p.before)) refl
