-- ===== src/ConsoleApp/Editor/Forward.antt =====
-- The keys that look at what stands behind the cursor or at its line.
use app_full.Base.{
  ℕ, ◌+◌, List, [], ◌∷◌, ◌++◌, length, take, drop, take-append-drop, length-append, All-append, ◌≢◌,
  refl, sym, append_assoc, append-nil,
}
use app_full.Base.Texts.{Lacks}
use app_full.ConsoleApp.Chars.{Chars}
use app_full.ConsoleApp.Editor.{
  Editor, key_down, key_right, key_home, key_end, key_enter, key_delete, key_char, press,
  mark_dirty,
}
use app_full.ConsoleApp.Editor.Flat.{
  ended, started, edit, head_lines-ended, last_line-ended, first_line-started, later_lines-started,
  ended-append,
}
use app_full.ConsoleApp.Editor.Moves.{
  insert_char-put, newline-put, delete_here, delete_next, delete_none, right_here, right_next,
  right_none, down_none, down_next, cur_len-put,
}
use app_full.ConsoleApp.Editor.Landing.{Behaves, Plain, plain, here, lands, Lacks-split}
use app_full.ConsoleApp.Editor.Rows.{edit-down}

module _ (s : Editor) (xs : List Chars) where
  pub char-Behaves :
      (c : ℕ) (l r : Chars) (ys : List Chars)
      → c ≢ 10
      → Plain xs l r ys
      → Behaves (key_char c) (here (key_char c) s xs l r ys)
  unfolding press edit
  char-Behaves c l r ys typed p =
      lands (key_char c) s xs l r ys (mark_dirty s) (xs ++ (l ++ c ∷ r) ∷ ys) (length xs)
        (length l + 1) xs (l ++ c ∷ []) r ys (insert_char-put s xs l r ys c)
        (rw (append_assoc l (c ∷ []) r)) refl (length-append l (c ∷ []))
        (plain p.above (All-append (λ d. d ≢ 10) l (c ∷ []) p.before (typed, tt)) p.behind p.below)
        (rw (append_assoc (ended xs) l (c ∷ []))) refl

  pub enter-Behaves :
      (l r : Chars) (ys : List Chars)
      → Plain xs l r ys
      → Behaves key_enter (here key_enter s xs l r ys)
  unfolding press edit
  enter-Behaves l r ys p =
      lands key_enter s xs l r ys (mark_dirty s) (xs ++ l ∷ r ∷ ys) (length xs + 1) 0 (xs ++ l ∷ [])
        [] r ys (newline-put s xs l r ys) (append_assoc xs (l ∷ []) (r ∷ ys))
        (length-append xs (l ∷ [])) refl
        (plain (All-append (Lacks 10) xs (l ∷ []) p.above (p.before, tt)) tt p.behind p.below)
        (rw (append-nil, ended-append xs l)) refl

  pub delete-Behaves :
      (l r : Chars) (ys : List Chars)
      → Plain xs l r ys
      → Behaves key_delete (here key_delete s xs l r ys)
  unfolding press edit started
  delete-Behaves l (c ∷ r) ys p =
      lands key_delete s xs l (c ∷ r) ys (mark_dirty s) (xs ++ (l ++ r) ∷ ys) (length xs) (length l)
        xs l r ys (delete_here s xs l r ys c) refl refl refl
        (plain p.above p.before p.behind.1 p.below) refl refl
  delete-Behaves l [] (m ∷ ys) p =
      lands key_delete s xs l [] (m ∷ ys) (mark_dirty s) (xs ++ (l ++ m) ∷ ys) (length xs)
        (length l) xs l m ys (rw (append-nil l) (delete_next s xs l m ys)) refl refl refl
        (plain p.above p.before p.below.0 p.below.1) refl refl
  delete-Behaves l [] [] p =
      lands key_delete s xs l [] [] (mark_dirty s) (xs ++ l ∷ []) (length xs) (length l) xs l [] []
        (rw (append-nil l) (delete_none s xs l)) (rw (append-nil l)) refl refl p refl refl

  pub right-Behaves :
      (l r : Chars) (ys : List Chars)
      → Plain xs l r ys
      → Behaves key_right (here key_right s xs l r ys)
  unfolding press edit started
  right-Behaves l (c ∷ r) ys p =
      lands key_right s xs l (c ∷ r) ys s (xs ++ (l ++ c ∷ r) ∷ ys) (length xs) (length l + 1) xs
        (l ++ c ∷ []) r ys (right_here s xs l r ys c) (rw (append_assoc l (c ∷ []) r)) refl
        (length-append l (c ∷ []))
        (plain p.above (All-append (λ d. d ≢ 10) l (c ∷ []) p.before (p.behind.0, tt)) p.behind.1
          p.below)
        (rw (append_assoc (ended xs) l (c ∷ []))) refl
  right-Behaves l [] (m ∷ ys) p =
      lands key_right s xs l [] (m ∷ ys) s (xs ++ l ∷ m ∷ ys) (length xs + 1) 0 (xs ++ l ∷ []) [] m
        ys (rw (append-nil l) (right_next s xs l m ys)) (append_assoc xs (l ∷ []) (m ∷ ys))
        (length-append xs (l ∷ [])) refl
        (plain (All-append (Lacks 10) xs (l ∷ []) p.above (p.before, tt)) tt p.below.0 p.below.1)
        (rw (append-nil, ended-append xs l)) refl
  right-Behaves l [] [] p =
      lands key_right s xs l [] [] s (xs ++ l ∷ []) (length xs) (length l) xs l [] []
        (rw (append-nil l) (right_none s xs l)) (rw (append-nil l)) refl refl p
        (rw (append-nil (ended xs ++ l))) refl

  pub home-Behaves :
      (l r : Chars) (ys : List Chars)
      → Plain xs l r ys
      → Behaves key_home (here key_home s xs l r ys)
  unfolding press edit
  home-Behaves l r ys p =
      lands key_home s xs l r ys s (xs ++ (l ++ r) ∷ ys) (length xs) 0 xs [] (l ++ r) ys refl refl
        refl refl (plain p.above tt (All-append (λ d. d ≢ 10) l r p.before p.behind) p.below)
        (rw (
          head_lines-ended xs l p.before,
          last_line-ended xs l p.before,
          append-nil,
          append_assoc l r (started ys),
        ))
        refl

  pub end-Behaves :
      (l r : Chars) (ys : List Chars) → Plain xs l r ys → Behaves key_end (here key_end s xs l r ys)
  unfolding press edit
  end-Behaves l r ys p =
      lands key_end s xs l r ys s (xs ++ (l ++ r) ∷ ys) (length xs) (length (l ++ r)) xs (l ++ r) []
        ys (rw (cur_len-put s xs (l ++ r) ys (length l))) (rw (append-nil)) refl refl
        (plain p.above (All-append (λ d. d ≢ 10) l r p.before p.behind) tt p.below)
        (rw (
          first_line-started r ys p.behind,
          later_lines-started r ys p.behind,
          append_assoc (ended xs) l r,
        ))
        refl

module _ (s : Editor) (xs : List Chars) (l r : Chars) where
  pub down_line-Behaves :
      (m : Chars) (ys : List Chars)
      → Plain xs l r (m ∷ ys)
      → Behaves key_down (here key_down s xs l r (m ∷ ys))
  unfolding press
  down_line-Behaves m ys p =
      let n = length l in
      let (c, d) = Lacks-split (take n m) (drop n m) (rw (take-append-drop n m) p.below.0) in
      lands key_down s xs l r (m ∷ ys) s (xs ++ (l ++ r) ∷ m ∷ ys) (length xs + 1)
        (length (take n m)) (xs ++ (l ++ r) ∷ []) (take n m) (drop n m) ys
        (down_next s xs (l ++ r) m ys n)
        (rw (take-append-drop n m, append_assoc xs ((l ++ r) ∷ []) (m ∷ ys)))
        (length-append xs ((l ++ r) ∷ [])) refl
        (plain
          (All-append (Lacks 10) xs ((l ++ r) ∷ []) p.above
            (All-append (λ e. e ≢ 10) l r p.before p.behind, tt))
          c d p.below.1)
        (sym (edit-down xs l r m ys p.before p.behind p.below.0)) refl

  pub down_none-Behaves : Plain xs l r [] → Behaves key_down (here key_down s xs l r [])
  unfolding press edit
  down_none-Behaves p =
      lands key_down s xs l r [] s (xs ++ (l ++ r) ∷ []) (length xs) (length l) xs l r []
        (down_none s xs (l ++ r) (length l)) refl refl refl p
        (rw (later_lines-started r [] p.behind) (unfold started in refl)) refl
