-- ===== src/ConsoleApp/Editor/Moves.antt =====
-- Each operation of the buffer, where the cursor stands between `l` and `r` in the line between the
-- lines `xs` and the lines `ys`.
use app_full.Base.{
  ℕ, suc, ◌+◌, true, false, List, [], ◌∷◌, ◌++◌, ltb, length, take, length-append, ◌≡◌, arith, inl,
  inr, append_assoc, Bool-cases,
}
use app_full.Base.Outcome.{Outcome, ok, expect}
use app_full.ConsoleApp.Chars.{Chars}
use app_full.ConsoleApp.Editor.{
  Editor, insert_char, newline, backspace, delete, left, right, up, down, cur_len, mark_dirty,
  clamp_cx,
}
use native.Mathlib.Numerals.{add-one}
use app_full.ConsoleApp.Editor.Lines.{
  get_elem?-append, set-append, insert_line-append, split_at_byte-byte_at, remove_bytes-byte_at,
  remove_line_next, length-take,
}

abbrev pub put : Editor → List Chars → ℕ → ℕ → Editor
put s ls y x = record s { lines = ls; cy = y; cx = x }

abbrev pub done : Editor → Outcome {0} (Unit {0}) × Editor
done s = (ok tt, s)

module _ (s : Editor) (xs : List Chars) where
  count_lines : (l : Chars) (ys : List Chars) → length (xs ++ l ∷ ys) ≡ suc (length xs + length ys)
  count_lines l ys = omega (arith, length-append xs (l ∷ ys))

  last_test : (l : Chars) → ltb (length xs + 1) (length (xs ++ l ∷ [])) ≡ false
  last_test l = ground (arith, count_lines l [])

  next_test :
      (l m : Chars) (ys : List Chars) → ltb (length xs + 1) (length (xs ++ l ∷ m ∷ ys)) ≡ true
  next_test l m ys = ground (arith, count_lines l (m ∷ ys))

  here_test : (l r : Chars) (c : ℕ) → ltb (length l) (length (l ++ c ∷ r)) ≡ true
  here_test l r c = ground (arith, length-append l (c ∷ r))

  end_test : (l : Chars) → ltb (length l) (length l) ≡ false
  end_test l = ground arith

  pub insert_char-put :
      (l r : Chars) (ys : List Chars) (c : ℕ)
      → insert_char c (put s (xs ++ (l ++ r) ∷ ys) (length xs) (length l))
        ≡ done (put (mark_dirty s) (xs ++ (l ++ c ∷ r) ∷ ys) (length xs) (length l + 1))
  unfolding insert_char
  insert_char-put l r ys c =
      rw (get_elem?-append xs ys (l ++ r), expect)
        (rw (split_at_byte-byte_at l r, set-append xs ys (l ++ r) (l ++ c ∷ r), expect))

  pub newline-put :
      (l r : Chars) (ys : List Chars)
      → newline (put s (xs ++ (l ++ r) ∷ ys) (length xs) (length l))
        ≡ done (put (mark_dirty s) (xs ++ l ∷ r ∷ ys) (length xs + 1) 0)
  unfolding newline
  newline-put l r ys =
      rw (get_elem?-append xs ys (l ++ r), expect)
        (rw (split_at_byte-byte_at l r, expect)
          (rw (set-append xs ys (l ++ r) l) (rw (add-one, insert_line-append xs ys l r, expect))))

  pub delete_here :
      (l r : Chars) (ys : List Chars) (c : ℕ)
      → delete (put s (xs ++ (l ++ c ∷ r) ∷ ys) (length xs) (length l))
        ≡ done (put (mark_dirty s) (xs ++ (l ++ r) ∷ ys) (length xs) (length l))
  unfolding delete
  delete_here l r ys c =
      rw (get_elem?-append xs ys (l ++ c ∷ r), expect)
        (rw (here_test l r c) (
          rw (get_elem?-append xs ys (l ++ c ∷ r), expect)
            (rw (remove_bytes-byte_at l r c, expect)
              (rw (set-append xs ys (l ++ c ∷ r) (l ++ r))))))

  pub delete_next :
      (l m : Chars) (ys : List Chars)
      → delete (put s (xs ++ l ∷ m ∷ ys) (length xs) (length l))
        ≡ done (put (mark_dirty s) (xs ++ (l ++ m) ∷ ys) (length xs) (length l))
  unfolding delete
  delete_next l m ys =
      rw (get_elem?-append xs (m ∷ ys) l, expect)
        (rw (end_test l, next_test l m ys)
          (rw (add-one, remove_line_next xs ys l m, expect)
            (rw (get_elem?-append xs ys l, expect) (rw (set-append xs ys l (l ++ m))))))

  pub delete_none :
      (l : Chars)
      → delete (put s (xs ++ l ∷ []) (length xs) (length l))
        ≡ done (put (mark_dirty s) (xs ++ l ∷ []) (length xs) (length l))
  unfolding delete
  delete_none l = rw (get_elem?-append xs [] l, expect) (rw (end_test l, last_test l))

  pub backspace_here :
      (l r : Chars) (ys : List Chars) (c : ℕ)
      → backspace (put s (xs ++ (l ++ c ∷ r) ∷ ys) (length xs) (suc (length l)))
        ≡ done (put (mark_dirty s) (xs ++ (l ++ r) ∷ ys) (length xs) (length l))
  unfolding backspace
  backspace_here l r ys c =
      rw (get_elem?-append xs ys (l ++ c ∷ r), expect)
        (rw (remove_bytes-byte_at l r c, expect) (rw (set-append xs ys (l ++ c ∷ r) (l ++ r))))

  pub backspace_previous :
      (p r : Chars) (ys : List Chars)
      → backspace (put s (xs ++ p ∷ r ∷ ys) (suc (length xs)) 0)
        ≡ done (put (mark_dirty s) (xs ++ (p ++ r) ∷ ys) (length xs) (length p))
  unfolding backspace
  backspace_previous p r ys =
      rw (remove_line_next xs ys p r, expect)
        (rw (get_elem?-append xs ys p, expect)
          (rw (get_elem?-append xs ys p, expect) (rw (set-append xs ys p (p ++ r)))))

  pub left_previous :
      (p r : Chars) (ys : List Chars)
      → left (put s (xs ++ p ∷ r ∷ ys) (suc (length xs)) 0)
        ≡ done (put s (xs ++ p ∷ r ∷ ys) (length xs) (length p))
  unfolding left
  left_previous p r ys = rw (get_elem?-append xs (r ∷ ys) p, expect)

  pub right_here :
      (l r : Chars) (ys : List Chars) (c : ℕ)
      → right (put s (xs ++ (l ++ c ∷ r) ∷ ys) (length xs) (length l))
        ≡ done (put s (xs ++ (l ++ c ∷ r) ∷ ys) (length xs) (length l + 1))
  unfolding right
  right_here l r ys c = rw (get_elem?-append xs ys (l ++ c ∷ r), expect) (rw (here_test l r c))

  pub right_next :
      (l m : Chars) (ys : List Chars)
      → right (put s (xs ++ l ∷ m ∷ ys) (length xs) (length l))
        ≡ done (put s (xs ++ l ∷ m ∷ ys) (length xs + 1) 0)
  unfolding right
  right_next l m ys =
      rw (get_elem?-append xs (m ∷ ys) l, expect) (rw (end_test l, next_test l m ys))

  pub right_none :
      (l : Chars)
      → right (put s (xs ++ l ∷ []) (length xs) (length l))
        ≡ done (put s (xs ++ l ∷ []) (length xs) (length l))
  unfolding right
  right_none l = rw (get_elem?-append xs [] l, expect) (rw (end_test l, last_test l))

  clamp_cx-put :
      (l : Chars) (ys : List Chars) (x : ℕ)
      → clamp_cx (put s (xs ++ l ∷ ys) (length xs) x)
        ≡ done (put s (xs ++ l ∷ ys) (length xs) (length (take x l)))
  unfolding clamp_cx
  clamp_cx-put l ys x =
      rw (get_elem?-append xs ys l, expect)
        (elim (Bool-cases (ltb (length l) x)) [
          | inl e ↦ rw (length-take x l, e)
          | inr e ↦ rw (length-take x l, e)
        ])

  pub up-put :
      (p : Chars) (ys : List Chars) (x : ℕ)
      → up (put s (xs ++ p ∷ ys) (suc (length xs)) x)
        ≡ done (put s (xs ++ p ∷ ys) (length xs) (length (take x p)))
  unfolding up
  up-put p ys x = clamp_cx-put p ys x

  pub down_none :
      (l : Chars) (x : ℕ)
      → down (put s (xs ++ l ∷ []) (length xs) x) ≡ done (put s (xs ++ l ∷ []) (length xs) x)
  unfolding down
  down_none l x = rw (last_test l)

  pub cur_len-put :
      (l : Chars) (ys : List Chars) (x : ℕ)
      → cur_len (put s (xs ++ l ∷ ys) (length xs) x)
        ≡ (ok (length l), put s (xs ++ l ∷ ys) (length xs) x)
  unfolding cur_len
  cur_len-put l ys x = rw (get_elem?-append xs ys l, expect)

module _ (s : Editor) (xs : List Chars) where
  pub down_next :
      (l m : Chars) (ys : List Chars) (x : ℕ)
      → down (put s (xs ++ l ∷ m ∷ ys) (length xs) x)
        ≡ done (put s (xs ++ l ∷ m ∷ ys) (length xs + 1) (length (take x m)))
  unfolding down
  down_next l m ys x = rw (next_test s xs l m ys) (
      rw (append_assoc xs (l ∷ []) (m ∷ ys), length-append xs (l ∷ [])) at
        (clamp_cx-put s (xs ++ l ∷ []) m ys x))
