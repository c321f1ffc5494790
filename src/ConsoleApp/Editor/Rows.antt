-- ===== src/ConsoleApp/Editor/Rows.antt =====
-- What moving to the previous and to the next line does to the text that is split at the cursor.
use app_full.Base.{true, List, [], ◌∷◌, ◌++◌, length, take, drop, ◌≡◌, refl, arith, append_assoc}
use app_full.Base.Texts.{Lacks}
use app_full.ConsoleApp.Chars.{Chars}
use app_full.ConsoleApp.Editor.{key_up, key_down}
use app_full.ConsoleApp.Editor.Flat.{
  ended, started, edit, has_newline, head_lines-ended, last_line-ended, first_line-started,
  later_lines-started, drop_last_snoc, ended-append,
}

has_newline-snoc : (t u : Chars) → has_newline ((t ++ 10 ∷ []) ++ u) ≡ true
has_newline-snoc [] u = refl
has_newline-snoc (c ∷ t) u = ground (arith, has_newline-snoc t u)

pub edit-up :
    (xs : List Chars) (q l a : Chars)
    → Lacks 10 q
    → Lacks 10 l
    → edit key_up (ended (xs ++ q ∷ []) ++ l, a)
      ≡ (ended xs ++ take (length l) q, drop (length l) q ++ 10 ∷ (l ++ a))
unfolding edit
edit-up xs q l a hq hl =
    rw (ended-append xs q, has_newline-snoc (ended xs ++ q) l, ← ended-append xs q)
      (rw (head_lines-ended (xs ++ q ∷ []) l hl, last_line-ended (xs ++ q ∷ []) l hl)
        (rw (ended-append xs q, drop_last_snoc, head_lines-ended xs q hq, last_line-ended xs q hq)))

pub edit-down :
    (xs : List Chars) (l r m : Chars) (ys : List Chars)
    → Lacks 10 l
    → Lacks 10 r
    → Lacks 10 m
    → edit key_down (ended xs ++ l, r ++ started (m ∷ ys))
      ≡ (ended (xs ++ (l ++ r) ∷ []) ++ take (length l) m, drop (length l) m ++ started ys)
unfolding edit
edit-down xs l r m ys hl hr hm = rw (later_lines-started r (m ∷ ys) hr) (
    unfold started in
    rw
      (
        first_line-started m ys hm,
        later_lines-started m ys hm,
        last_line-ended xs l hl,
        ended-append xs (l ++ r),
      )
      (rw (first_line-started r (m ∷ ys) hr) (simp append_assoc)))
