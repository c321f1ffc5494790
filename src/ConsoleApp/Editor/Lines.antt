-- ===== src/ConsoleApp/Editor/Lines.antt =====
-- What the list and byte operations of the buffer do at the line and the column of the cursor.
use app_full.Base.{
  ℕ, zero, suc, ◌+◌, ◌-◌, List, [], ◌∷◌, ◌++◌, none, some, if◌then◌else◌, ltb, false, length,
  get_elem?, set, take, drop, length-append, ◌≡◌, refl, ap, arith, ◌⊎◌, inl, inr, append_assoc,
}
use app_full.ConsoleApp.Chars.{
  Chars, len_utf8, byte_at, split_at_byte, remove_bytes, insert_line, remove_line,
}

module _ {ℓ} {A : Type ℓ} where
  pub get_elem?-append : (xs ys : List A) (y : A) → get_elem? (xs ++ y ∷ ys) (length xs) ≡ some y
  get_elem?-append [] ys y = refl
  get_elem?-append (x ∷ xs) ys y = get_elem?-append xs ys y

  pub set-append : (xs ys : List A) (y z : A) → set (xs ++ y ∷ ys) (length xs) z ≡ xs ++ z ∷ ys
  set-append [] ys y z = refl
  set-append (x ∷ xs) ys y z = ap (λ r. x ∷ r) (set-append xs ys y z)

  pub take-length : (xs ys : List A) → take (length xs) (xs ++ ys) ≡ xs
  take-length [] ys = refl
  take-length (x ∷ xs) ys = ap (λ r. x ∷ r) (take-length xs ys)

  pub drop-length : (xs ys : List A) → drop (length xs) (xs ++ ys) ≡ ys
  drop-length [] ys = refl
  drop-length (x ∷ xs) ys = drop-length xs ys

  -- A list is empty or ends with an element.
  pub snoc_cases : (xs : List A) → (xs ≡ []) ⊎ ((ys : List A) × (y : A) × (xs ≡ ys ++ y ∷ []))
  snoc_cases [] = inl refl
  snoc_cases (x ∷ xs) = elim (snoc_cases xs) [
    | inl e ↦ inr ([], x, ap (λ r. x ∷ r) e)
    | inr (ys, y, e) ↦ inr (x ∷ ys, y, ap (λ r. x ∷ r) e)
  ]

pub insert_line-append :
    (xs ys : List Chars) (y z : Chars)
    → insert_line (xs ++ y ∷ ys) (suc (length xs)) z ≡ some (xs ++ y ∷ z ∷ ys)
unfolding insert_line
insert_line-append [] ys y z = refl
insert_line-append (x ∷ xs) ys y z = rw (insert_line-append xs ys y z)

pub remove_line-append :
    (xs ys : List Chars) (y : Chars) → remove_line (xs ++ y ∷ ys) (length xs) ≡ some (y, xs ++ ys)
unfolding remove_line
remove_line-append [] ys y = refl
remove_line-append (x ∷ xs) ys y = rw (remove_line-append xs ys y)

len_utf8_pos : (c : ℕ) → (n : ℕ) × (len_utf8 c ≡ suc n)
unfolding len_utf8
len_utf8_pos c = (len_utf8 c - 1, ground arith)

split_at_byte-add :
    (c b : ℕ) (line : Chars)
    → split_at_byte (c ∷ line) (len_utf8 c + b) ≡ (elim (split_at_byte line b) [
      | none ↦ none
      | some (before, behind) ↦ some (c ∷ before, behind)
    ])
unfolding split_at_byte
split_at_byte-add c b line = let (n, e) = len_utf8_pos c in step n e
  where
    step :
        (n : ℕ)
        → len_utf8 c ≡ suc n
        → split_at_byte (c ∷ line) (len_utf8 c + b) ≡ (elim (split_at_byte line b) [
          | none ↦ none
          | some (before, behind) ↦ some (c ∷ before, behind)
        ])
    step n e =
        let at_suc : len_utf8 c + b ≡ suc (n + b) = omega arith in
        let left : suc (n + b) - len_utf8 c ≡ b = omega arith in
        let enough : ltb (suc (n + b)) (len_utf8 c) ≡ false = ground arith in
        rw (at_suc, left, enough)

-- The byte offset of a column splits the line at that column.
pub split_at_byte-byte_at :
    (l r : Chars) → split_at_byte (l ++ r) (byte_at (l ++ r) (length l)) ≡ some (l, r)
unfolding split_at_byte byte_at
split_at_byte-byte_at [] [] = refl
split_at_byte-byte_at [] (c ∷ r) = refl
split_at_byte-byte_at (c ∷ l) r =
    rw (split_at_byte-add c (byte_at (l ++ r) (length l)) (l ++ r), split_at_byte-byte_at l r)

pub remove_bytes-byte_at :
    (l r : Chars) (c : ℕ)
    → remove_bytes
        (l ++ c ∷ r)
        (byte_at (l ++ c ∷ r) (length l))
        (byte_at (l ++ c ∷ r) (length l + 1))
      ≡ some (l ++ r)
unfolding remove_bytes
remove_bytes-byte_at l r c = rw (remove_bytes, split_at_byte-byte_at l (c ∷ r), next)
  where
    next : split_at_byte (l ++ c ∷ r) (byte_at (l ++ c ∷ r) (length l + 1)) ≡ some (l ++ c ∷ [], r)
    next =
        rw (append_assoc l (c ∷ []) r, length-append l (c ∷ [])) at
          (split_at_byte-byte_at (l ++ c ∷ []) r)

pub remove_line_next :
    (xs ys : List Chars) (l m : Chars)
    → remove_line (xs ++ l ∷ m ∷ ys) (suc (length xs)) ≡ some (m, xs ++ l ∷ ys)
unfolding remove_line
remove_line_next [] ys l m = refl
remove_line_next (x ∷ xs) ys l m = rw (remove_line_next xs ys l m)

pub get_elem?_next :
    (xs ys : List Chars) (l m : Chars) → get_elem? (xs ++ l ∷ m ∷ ys) (suc (length xs)) ≡ some m
get_elem?_next [] ys l m = refl
get_elem?_next (x ∷ xs) ys l m = get_elem?_next xs ys l m

pub length-take :
    (x : ℕ) (l : Chars) → length (take x l) ≡ (if ltb (length l) x then length l else x)
length-take zero l = ground arith
length-take (suc x) [] = ground arith
length-take (suc x) (c ∷ l) = ground (arith, length-take x l)
