-- ===== src/ConsoleApp/Util/Lines.antt =====
-- The lines of a text and the text of the lines.
use app_full.Base.{
  ℕ, Bool, false, List, [], ◌∷◌, map, ◌==◌, All, All-map, All-append, inl, inr, ◌≡◌, ◌≢◌, refl,
  arith, Bool-cases,
}
use app_full.Base.Texts.{
  Lacks, split, push_head, ends_with, split-append, split_plain, split-ne-nil, ends_with-Lacks,
}
use app_full.Base.Utf8.{encode, IsScalar}
use app_full.Base.Utf8.RoundTrip.{decode-encode}
use app_full.ConsoleApp.Chars.{Chars, join_lines}
use app_full.ConsoleApp.Util.{trim_end_matches, to_lines}

plain_test : (s : Chars) → Lacks 10 s → All (λ c. (c == 10) ≡ false) s
plain_test [] k = tt
plain_test (c ∷ s) k = (ground arith, plain_test s k.1)

split-join_lines :
    (l : Chars) (ls : List Chars)
    → All (Lacks 10) (l ∷ ls)
    → split (λ c. c == 10) (join_lines (l ∷ ls)) ≡ l ∷ ls
unfolding join_lines
split-join_lines l [] h = split_plain (λ c. c == 10) l (plain_test l h.0)
split-join_lines l (m ∷ ls) h = rw (
  split-append (λ c. c == 10) 10 l (join_lines (m ∷ ls)) refl,
  split_plain (λ c. c == 10) l (plain_test l h.0),
  split-join_lines m ls h.1,
)

-- A line that does not end with a carriage return.
abbrev pub EndsPlain : Chars → Type 0
EndsPlain s = ends_with (13 ∷ []) s ≡ false

trim_end_matches-EndsPlain : (s : Chars) → EndsPlain s → trim_end_matches 13 s ≡ s
unfolding trim_end_matches ends_with
trim_end_matches-EndsPlain [] h = refl
trim_end_matches-EndsPlain (c ∷ []) h = ground arith
trim_end_matches-EndsPlain (c ∷ d ∷ s) h = ground (arith, trim_end_matches-EndsPlain (d ∷ s))

map-trim_end_matches : (ls : List Chars) → All EndsPlain ls → map (trim_end_matches 13) ls ≡ ls
map-trim_end_matches [] h = refl
map-trim_end_matches (l ∷ ls) h = rw (trim_end_matches-EndsPlain l h.0, map-trim_end_matches ls h.1)

join_lines-IsScalar : (ls : List Chars) → All (All IsScalar) ls → All IsScalar (join_lines ls)
unfolding join_lines
join_lines-IsScalar [] h = tt
join_lines-IsScalar (l ∷ []) h = h.0
join_lines-IsScalar (l ∷ m ∷ ls) h =
    All-append IsScalar l (10 ∷ join_lines (m ∷ ls)) h.0
      (inl (omega arith), join_lines-IsScalar (m ∷ ls) h.1)

-- Lines of which none holds a newline or ends with a carriage return, written as one text in UTF-8,
-- are read back as the same lines.
pub to_lines-encode :
    (l : Chars) (ls : List Chars)
    → All (Lacks 10) (l ∷ ls)
    → All EndsPlain (l ∷ ls)
    → All (All IsScalar) (l ∷ ls)
    → to_lines (encode (join_lines (l ∷ ls))) ≡ l ∷ ls
unfolding to_lines
to_lines-encode l ls h k m =
    rw
      (
        decode-encode (join_lines (l ∷ ls)) (join_lines-IsScalar (l ∷ ls) m),
        split-join_lines l ls h,
      )
      (map-trim_end_matches (l ∷ ls) k)

join_lines-push_head :
    (c : ℕ) (ps : List Chars) → ps ≢ [] → join_lines (push_head c ps) ≡ c ∷ join_lines ps
unfolding join_lines push_head
join_lines-push_head c [] h = absurd (h refl)
join_lines-push_head c (p ∷ []) h = refl
join_lines-push_head c (p ∷ q ∷ ps) h = refl

join_lines-nil : (ps : List Chars) → ps ≢ [] → join_lines ([] ∷ ps) ≡ 10 ∷ join_lines ps
unfolding join_lines
join_lines-nil [] h = absurd (h refl)
join_lines-nil (p ∷ ps) h = refl

join_lines-split : (s : Chars) → join_lines (split (λ c. c == 10) s) ≡ s
unfolding split
join_lines-split [] = unfold join_lines in refl
join_lines-split (c ∷ s) = ground (
  arith,
  join_lines-split s,
  join_lines-push_head c (split (λ d. d == 10) s) (split-ne-nil (λ d. d == 10) s),
  join_lines-nil (split (λ d. d == 10) s) (split-ne-nil (λ d. d == 10) s),
)

push_head-Lacks :
    (b c : ℕ) (ps : List Chars) → c ≢ b → All (Lacks b) ps → All (Lacks b) (push_head c ps)
unfolding push_head
push_head-Lacks b c [] h k = ((h, tt), tt)
push_head-Lacks b c (p ∷ ps) h k = ((h, k.0), k.1)

split-Lacks : (b : ℕ) (sep : ℕ → Bool) (s : Chars) → Lacks b s → All (Lacks b) (split sep s)
unfolding split
split-Lacks b sep [] h = (tt, tt)
split-Lacks b sep (c ∷ s) h = elim (Bool-cases (sep c)) [
  | inl e ↦ rw e (tt, split-Lacks b sep s h.1)
  | inr e ↦ rw e (push_head-Lacks b c (split sep s) h.0 (split-Lacks b sep s h.1))
]

pub join_lines-to_lines :
    (s : Chars) → All IsScalar s → Lacks 13 s → join_lines (to_lines (encode s)) ≡ s
unfolding to_lines
join_lines-to_lines s h k =
    rw
      (
        decode-encode s h,
        map-trim_end_matches (split (λ c. c == 10) s) (
            All-map (Lacks 13) (split (λ c. c == 10) s) (ends_with-Lacks 13)
              (split-Lacks 13 (λ c. c == 10) s k)),
      )
      (join_lines-split s)
