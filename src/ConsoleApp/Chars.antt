-- ===== src/ConsoleApp/Chars.antt =====
-- Lines as characters, with the byte offsets at which Rust cuts them, and lists of lines.
use app_full.Base.{
  ℕ, zero, suc, ◌+◌, ◌-◌, List, [], ◌∷◌, ◌++◌, Option, none, some, if◌then◌else◌, ltb,
}
use mathlib.Core.Option

-- A text as characters.
abbrev pub Chars : Type 0
Chars = List ℕ

-- `char::len_utf8`
unfoldable pub len_utf8 : ℕ → ℕ
len_utf8 c = if ltb c 0x80 then 1 else if ltb c 0x800 then 2 else if ltb c 0x10000 then 3 else 4

-- `line.char_indices().nth(cx).map(|(b, _)| b).unwrap_or(line.len())`
unfoldable pub byte_at : Chars → ℕ → ℕ
unfolding len_utf8
byte_at [] cx = 0
byte_at (c ∷ line) zero = 0
byte_at (c ∷ line) (suc cx) = len_utf8 c + byte_at line cx

-- `line.split_at(b)`, which panics inside a character and behind the end.
unfoldable pub split_at_byte : Chars → ℕ → Option (Chars × Chars)
unfolding len_utf8
split_at_byte line zero = some ([], line)
split_at_byte [] (suc b) = none
split_at_byte (c ∷ line) (suc b) =
    let rest = split_at_byte line (suc b - len_utf8 c) in
    if ltb (suc b) (len_utf8 c)
    then none
    else elim rest [ none ↦ none | some (before, behind) ↦ some (c ∷ before, behind) ]

-- `String::insert`
unfoldable pub insert_at_byte : Chars → ℕ → ℕ → Option Chars
unfolding split_at_byte
insert_at_byte line b c =
    Option.map (λ ((before, behind) : Chars × Chars). before ++ c ∷ behind) (split_at_byte line b)

-- `line.replace_range(s..e, "")`
unfoldable pub remove_bytes : Chars → ℕ → ℕ → Option Chars
unfolding split_at_byte
remove_bytes line s e = elim (split_at_byte line s) [
  | none ↦ none
  | some (before, _) ↦ elim (split_at_byte line e) [
    | none ↦ none
    | some (_, behind) ↦ some (before ++ behind)
  ]
]

-- `Vec::insert` and `Vec::remove`
unfoldable pub insert_line : List Chars → ℕ → Chars → Option (List Chars)
insert_line lines zero line = some (line ∷ lines)
insert_line [] (suc i) line = none
insert_line (l ∷ lines) (suc i) line = Option.map (λ ls. l ∷ ls) (insert_line lines i line)

unfoldable pub remove_line : List Chars → ℕ → Option (Chars × List Chars)
remove_line [] i = none
remove_line (l ∷ lines) zero = some (l, lines)
remove_line (l ∷ lines) (suc i) =
    Option.map (λ ((line, ls) : Chars × List Chars). (line, l ∷ ls)) (remove_line lines i)

-- `self.lines.join("\n")`
unfoldable pub join_lines : List Chars → Chars
join_lines [] = []
join_lines (l ∷ []) = l
join_lines (l ∷ m ∷ ls) = l ++ 10 ∷ join_lines (m ∷ ls)
