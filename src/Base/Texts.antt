-- ===== src/Base/Texts.antt =====
-- Texts as lists of UTF-8 bytes, and the operations of Rust's `str` that the program uses.
use Prim.Native.Nat.{ℕ, zero, suc, ◌<◌}
use Prim.Native.Char.{code}
use Prim.Native.String.{String}
use mathlib.Core.Path.{◌≡◌, refl}
use mathlib.Core.Logic.{◌≢◌, inl, inr}
use mathlib.Core.Bool.{Bool, true, false, not, ◌&&◌, ◌||◌}
use mathlib.Core.Option.{Option, none, some}
use mathlib.Core.List.{List, [], ◌∷◌, ◌++◌}
use native.Mathlib.Omega.{arith}
use app_full.Base.Tests.{◌==◌, if◌then◌else◌, Bool-cases}
use app_full.Base.Lists.{All, any, drop, retain, length, length-retain-le}

abbrev pub Str : Type 0
Str = List ℕ

-- The bytes of a literal, which is ASCII.
abbrev pub codes : String → Str
codes String.[] = []
codes (String.◌∷◌ c s) = code c ∷ codes s

abbrev pub Lacks : ℕ → Str → Type 0
Lacks b = All (λ c. c ≢ b)

unfoldable pub str_eq : Str → Str → Bool
str_eq [] [] = true
str_eq [] (d ∷ t) = false
str_eq (c ∷ s) [] = false
str_eq (c ∷ s) (d ∷ t) = c == d && str_eq s t

pub str_eq_refl : (s : Str) → str_eq s s ≡ true
unfolding str_eq
str_eq_refl [] = refl
str_eq_refl (c ∷ s) = ground (arith, str_eq_refl s)

pub eq_of_str_eq : (s t : Str) → str_eq s t ≡ true → s ≡ t
unfolding str_eq
eq_of_str_eq [] [] h = refl
eq_of_str_eq [] (d ∷ t) h = cc
eq_of_str_eq (c ∷ s) [] h = cc
eq_of_str_eq (c ∷ s) (d ∷ t) h = ground (arith, eq_of_str_eq s t)

pub str_eq_sym : (s t : Str) → str_eq s t ≡ str_eq t s
unfolding str_eq
str_eq_sym [] [] = refl
str_eq_sym [] (d ∷ t) = refl
str_eq_sym (c ∷ s) [] = refl
str_eq_sym (c ∷ s) (d ∷ t) = ground (arith, str_eq_sym s t)

unfoldable pub is_empty : Str → Bool
is_empty [] = true
is_empty (c ∷ s) = false

-- `s.ends_with(suffix)`, the suffix first.
unfoldable pub ends_with : Str → Str → Bool
unfolding str_eq
ends_with suffix [] = str_eq [] suffix
ends_with suffix (c ∷ s) = str_eq (c ∷ s) suffix || ends_with suffix s

-- `s.starts_with(prefix)`, the prefix first.
unfoldable pub starts_with : Str → Str → Bool
starts_with [] s = true
starts_with (c ∷ p) [] = false
starts_with (c ∷ p) (d ∷ s) = c == d && starts_with p s

-- `s.strip_prefix(prefix)`, the prefix first.
unfoldable pub strip_prefix : Str → Str → Option Str
strip_prefix [] s = some s
strip_prefix (c ∷ p) [] = none
strip_prefix (c ∷ p) (d ∷ s) = let rest = strip_prefix p s in if c == d then rest else none

pub strip_prefix-append : (p s : Str) → strip_prefix p (p ++ s) ≡ some s
unfolding strip_prefix
strip_prefix-append [] s = refl
strip_prefix-append (c ∷ p) s = ground (arith, strip_prefix-append p s)

unfoldable pub push_head : ℕ → List Str → List Str
push_head c [] = (c ∷ []) ∷ []
push_head c (p ∷ ps) = (c ∷ p) ∷ ps

-- `s.split(pattern)`: the pieces between the separators, one more than there are separators.
unfoldable pub split : (ℕ → Bool) → Str → List Str
unfolding push_head
split sep [] = [] ∷ []
split sep (c ∷ s) = let rest = split sep s in if sep c then [] ∷ rest else push_head c rest

pub split-ne-nil : (sep : ℕ → Bool) (s : Str) → split sep s ≢ []
unfolding split
split-ne-nil sep [] = λ e. cc
split-ne-nil sep (c ∷ s) = ground (arith, push_head-ne-nil c (split sep s))
  where
    push_head-ne-nil : (d : ℕ) (ps : List Str) → push_head d ps ≢ []
    push_head-ne-nil d [] = λ e. cc
    push_head-ne-nil d (p ∷ ps) = λ e. cc

push_head-append :
    (d : ℕ) (ps qs : List Str) → ps ≢ [] → push_head d (ps ++ qs) ≡ push_head d ps ++ qs
unfolding push_head
push_head-append d [] qs h = absurd (h refl)
push_head-append d (p ∷ ps) qs h = refl

pub split-append :
    (sep : ℕ → Bool) (c : ℕ) (p q : Str)
    → sep c ≡ true
    → split sep (p ++ c ∷ q) ≡ split sep p ++ split sep q
unfolding split
split-append sep c [] q h = ground arith
split-append sep c (d ∷ p) q h = ground (
  arith,
  split-append sep c p q h,
  push_head-append d (split sep p) (split sep q) (split-ne-nil sep p),
)

pub split_plain : (sep : ℕ → Bool) (s : Str) → All (λ c. sep c ≡ false) s → split sep s ≡ s ∷ []
unfolding split
split_plain sep [] h = refl
split_plain sep (c ∷ s) h = ground (arith, split_plain sep s h.1)

str_eq_append_ne : (x b : ℕ) (p cur : Str) → cur ≢ [] → str_eq (x ∷ (p ++ cur)) (b ∷ []) ≡ false
unfolding str_eq
str_eq_append_ne x b [] [] h = absurd (h refl)
str_eq_append_ne x b [] (c ∷ cur) h = ground arith
str_eq_append_ne x b (d ∷ p) cur h = ground arith

-- What stands before a text that is not empty does not matter for its last byte.
pub ends_with-append :
    (b : ℕ) (p cur : Str) → cur ≢ [] → ends_with (b ∷ []) (p ++ cur) ≡ ends_with (b ∷ []) cur
unfolding ends_with
ends_with-append b [] cur h = refl
ends_with-append b (x ∷ p) cur h =
    ground (arith, str_eq_append_ne x b p cur h, ends_with-append b p cur h)

pub ends_with-Lacks : (b : ℕ) (s : Str) → Lacks b s → ends_with (b ∷ []) s ≡ false
unfolding ends_with
ends_with-Lacks b [] h = refl
ends_with-Lacks b (c ∷ s) h = ground (arith, ends_with-Lacks b s h.1)

pub ends_with_last : (b : ℕ) (s : Str) → ends_with (b ∷ []) (s ++ b ∷ []) ≡ true
unfolding ends_with
ends_with_last b [] = ground arith
ends_with_last b (c ∷ s) = ground (arith, ends_with_last b s)

-- `s.rfind(c)` for a character of one byte: the last position at which it stands.
unfoldable pub rfind : ℕ → Str → Option ℕ
rfind c [] = none
rfind c (d ∷ s) = elim (rfind c s) [
  | some i ↦ some (suc i)
  | none ↦ if d == c then some 0 else none
]

-- What stands from the last occurrence on, and that there is none without one.
pub rfind-none : (c : ℕ) (s : Str) → rfind c s ≡ none → Lacks c s
unfolding rfind
rfind-none c [] h = tt
rfind-none c (d ∷ s) h = ground (arith, rfind-none c s)

pub drop-rfind :
    (c : ℕ) (s : Str) (i : ℕ) → rfind c s ≡ some i → (r : Str) × (drop i s ≡ c ∷ r) × Lacks c r
unfolding rfind
drop-rfind c [] i h = absurd (cc)
drop-rfind c (d ∷ s) zero h = (s, ground arith, rfind-none c s (ground arith))
drop-rfind c (d ∷ s) (suc i) h = drop-rfind c s i (ground arith)

-- `taken.iter().any(|t| t == name)`, and `vec.contains(&name)`.
abbrev pub contains : List Str → Str → Bool
contains ts name = any (λ t. str_eq t name) ts

pub contains_mono :
    (ts : List Str) (a b : Str)
    → str_eq a b ≡ false
    → contains (retain (λ t. not (str_eq t a)) ts) b ≡ contains ts b
contains_mono [] a b h = refl
contains_mono (t ∷ ts) a b h = elim (Bool-cases (str_eq t a)) [
  | inl e ↦ rw (e, eq_of_str_eq t a e, h) (contains_mono ts a b h)
  | inr e ↦ rw (e, contains_mono ts a b h)
]

-- Taking a member out makes the list shorter.
pub length-retain-lt :
    (ts : List Str) (a : Str)
    → contains ts a ≡ true
    → length (retain (λ t. not (str_eq t a)) ts) < length ts
length-retain-lt [] a h = cc
length-retain-lt (t ∷ ts) a h =
    ground (arith, length-retain-lt ts a, length-retain-le (λ t. not (str_eq t a)) ts)

pub contains_last : (ts : List Str) (a : Str) → contains (ts ++ a ∷ []) a ≡ true
contains_last [] a = ground (arith, str_eq_refl a)
contains_last (t ∷ ts) a = ground (arith, contains_last ts a)

pub contains_before :
    (ts : List Str) (a b : Str) → contains ts b ≡ true → contains (ts ++ a ∷ []) b ≡ true
contains_before [] a b h = cc
contains_before (t ∷ ts) a b h = ground (arith, contains_before ts a b)
