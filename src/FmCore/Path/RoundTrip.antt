-- ===== src/FmCore/Path/RoundTrip.antt =====
-- `split_joined` after `join_with` (src/ui-common/fm-core/src/path.rs).
use app_full.Base.{
  Bool, true, false, List, [], ◌∷◌, ◌++◌, append-nil, ◌&&◌, ◌≡◌, refl, arith, Bool-cases, inl, inr,
  All, ◌∙◌, ap, ◌==◌, retain-append,
}
use app_full.Base.Texts.{Str, Lacks, ends_with, split, split-append, split_plain}
use app_full.FmCore.Path.{slash, backslash, is_drive_segment, join_with, non_empty, split_joined}
use app_full.FmCore.Path.Joining.{
  IsComponent, absorb_from, absorb, slashed, All-IsComponent-absorb, join_with-slashed,
  join_with_drive_root, join_with_drive,
}

split_joined-append : (p q : Str) → split_joined (p ++ slash ∷ q) ≡ split_joined p ++ split_joined q
unfolding split_joined
split_joined-append p q =
    rw (split-append (λ c. c == slash) slash p q refl)
      (retain-append non_empty (split (λ c. c == slash) p) (split (λ c. c == slash) q))

Lacks-test : (s : Str) → Lacks slash s → All (λ c. (c == slash) ≡ false) s
Lacks-test [] h = tt
Lacks-test (c ∷ s) h = (ground (arith, h.0), Lacks-test s h.1)

pub split_joined_component : (s : Str) → IsComponent s → split_joined s ≡ s ∷ []
unfolding split_joined
split_joined_component [] h = absurd (h.filled refl)
split_joined_component (c ∷ s) h =
    rw (split_plain (λ d. d == slash) (c ∷ s) (Lacks-test (c ∷ s) h.whole))

split_joined_row :
    (s : Str) (ss : List Str)
    → IsComponent s
    → All IsComponent ss
    → split_joined (s ++ slashed ss) ≡ s ∷ ss
unfolding slashed
split_joined_row s [] hs hss = rw append-nil (split_joined_component s hs)
split_joined_row s (t ∷ ts) hs (ht, hts) =
    rw (split_joined-append s (t ++ slashed ts), split_joined_component s hs)
      (ap (λ r. s ∷ r) (split_joined_row t ts ht hts))

split_joined-slashed : (ss : List Str) → All IsComponent ss → split_joined (slashed ss) ≡ ss
unfolding slashed split_joined
split_joined-slashed [] h = refl
split_joined-slashed (s ∷ ss) (hs, hss) =
    split_joined-append [] (s ++ slashed ss) ∙ split_joined_row s ss hs hss

absorb_from_unix : (s : Str) (ss : List Str) → absorb_from false s ss ≡ s ∷ ss
unfolding absorb_from
absorb_from_unix s [] = refl
absorb_from_unix s (t ∷ ts) = ap (λ r. s ∷ r) (absorb_from_unix t ts)

pub absorb_unix : (ss : List Str) → absorb false ss ≡ ss
unfolding absorb
absorb_unix [] = refl
absorb_unix (s ∷ ss) = absorb_from_unix s ss

-- A text whose second byte from a letter is a backslash is no drive letter, whatever follows.
pub not_drive :
    (s t : Str) → ends_with (backslash ∷ []) s ≡ true → is_drive_segment (s ++ t) ≡ false
unfolding ends_with is_drive_segment
not_drive [] t h = cc
not_drive (c ∷ []) [] h = refl
not_drive (c ∷ []) (d ∷ []) h = ground arith
not_drive (c ∷ []) (d ∷ e ∷ t) h = refl
not_drive (c ∷ d ∷ []) [] h = ground arith
not_drive (c ∷ d ∷ []) (e ∷ t) h = refl
not_drive (c ∷ d ∷ e ∷ s) t h = refl

drive_keeps_apart :
    (w : Bool) (s : Str)
    → (w && is_drive_segment s) ≡ true
    → (w && ends_with (backslash ∷ []) s) ≡ false
drive_keeps_apart false s h = refl
drive_keeps_apart true s h = elim (Bool-cases (ends_with (backslash ∷ []) s)) [
  | inl e ↦ absurd (clash e)
  | inr e ↦ e
]
  where
    clash : ends_with (backslash ∷ []) s ≡ true → ⊥
    clash e = cc (not_drive s [] e, append-nil s)

pub absorb_drive :
    (w : Bool) (s t : Str) (ts : List Str)
    → (w && is_drive_segment s) ≡ true
    → absorb w (s ∷ t ∷ ts) ≡ s ∷ absorb w (t ∷ ts)
unfolding absorb absorb_from
absorb_drive w s t ts h = rw (drive_keeps_apart w s h)

-- For names that are not empty and have no slash, splitting their joined path gives the names back,
-- where on Windows a name that ends with a backslash is taken as one with the next.
pub split_joined-join_with :
    (names : List Str) (windows : Bool)
    → All IsComponent names
    → split_joined (join_with names windows) ≡ absorb windows names
split_joined-join_with [] w h = unfold split_joined join_with absorb in refl
split_joined-join_with (s ∷ []) w h = elim (Bool-cases (w && is_drive_segment s)) [
  | inl e ↦
      rw (join_with_drive_root w s e, split_joined-append s [], split_joined_component s h.0)
        (unfold split_joined absorb in refl)
  | inr e ↦
      rw (join_with-slashed w s [] e h)
        (split_joined-slashed _ (All-IsComponent-absorb w (s ∷ []) h))
]
split_joined-join_with (s ∷ t ∷ ts) w h = elim (Bool-cases (w && is_drive_segment s)) [
  | inl e ↦
      rw (join_with_drive w s t ts e h.1, absorb_drive w s t ts e)
        (split_joined_row s (absorb w (t ∷ ts)) h.0 (All-IsComponent-absorb w (t ∷ ts) h.1))
  | inr e ↦
      rw (join_with-slashed w s (t ∷ ts) e h)
        (split_joined-slashed _ (All-IsComponent-absorb w (s ∷ t ∷ ts) h))
]

-- Off Windows splitting a joined path gives exactly the components back.
pub split_joined-join_with_unix :
    (names : List Str) → All IsComponent names → split_joined (join_with names false) ≡ names
split_joined-join_with_unix names h = split_joined-join_with names false h ∙ absorb_unix names
