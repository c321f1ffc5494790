-- ===== src/FmCore/Path/Stable.antt =====
-- Joining what was split from a joined path (src/ui-common/fm-core/src/path.rs).
use app_full.Base.{
  Bool, true, false, List, [], ◌∷◌, ◌++◌, append-nil, ◌&&◌, ◌≡◌, ◌≢◌, refl, arith, Bool-cases, inl,
  inr, All, All-append, ◌∙◌, sym, ap,
}
use app_full.Base.Texts.{Str, ends_with}
use app_full.FmCore.Path.{backslash, is_drive_segment, join_with, split_joined}
use app_full.FmCore.Path.Joining.{
  IsComponent, absorb_from, absorb, slashed, All-IsComponent-absorb, join_with-slashed,
  join_with_drive,
}
use app_full.FmCore.Path.RoundTrip.{split_joined-join_with, not_drive, absorb_drive}

absorb_from-ne-nil : (w : Bool) (s : Str) (ss : List Str) → absorb_from w s ss ≢ []
unfolding absorb_from
absorb_from-ne-nil w s [] = λ e. cc
absorb_from-ne-nil w s (t ∷ ts) = ground (arith, absorb_from-ne-nil w (s ++ t) ts)

absorb_apart :
    (w : Bool) (s : Str) (ss : List Str)
    → (w && ends_with (backslash ∷ []) s) ≡ false
    → ss ≢ []
    → absorb w (s ∷ ss) ≡ s ∷ absorb w ss
unfolding absorb absorb_from
absorb_apart w s [] e h = absurd (h refl)
absorb_apart w s (t ∷ ts) e h = rw e

absorb-absorb_from :
    (w : Bool) (s : Str) (ss : List Str) → absorb w (absorb_from w s ss) ≡ absorb_from w s ss
unfolding absorb_from
absorb-absorb_from w s [] = unfold absorb absorb_from in refl
absorb-absorb_from w s (t ∷ ts) = elim (Bool-cases (w && ends_with (backslash ∷ []) s)) [
  | inl e ↦ rw e (absorb-absorb_from w (s ++ t) ts)
  | inr e ↦ rw e (
      absorb_apart w s (absorb_from w t ts) e (absorb_from-ne-nil w t ts)
      ∙ ap (λ r. s ∷ r) (absorb-absorb_from w t ts))
]

-- The first segment of a list, as `join_with` tests it.
abbrev starts_at_drive : Bool → List Str → Bool
starts_at_drive w [] = false
starts_at_drive w (s ∷ ss) = w && is_drive_segment s

not_drive_merged :
    (w : Bool) (s t : Str)
    → (w && ends_with (backslash ∷ []) s) ≡ true
    → (w && is_drive_segment (s ++ t)) ≡ (w && is_drive_segment s)
not_drive_merged false s t e = refl
not_drive_merged true s t e =
    not_drive s t e ∙ sym (ap is_drive_segment (sym (append-nil s)) ∙ not_drive s [] e)

absorb_from_drive :
    (w : Bool) (s : Str) (ss : List Str)
    → starts_at_drive w (absorb_from w s ss) ≡ (w && is_drive_segment s)
unfolding absorb_from
absorb_from_drive w s [] = refl
absorb_from_drive w s (t ∷ ts) = elim (Bool-cases (w && ends_with (backslash ∷ []) s)) [
  | inl e ↦ rw e (absorb_from_drive w (s ++ t) ts ∙ not_drive_merged w s t e)
  | inr e ↦ rw e
]

join_plain :
    (w : Bool) (ss : List Str)
    → starts_at_drive w ss ≡ false
    → ss ≢ []
    → All IsComponent ss
    → join_with ss w ≡ slashed (absorb w ss)
join_plain w [] e n h = absurd (n refl)
join_plain w (s ∷ ss) e n h = join_with-slashed w s ss e h

join_behind_drive :
    (w : Bool) (s : Str) (ss : List Str)
    → (w && is_drive_segment s) ≡ true
    → ss ≢ []
    → All IsComponent ss
    → join_with (s ∷ ss) w ≡ s ++ slashed (absorb w ss)
join_behind_drive w s [] e n h = absurd (n refl)
join_behind_drive w s (t ∷ ts) e n h = join_with_drive w s t ts e h

join_with-absorb :
    (w : Bool) (names : List Str)
    → All IsComponent names
    → join_with (absorb w names) w ≡ join_with names w
unfolding absorb
join_with-absorb w [] h = refl
join_with-absorb w (s ∷ []) h = unfold absorb_from in refl
join_with-absorb w (s ∷ t ∷ ts) h = elim (Bool-cases (w && is_drive_segment s)) [
  | inl e ↦
      let kept = absorb w (t ∷ ts) in
      ap (λ r. join_with r w) (absorb_drive w s t ts e)
      ∙ join_behind_drive w s kept e (absorb_from-ne-nil w t ts)
          (All-IsComponent-absorb w (t ∷ ts) h.1)
      ∙ ap (λ r. s ++ slashed r) (absorb-absorb_from w t ts)
      ∙ sym (join_with_drive w s t ts e h.1)
  | inr e ↦
      join_plain w (absorb w (s ∷ t ∷ ts)) (absorb_from_drive w s (t ∷ ts) ∙ e)
        (absorb_from-ne-nil w s (t ∷ ts)) (All-IsComponent-absorb w (s ∷ t ∷ ts) h)
      ∙ ap slashed (absorb-absorb_from w s (t ∷ ts))
      ∙ sym (join_with-slashed w s (t ∷ ts) e h)
]

absorb_from-append-ne-nil : (w : Bool) (s : Str) (ss ys : List Str) → absorb_from w s ss ++ ys ≢ []
absorb_from-append-ne-nil w s ss ys = keep (absorb_from w s ss) (absorb_from-ne-nil w s ss)
  where
    keep : (xs : List Str) → xs ≢ [] → xs ++ ys ≢ []
    keep [] h = absurd (h refl)
    keep (x ∷ xs) h = λ e. cc

absorb-absorb_from-append :
    (w : Bool) (s : Str) (ss ys : List Str)
    → absorb w (absorb_from w s ss ++ ys) ≡ absorb_from w s (ss ++ ys)
unfolding absorb_from
absorb-absorb_from-append w s [] ys = unfold absorb in refl
absorb-absorb_from-append w s (t ∷ ts) ys = elim (Bool-cases (w && ends_with (backslash ∷ []) s)) [
  | inl e ↦ rw e (absorb-absorb_from-append w (s ++ t) ts ys)
  | inr e ↦ rw e (
      absorb_apart w s (absorb_from w t ts ++ ys) e (absorb_from-append-ne-nil w t ts ys)
      ∙ ap (λ r. s ∷ r) (absorb-absorb_from-append w t ts ys))
]

absorb-absorb-append :
    (w : Bool) (xs ys : List Str) → absorb w (absorb w xs ++ ys) ≡ absorb w (xs ++ ys)
unfolding absorb
absorb-absorb-append w [] ys = refl
absorb-absorb-append w (s ∷ ss) ys = absorb-absorb_from-append w s ss ys

-- On both platforms, for names that are not empty and have no slash, names that are added to the
-- split of a joined path are joined as if they had been added to its names; with no name added, the
-- joined path is split and joined unchanged.
pub join_with-split_joined :
    (names more : List Str) (windows : Bool)
    → All IsComponent names
    → All IsComponent more
    → join_with (split_joined (join_with names windows) ++ more) windows
      ≡ join_with (names ++ more) windows
join_with-split_joined names more w h k = rw (split_joined-join_with names w h) (
    sym (
      join_with-absorb w (absorb w names ++ more)
        (All-append IsComponent _ more (All-IsComponent-absorb w names h) k))
    ∙ ap (λ r. join_with r w) (absorb-absorb-append w names more)
    ∙ join_with-absorb w (names ++ more) (All-append IsComponent names more h k))
