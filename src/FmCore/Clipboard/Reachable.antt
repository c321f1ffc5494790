-- ===== src/FmCore/Clipboard/Reachable.antt =====
-- When a clip survives a navigation (src/ui-common/fm-core/src/clipboard.rs).
use app_full.Base.{
  ℕ, ◌≡◌, ◌↔◌, ◌⊎◌, inl, inr, refl, Bool, true, false, List, Option, none, some, ◌==◌, any, arith,
  Bool-cases, subst,
}
use app_full.FmCore.Clipboard.{Clip, Clipboard, clear, clear_slot, is_gone, drop_if_unreachable}

-- The source can be opened again, or the level is alive and shown in a panel.
pub record IsShown (alive : ℕ → Bool) (live : List ℕ) (level : ℕ) : Type 0 where
  pub living : alive level ≡ true
  pub open_somewhere : any (λ f. f == level) live ≡ true

abbrev pub IsReachable : (ℕ → Bool) → List ℕ → Clip → Type 0
IsReachable alive live clip = (clip.rebuildable ≡ true) ⊎ IsShown alive live clip.anchor

is_gone-false :
    (alive : ℕ → Bool) (live : List ℕ) (clip : Clip)
    → (is_gone alive live (some clip) ≡ false) ↔ IsReachable alive live clip
unfolding is_gone
is_gone-false alive live clip = (forward, backward)
  where
    forward : is_gone alive live (some clip) ≡ false → IsReachable alive live clip
    forward e = elim (Bool-cases clip.rebuildable) [
      | inl r ↦ inl r
      | inr r ↦ inr (record { living = ground arith; open_somewhere = ground arith })
    ]

    backward : IsReachable alive live clip → is_gone alive live (some clip) ≡ false
    backward (inl r) = rw r
    backward (inr s) = ground (arith, s.living, s.open_somewhere)

slot-clear_slot : (cb : Clipboard) (o : Option Clip) → cb.slot ≡ o → (clear_slot o cb).slot ≡ none
unfolding clear_slot
slot-clear_slot cb none e = e
slot-clear_slot cb (some clip) e = refl

slot-clear : (cb : Clipboard) → (clear cb).slot ≡ none
unfolding clear
slot-clear cb = slot-clear_slot cb cb.slot refl

-- After a navigation the clipboard holds a clip exactly if it held it and the clip is reachable.
pub slot-drop_if_unreachable :
    (alive : ℕ → Bool) (live : List ℕ) (cb : Clipboard) (clip : Clip)
    → ((drop_if_unreachable alive live cb).slot ≡ some clip)
      ↔ ((cb.slot ≡ some clip) × IsReachable alive live clip)
unfolding drop_if_unreachable
slot-drop_if_unreachable alive live cb clip = elim (Bool-cases (is_gone alive live cb.slot)) [
  | inl e ↦ rw (e, slot-clear) ((λ p. absurd (cc)), (λ h. absurd (gone e h)))
  | inr e ↦ rw e (
    (λ p. (p, (is_gone-false alive live clip).0 (subst (λ o. is_gone alive live o ≡ false) p e))),
    (λ h. h.0),
  )
]
  where
    gone :
        is_gone alive live cb.slot ≡ true → (cb.slot ≡ some clip) × IsReachable alive live clip → ⊥
    gone e (p, r) = cc (p, (is_gone-false alive live clip).1 r)

-- A navigation that leaves a reachable clip in place calls nobody.
pub drop_if_unreachable_kept :
    (alive : ℕ → Bool) (live : List ℕ) (cb : Clipboard) (clip : Clip)
    → cb.slot ≡ some clip
    → IsReachable alive live clip
    → drop_if_unreachable alive live cb ≡ cb
unfolding drop_if_unreachable
drop_if_unreachable_kept alive live cb clip p r =
    let kept : is_gone alive live cb.slot ≡ false = rw p ((is_gone-false alive live clip).1 r) in
    rw kept
