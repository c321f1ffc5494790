-- ===== src/FmCore/Clipboard/Sync.antt =====
-- Every callback's last call agrees with the slot (src/ui-common/fm-core/src/clipboard.rs).
use app_full.Base.{
  ℕ, ◌≡◌, ◌⊎◌, inl, inr, refl, Bool, false, List, [], ◌∷◌, ◌++◌, Option, none, some, if◌then◌else◌,
  ◌==◌, any, arith, Bool-cases, ◌∙◌,
}
use app_full.FmCore.Clipboard.{
  Clip, Change, Clipboard, is_cut, len, new, call_all, notify, set, clear, clear_slot,
  connect_changed, is_gone, drop_if_unreachable,
}

-- What the slot shows.
pub summary : Option Clip → Change
summary none = record { count = 0; side = []; cut = false }
summary (some clip) = record { count = len clip; side = clip.side; cut = is_cut clip.kind }

-- The newest call of a callback.
pub last_call : ℕ → List (ℕ × Change) → Option Change
last_call h [] = none
last_call h ((g, c) ∷ calls) = if g == h then some c else last_call h calls

-- A callback that is not connected was never called, and the others know the slot, if they were
-- called since they were connected.
pub record IsSynced (cb : Clipboard) : Type 0 where
  pub silent : (h : ℕ) → any (λ g. g == h) cb.on_change ≡ false → last_call h cb.calls ≡ none
  pub informed :
      (h : ℕ) → (last_call h cb.calls ≡ none) ⊎ (last_call h cb.calls ≡ some (summary cb.slot))

last_call-call_all :
    (h : ℕ) (hs : List ℕ) (c : Change) (calls : List (ℕ × Change))
    → last_call h (call_all hs c calls)
      ≡ (if any (λ g. g == h) hs then some c else last_call h calls)
unfolding last_call call_all
last_call-call_all h [] c calls = refl
last_call-call_all h (g ∷ hs) c calls = last_call-call_all h hs c ((g, c) ∷ calls) ∙ ground arith

notify-IsSynced :
    (cb : Clipboard) (slot : Option Clip)
    → IsSynced cb
    → IsSynced (notify (summary slot) (record cb { slot = slot }))
unfolding notify
notify-IsSynced cb slot s = record {
  silent =
      λ h off. rw (last_call-call_all h cb.on_change (summary slot) cb.calls, off) (s.silent h off);
  informed = λ h. elim (Bool-cases (any (λ g. g == h) cb.on_change)) [
    | inl on ↦ inr (rw (last_call-call_all h cb.on_change (summary slot) cb.calls, on))
    | inr off ↦
        inl (rw (last_call-call_all h cb.on_change (summary slot) cb.calls, off) (s.silent h off))
  ];
}

pub new-IsSynced : IsSynced new
unfolding new last_call
new-IsSynced = record { silent = λ h off. refl; informed = λ h. inl refl }

pub set-IsSynced : (clip : Clip) (cb : Clipboard) → IsSynced cb → IsSynced (set clip cb)
unfolding set summary
set-IsSynced clip cb s = notify-IsSynced cb (some clip) s

clear_slot-IsSynced : (cb : Clipboard) (o : Option Clip) → IsSynced cb → IsSynced (clear_slot o cb)
unfolding clear_slot summary
clear_slot-IsSynced cb none s = s
clear_slot-IsSynced cb (some clip) s = notify-IsSynced cb none s

pub clear-IsSynced : (cb : Clipboard) → IsSynced cb → IsSynced (clear cb)
unfolding clear
clear-IsSynced cb s = clear_slot-IsSynced cb cb.slot s

any-append_off :
    (h g : ℕ) (hs : List ℕ)
    → any (λ x. x == h) (hs ++ g ∷ []) ≡ false
    → any (λ x. x == h) hs ≡ false
any-append_off h g [] e = refl
any-append_off h g (x ∷ hs) e = ground (arith, any-append_off h g hs)

pub connect_changed-IsSynced :
    (g : ℕ) (cb : Clipboard) → IsSynced cb → IsSynced (connect_changed g cb)
unfolding connect_changed
connect_changed-IsSynced g cb s = record {
  silent = λ h off. s.silent h (any-append_off h g cb.on_change off);
  informed = s.informed;
}

pub drop_if_unreachable-IsSynced :
    (alive : ℕ → Bool) (live : List ℕ) (cb : Clipboard)
    → IsSynced cb
    → IsSynced (drop_if_unreachable alive live cb)
unfolding drop_if_unreachable
drop_if_unreachable-IsSynced alive live cb s = elim (Bool-cases (is_gone alive live cb.slot)) [
  | inl e ↦ rw e (clear-IsSynced cb s)
  | inr e ↦ rw e s
]

-- One operation of the clipboard.
pub data Step : Clipboard → Clipboard → Type 0 where
  take : (clip : Clip) (cb : Clipboard) → Step cb (set clip cb)
  empty : (cb : Clipboard) → Step cb (clear cb)
  connect : (g : ℕ) (cb : Clipboard) → Step cb (connect_changed g cb)
  navigate :
      (alive : ℕ → Bool) (live : List ℕ) (cb : Clipboard)
      → Step cb (drop_if_unreachable alive live cb)

pub data Reach (start : Clipboard) : Clipboard → Type 0 where
  here : Reach start start
  next : {t u : Clipboard} → Reach start t → Step t u → Reach start u

Step-IsSynced : {t u : Clipboard} → Step t u → IsSynced t → IsSynced u
Step-IsSynced (take clip cb) s = set-IsSynced clip cb s
Step-IsSynced (empty cb) s = clear-IsSynced cb s
Step-IsSynced (connect g cb) s = connect_changed-IsSynced g cb s
Step-IsSynced (navigate alive live cb) s = drop_if_unreachable-IsSynced alive live cb s

-- After any operations on a new clipboard, the newest call of every callback tells the number, the
-- side and the kind of what the slot holds, if the callback was ever called.
pub Reach-IsSynced : {cb : Clipboard} → Reach new cb → IsSynced cb
Reach-IsSynced here = new-IsSynced
Reach-IsSynced (next r st) = Step-IsSynced st (Reach-IsSynced r)

-- After any operations on a new clipboard, the newest call of every callback tells the number, the
-- side and the kind of what the slot holds, if the callback was ever called.
pub last_call-summary :
    {cb : Clipboard}
    → Reach new cb
    → (h : ℕ) → (last_call h cb.calls ≡ none) ⊎ (last_call h cb.calls ≡ some (summary cb.slot))
last_call-summary r = (Reach-IsSynced r).informed
