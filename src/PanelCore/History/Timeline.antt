-- ===== src/PanelCore/History/Timeline.antt =====
-- The history as a timeline: what was before, the place that is shown, and what was left by going
-- back (src/panel-core/src/state.rs).
use app_full.Base.{
  ℕ, suc, ◌+◌, ◌-◌, ◌≡◌, inl, inr, refl, ap, Bool, true, false, List, [], ◌∷◌, ◌++◌, append_assoc,
  Option, none, some, if◌then◌else◌, arith, Bool-cases, ltb, length, length-append, take, get_elem?,
  set,
}
use app_full.Base.Outcome.{ok}
use app_full.PanelCore.Nav.{NavPath}
use app_full.PanelCore.History.{
  History, same_place, append_snapshot, record_at, record_nav, is_none_left, can_back, can_forward,
  snapshot_at, back, forward,
}

pub data Timeline : Type 0 where
  nowhere : Timeline
  at : List NavPath → NavPath → List NavPath → Timeline

-- The earlier places in the order in which they were visited; a timeline has the last one first.
pub oldest_first : List NavPath → List NavPath
oldest_first [] = []
oldest_first (p ∷ ps) = oldest_first ps ++ p ∷ []

-- The list and the index of a timeline.
abbrev pub IsView : Timeline → History → Type 0
IsView nowhere h = (h.snapshots ≡ []) × (h.index ≡ 0)
IsView (at past here future) h =
    (h.snapshots ≡ oldest_first past ++ here ∷ future) × (h.index ≡ length past)

-- A visit of the place that is shown replaces it; any other drops what was left by going back.
pub visit : Bool → NavPath → Timeline → Timeline
visit windows nav nowhere = at [] nav []
visit windows nav (at past here future) =
    if same_place windows here nav then at past nav future else at (here ∷ past) nav []

pub step_back : Timeline → Option NavPath × Timeline
step_back nowhere = (none, nowhere)
step_back (at [] here future) = (none, at [] here future)
step_back (at (p ∷ past) here future) = (some p, at past p (here ∷ future))

pub step_forward : Timeline → Option NavPath × Timeline
step_forward nowhere = (none, nowhere)
step_forward (at past here []) = (none, at past here [])
step_forward (at past here (p ∷ future)) = (some p, at (here ∷ past) p future)

length-oldest_first : (ps : List NavPath) → length (oldest_first ps) ≡ length ps
unfolding oldest_first
length-oldest_first [] = refl
length-oldest_first (p ∷ ps) =
    omega (arith, length-append (oldest_first ps) (p ∷ []), length-oldest_first ps)

get_elem?-middle {ℓ} :
    {A : Type ℓ} (xs : List A) (y : A) (ys : List A) → get_elem? (xs ++ y ∷ ys) (length xs) ≡ some y
get_elem?-middle [] y ys = refl
get_elem?-middle (x ∷ xs) y ys = get_elem?-middle xs y ys

set-middle {ℓ} :
    {A : Type ℓ} (xs : List A) (y z : A) (ys : List A)
    → set (xs ++ y ∷ ys) (length xs) z ≡ xs ++ z ∷ ys
set-middle [] y z ys = refl
set-middle (x ∷ xs) y z ys = ap (λ r. x ∷ r) (set-middle xs y z ys)

take-suc-middle {ℓ} :
    {A : Type ℓ} (xs : List A) (y : A) (ys : List A)
    → take (suc (length xs)) (xs ++ y ∷ ys) ≡ xs ++ y ∷ []
take-suc-middle [] y ys = refl
take-suc-middle (x ∷ xs) y ys = ap (λ r. x ∷ r) (take-suc-middle xs y ys)

take-middle {ℓ} :
    {A : Type ℓ} (xs : List A) (y : A) (ys : List A)
    → take (length xs + 1) (xs ++ y ∷ ys) ≡ xs ++ y ∷ []
take-middle xs y ys =
    let e : length xs + 1 ≡ suc (length xs) = omega arith in rw e (take-suc-middle xs y ys)

filled : (xs : List NavPath) (y : NavPath) (ys : List NavPath) → is_none_left (xs ++ y ∷ ys) ≡ false
unfolding is_none_left
filled [] y ys = refl
filled (x ∷ xs) y ys = refl

-- The facts about the current position, at an index that is the number of earlier places.
module _ (past : List NavPath) (here : NavPath) (future : List NavPath) where
  abbrev all : List NavPath
  all = oldest_first past ++ here ∷ future

  get_elem?-current : get_elem? all (length past) ≡ some here
  get_elem?-current =
      rw (← length-oldest_first past) (get_elem?-middle (oldest_first past) here future)

  snapshot_at-current : snapshot_at all (length past) ≡ ok (some here)
  unfolding snapshot_at
  snapshot_at-current = rw (get_elem?-current, snapshot_at)

  set-current : (nav : NavPath) → set all (length past) nav ≡ oldest_first past ++ nav ∷ future
  set-current nav = rw (← length-oldest_first past) (set-middle (oldest_first past) here nav future)

  take-current : take (length past + 1) all ≡ oldest_first past ++ here ∷ []
  take-current = rw (← length-oldest_first past) (take-middle (oldest_first past) here future)

  length-all : length all ≡ length past + 1 + length future
  length-all =
      omega (arith, length-append (oldest_first past) (here ∷ future), length-oldest_first past)

IsView-append_snapshot :
    (past : List NavPath) (here : NavPath) (future : List NavPath) (nav : NavPath) (h : History)
    → IsView (at past here future) h
    → IsView (at (here ∷ past) nav []) (append_snapshot nav h)
unfolding append_snapshot oldest_first
IsView-append_snapshot past here future nav h (s, i) =
    rw (s, i, filled (oldest_first past) here future, take-current past here future)
      (
        refl,
        omega (
          arith,
          length-append (oldest_first past ++ here ∷ []) (nav ∷ []),
          length-append (oldest_first past) (here ∷ []),
          length-oldest_first past,
        ),
      )

-- `record` is a visit.
pub record_nav-IsView :
    (windows : Bool) (nav : NavPath) (t : Timeline) (h : History)
    → IsView t h
    → IsView (visit windows nav t) (record_nav windows nav h)
unfolding record_nav visit
record_nav-IsView windows nav nowhere h (s, i) =
    unfold oldest_first in rw (s, record_at, append_snapshot) (refl, refl)
record_nav-IsView windows nav (at past here future) h (s, i) =
    rw (s, i, get_elem?-current past here future)
      (elim (Bool-cases (same_place windows here nav)) [
        | inl e ↦ rw (e, set-current past here future nav) (refl, refl)
        | inr e ↦ rw e (
            IsView-append_snapshot past here future nav
              (record { snapshots = oldest_first past ++ here ∷ future; index = length past })
              (refl, refl))
      ])

can_back-at :
    (past : List NavPath) (here : NavPath) (future : List NavPath) (h : History)
    → IsView (at past here future) h
    → can_back h ≡ ltb 0 (length past)
unfolding can_back
can_back-at past here future h (s, i) = rw (s, i, filled (oldest_first past) here future)

can_forward-at :
    (past : List NavPath) (here : NavPath) (future : List NavPath) (h : History)
    → IsView (at past here future) h
    → can_forward h ≡ ltb 0 (length future)
unfolding can_forward
can_forward-at past here future h (s, i) =
    rw (s, i, length-all past here future) (shift (length past) (length future))
  where
    shift : (m n : ℕ) → ltb (m + 1) (m + 1 + n) ≡ ltb 0 n
    shift m n = ground arith

positive : (n : ℕ) → ltb 0 (suc n) ≡ true
positive n = ground arith

-- `back` goes one step back on the timeline, and does not panic.
pub back-IsView :
    (t : Timeline) (h : History)
    → IsView t h
    → ((back h).0 ≡ ok (step_back t).0) × IsView (step_back t).1 (back h).1
unfolding back step_back oldest_first
back-IsView nowhere h (s, i) = unfold can_back in rw (s, i) (refl, (refl, refl))
back-IsView (at [] here future) h v = rw (can_back-at [] here future h v) (refl, v)
back-IsView (at (p ∷ past) here future) h v =
    let assoc = append_assoc (oldest_first past) (p ∷ []) (here ∷ future) in
    let less : suc (length past) - 1 ≡ length past = omega arith in
    rw
      (
        can_back-at (p ∷ past) here future h v,
        positive (length past),
        v.0,
        v.1,
        assoc,
        less,
        snapshot_at-current past p (here ∷ future),
      )
      (refl, (refl, refl))

-- `forward` goes one step forward on the timeline, and does not panic.
pub forward-IsView :
    (t : Timeline) (h : History)
    → IsView t h
    → ((forward h).0 ≡ ok (step_forward t).0) × IsView (step_forward t).1 (forward h).1
unfolding forward step_forward oldest_first
forward-IsView nowhere h (s, i) = unfold can_forward in rw (s, i) (refl, (refl, refl))
forward-IsView (at past here []) h v = rw (can_forward-at past here [] h v) (refl, v)
forward-IsView (at past here (p ∷ future)) h v =
    let assoc = append_assoc (oldest_first past) (here ∷ []) (p ∷ future) in
    let more : length past + 1 ≡ suc (length past) = omega arith in
    rw
      (
        can_forward-at past here (p ∷ future) h v,
        positive (length future),
        v.0,
        v.1,
        ← assoc,
        more,
        snapshot_at-current (here ∷ past) p future,
      )
      (refl, (refl, refl))
