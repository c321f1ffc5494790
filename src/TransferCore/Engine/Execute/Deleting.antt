-- ===== src/TransferCore/Engine/Execute/Deleting.antt =====
-- What a move deletes at the source.
use app_full.Base.{
  ◌++◌, Bool, ◌⊎◌, any, ℕ, ◌≡◌, refl, ap, sym, subst, ◌∙◌, inl, inr, false, Bool-cases, List, [],
  ◌∷◌, All, Any, if◌then◌else◌,
}
use app_full.Base.Texts.{Str, contains, starts_with}
use app_full.FmCore.Path.{slash}
use app_full.Base.Outcome.{ok}
use app_full.Base.Keeps.{Keeps, Keeps-bind, Keeps-gets, Keeps-pure, keeps_rules}
use app_full.Base.Gives.{ok_injective, ok_of_bind}
use app_full.TransferCore.{TransferItem, join_path}
use app_full.TransferCore.Engine.{World, Transfer, ask, check_cancelled}
use app_full.TransferCore.Engine.Growth.{raise-Keeps}
use app_full.TransferCore.Engine.Execute.{is_kept, paths_to_delete}
use app_full.TransferCore.Engine.Execute.Arrival.{Evidence, IsSettled}

-- The item is not skipped, and if it is a directory, no skipped path is below it.
abbrev pub IsSpared : List Str → TransferItem → Type 0
IsSpared skipped item =
    (contains skipped item.relative_path ≡ false)
    × ((item.is_dir ≡ false)
        ⊎ All (λ k. starts_with (item.relative_path ++ slash ∷ []) k ≡ false) skipped)

none_of_any :
    {A : Type 0} → (p : A → Bool) (xs : List A) → any p xs ≡ false → All (λ x. p x ≡ false) xs
none_of_any p [] h = tt
none_of_any p (x ∷ xs) h = elim (Bool-cases (p x)) [
  | inl e ↦ absurd (cc (rw e at h))
  | inr e ↦ (e, none_of_any p xs (rw e at h))
]

is_kept-IsSpared :
    (world : World) (skipped : List Str) (item : TransferItem)
    → is_kept world skipped item ≡ false
    → IsSpared skipped item
unfolding is_kept
is_kept-IsSpared world skipped item h = elim (Bool-cases (contains skipped item.relative_path)) [
  | inl e ↦ absurd (cc (rw e at h))
  | inr e ↦ (
    e,
    elim (Bool-cases item.is_dir) [
      | inl d ↦ inr (none_of_any _ skipped (rw (e, d) at h))
      | inr d ↦ inl d
    ],
  )
]

module _ (world : World) (Q : Evidence) (dest_parent : Str) where
  -- An item of the run with that source, which was not skipped, holds nothing that was skipped if it
  -- is a directory, and has arrived.
  pub record IsMoved (s : Transfer) (path : Str) (item : TransferItem) : Type 0 where
    pub source_eq : item.src_path ≡ path
    pub spared : IsSpared s.skipped item
    pub arrived : Q (join_path dest_parent item.relative_path) item s.done

  abbrev pub AreMoved : List TransferItem → List Str → Transfer → Type 0
  AreMoved items paths s = All (λ path. Any (IsMoved s path) items) paths

  arrived_of_settled :
      (item : TransferItem) (s : Transfer)
      → is_kept world s.skipped item ≡ false
      → IsSettled Q dest_parent item s
      → Q (join_path dest_parent item.relative_path) item s.done
  unfolding is_kept
  arrived_of_settled item s k h = elim h [ inl c ↦ absurd (cc (rw c at k)) | inr q ↦ q ]

  abbrev pub AllSettled : List TransferItem → Transfer → Type 0
  AllSettled items s = All (λ item. IsSettled Q dest_parent item s) items

  IsMoved-later :
      (path : Str) (s t : Transfer) (items : List TransferItem)
      → ((item : TransferItem) → IsMoved s path item → IsMoved t path item)
      → Any (IsMoved s path) items
      → Any (IsMoved t path) items
  IsMoved-later path s t [] f h = h
  IsMoved-later path s t (item ∷ items) f h = elim h [
    | inl m ↦ inl (f item m)
    | inr r ↦ inr (IsMoved-later path s t items f r)
  ]

  pub AreMoved-later :
      (items : List TransferItem) (paths : List Str) (s t : Transfer)
      → ((path : Str) (item : TransferItem) → IsMoved s path item → IsMoved t path item)
      → AreMoved items paths s
      → AreMoved items paths t
  AreMoved-later items [] s t f h = tt
  AreMoved-later items (p ∷ ps) s t f h =
      (IsMoved-later p s t items (f p) h.0, AreMoved-later items ps s t f h.1)

  -- The state differs from another one in no log.
  pub record IsSame (s t : Transfer) : Type 0 where
    pub tried_eq : t.tried ≡ s.tried
    pub done_eq : t.done ≡ s.done
    pub skipped_eq : t.skipped ≡ s.skipped

  ask-IsSame : {A : Type 0} → (s : Transfer) (f : ℕ → A) → Keeps (IsSame s) (ask f)
  unfolding ask
  ask-IsSame s f = record {
    at = λ t h. record { tried_eq = h.tried_eq; done_eq = h.done_eq; skipped_eq = h.skipped_eq };
  }

  check_cancelled-IsSame : (s : Transfer) → Keeps (IsSame s) (check_cancelled world)
  unfolding check_cancelled
  check_cancelled-IsSame s = search (keeps_rules, ask-IsSame, raise-Keeps) depth 8

  pub paths_to_delete-IsSame :
      (s : Transfer) (items : List TransferItem) → Keeps (IsSame s) (paths_to_delete world items)
  unfolding paths_to_delete
  paths_to_delete-IsSame s [] = search keeps_rules
  paths_to_delete-IsSame s (item ∷ items) =
      Keeps-bind (check_cancelled world) _ (check_cancelled-IsSame s) λ u.
        Keeps-bind _ _ (Keeps-gets (λ (t : Transfer). t.skipped)) λ skipped.
          Keeps-bind _ _ (paths_to_delete-IsSame s items) λ paths.
            Keeps-pure (if is_kept world skipped item then paths else item.src_path ∷ paths)

  -- The items that may be deleted, seen from the whole run.
  abbrev pub IsPart : List TransferItem → Transfer → TransferItem → Type 0
  IsPart all s item =
      IsSettled Q dest_parent item s
      × ((path : Str) → IsMoved s path item → Any (IsMoved s path) all)

  AreMoved-one :
      (all : List TransferItem) (s : Transfer) (item : TransferItem) (paths : List Str)
      → IsPart all s item
      → AreMoved all paths s
      → AreMoved all (if is_kept world s.skipped item then paths else item.src_path ∷ paths) s
  AreMoved-one all s item paths part h = elim (Bool-cases (is_kept world s.skipped item)) [
    | inl e ↦ rw e h
    | inr e ↦ rw e (
      part.1 item.src_path (record {
        source_eq = refl;
        spared = is_kept-IsSpared world s.skipped item e;
        arrived = arrived_of_settled item s e part.0;
      }),
      h,
    )
  ]

  pub paths_to_delete-Gives :
      (all : List TransferItem) (s : Transfer) (items : List TransferItem)
      → All (IsPart all s) items
      → (t : Transfer) (paths : List Str) → IsSame s t
      → (paths_to_delete world items t).0 ≡ ok paths
      → AreMoved all paths s
  unfolding paths_to_delete
  paths_to_delete-Gives all s [] parts t paths same e =
      subst (λ ps. AreMoved all ps s) (ok_injective e) tt
  paths_to_delete-Gives all s (item ∷ items) parts t paths same e =
      let (u, eu, e1) = ok_of_bind (check_cancelled world) _ t paths e in
      let (ps, ep, e2) =
        ok_of_bind (paths_to_delete world items) _ (check_cancelled world t).1 paths e1 in
      let now = (check_cancelled-IsSame s).at t same in
      subst (λ k. AreMoved all k s)
        (ap (λ k. if is_kept world k item then ps else item.src_path ∷ ps) (sym now.skipped_eq)
          ∙ ok_injective e2)
        (AreMoved-one all s item ps parts.0 (paths_to_delete-Gives all s items parts.1 _ ps now ep))
