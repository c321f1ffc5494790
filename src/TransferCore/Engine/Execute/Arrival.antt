-- ===== src/TransferCore/Engine/Execute/Arrival.antt =====
-- Every item of a transfer that goes through has arrived or was skipped.
use app_full.Base.{◌≡◌, refl, sym, subst, ◌⊎◌, inl, inr, Bool, true, List, [], ◌∷◌, All}
use app_full.Base.Texts.{Str, contains, contains_before, contains_last}
use app_full.Base.Outcome.{
  AppError, cancelled, io, remote, config, other, ok, err, panicked, dropped, modify, pure,
}
use app_full.Base.Keeps.{Keeps, Keeps-bind}
use app_full.Base.Gives.{Gives, Gives-raise, Gives-bind, Gives-then}
use app_full.TransferCore.{TransferItem, ErrorAction, retry, skip, abort, join_path}
use app_full.TransferCore.Engine.{Call, World, Transfer, Op, Ended, check_cancelled}
use app_full.TransferCore.Engine.Growth.{Grows}
use app_full.TransferCore.Engine.Execute.{
  skip_item, abort_item, settle, answered, ask_user, failed_with, attempt_then, transfer_item,
  transfer_items,
}
use app_full.TransferCore.Engine.Execute.Growth.{
  drop_partial-Keeps, marked-Keeps, transfer_items-Keeps,
}

-- What is known of an item from the calls that are done, given the path at which it is to arrive.
abbrev pub Evidence : Type 1
Evidence = Str → TransferItem → List Call → Type 0

-- More calls do not take evidence away.
pub record Lasts (Q : Evidence) : Type 0 where
  pub by_call :
      (path : Str) (item : TransferItem) (c : Call) (d : List Call)
      → Q path item d
      → Q path item (c ∷ d)

module _ (Q : Evidence) (dest_parent : Str) where
  abbrev pub IsSettled : TransferItem → Transfer → Type 0
  IsSettled item s =
      (contains s.skipped item.relative_path ≡ true)
      ⊎ Q (join_path dest_parent item.relative_path) item s.done

  pub IsSettled-Grows : Lasts Q → (item : TransferItem) → Grows (IsSettled item)
  IsSettled-Grows lasts item = record {
    by_rest = λ s t a b c h. elim h [
      | inl k ↦ inl (subst (λ ks. contains ks item.relative_path ≡ true) (sym c) k)
      | inr q ↦ inr (subst (Q (join_path dest_parent item.relative_path) item) (sym b) q)
    ];
    by_try = λ c s e h. h;
    by_done = λ c s e h. elim h [ inl k ↦ inl k | inr q ↦ inr (lasts.by_call _ _ c s.done q) ];
    by_skip = λ x s h. elim h [ inl k ↦ inl (contains_before s.skipped x _ k) | inr q ↦ inr q ];
  }

  module _ (lasts : Lasts Q) (world : World) (attempt : Str → TransferItem → Op Unit) (local : Bool)
      (attempt-Keeps : (P : Transfer → Type 0)
        → Grows P
        → (path : Str) (item : TransferItem) → Keeps P (attempt path item))
      (attempt-Gives : (path : Str) (item : TransferItem)
        → Gives (λ u s. Q path item s.done) (attempt path item)) where
    abort_item-Gives :
        {A : Type 0}
        → {Post : A → Transfer → Type 0} → (path : Str) (item : TransferItem)
        → Gives Post (abort_item world {A = A} local path item)
    unfolding abort_item
    abort_item-Gives path item = Gives-bind _ _ λ u. Gives-raise cancelled

    skip_item-Settles :
        (path : Str) (item : TransferItem) (s : Transfer)
        → IsSettled item (skip_item world local path item s).1
    unfolding skip_item
    skip_item-Settles path item s =
        (Keeps-bind _ _ (drop_partial-Keeps (IsSettled-Grows lasts item) world local path item)
            λ u. marked-Keeps (IsSettled-Grows lasts item) world item).at
          _ (inl (contains_last s.skipped item.relative_path))

    answered-Gives :
        (action : ErrorAction) (again : Op (List ErrorAction)) (left : List ErrorAction)
        (path : Str) (item : TransferItem)
        → Gives (λ a s. IsSettled item s) again
        → Gives (λ a s. IsSettled item s) (answered world action again left local path item)
    unfolding answered
    answered-Gives retry again left path item g = g
    answered-Gives skip again left path item g =
        Gives-then {A = Unit} {P = λ u s. IsSettled item s} (skip_item world local path item)
          (λ u. pure left) (record { at = λ s a e. skip_item-Settles path item s }) (λ u s h b e. h)
    answered-Gives abort again left path item g = abort_item-Gives path item

    settle-Gives :
        (item : TransferItem) (failed : AppError → Op (List ErrorAction)) (left : List ErrorAction)
        (r : Ended Unit) (a : List ErrorAction)
        → ((e : AppError) → Gives (λ a s. IsSettled item s) (failed e))
        → (r.0 ≡ ok tt → Q (join_path dest_parent item.relative_path) item r.1.done)
        → (settle world failed left r).0 ≡ ok a
        → IsSettled item (settle world failed left r).1
    unfolding settle
    settle-Gives item failed left (ok u, s) a g q h = inr (q refl)
    settle-Gives item failed left (err cancelled, s) a g q h = absurd (cc)
    settle-Gives item failed left (err (io m), s) a g q h = (g (io m)).at s a h
    settle-Gives item failed left (err (remote m), s) a g q h = (g (remote m)).at s a h
    settle-Gives item failed left (err (config m), s) a g q h = (g (config m)).at s a h
    settle-Gives item failed left (err (other m), s) a g q h = (g (other m)).at s a h
    settle-Gives item failed left (panicked, s) a g q h = absurd (cc)
    settle-Gives item failed left (dropped, s) a g q h = absurd (cc)

    failed_with-Gives :
        (next : Op (List ErrorAction)) (item : TransferItem)
        → Gives (λ a s. IsSettled item s) next
        → (e : AppError) → Gives (λ a s. IsSettled item s) (failed_with world next item e)
    unfolding failed_with
    failed_with-Gives next item g e = Gives-bind (modify (ask_user world item e)) _ λ u. g

    attempt_then-Gives :
        (next : Op (List ErrorAction)) (left : List ErrorAction) (item : TransferItem)
        → Gives (λ a s. IsSettled item s) next
        → Gives
            (λ a s. IsSettled item s)
            (attempt_then world attempt local dest_parent next left item)
    unfolding attempt_then
    attempt_then-Gives next left item g = record {
      at = λ s a h.
          settle-Gives item _ _ _ a (failed_with-Gives next item g) ((attempt-Gives _ item).at s tt)
            h;
    }

    transfer_item-Gives :
        (actions : List ErrorAction) (item : TransferItem)
        → Gives
            (λ a s. IsSettled item s)
            (transfer_item world attempt local dest_parent actions item)
    unfolding transfer_item
    transfer_item-Gives [] item =
        Gives-bind (check_cancelled world) _
          λ u. attempt_then-Gives _ [] item (abort_item-Gives _ item)
    transfer_item-Gives (action ∷ actions) item = Gives-bind (check_cancelled world) _ λ u.
        attempt_then-Gives _ (action ∷ actions) item
          (answered-Gives action _ actions _ item (transfer_item-Gives actions item))

    -- Every item of a run that returns has arrived or is among the skipped.
    pub transfer_items-Gives :
        (items : List TransferItem) (actions : List ErrorAction)
        → Gives
            (λ u s. All (λ item. IsSettled item s) items)
            (transfer_items world attempt local dest_parent items actions)
    unfolding transfer_items
    transfer_items-Gives [] actions = record { at = λ s a e. tt }
    transfer_items-Gives (item ∷ items) actions =
        let grows = IsSettled-Grows lasts item in
        Gives-then {P = λ left s. IsSettled item s} _ _ (transfer_item-Gives actions item)
          λ left s h b e. (
            (transfer_items-Keeps grows world attempt local dest_parent (attempt-Keeps _ grows)
                  items left).at
                s h,
            (transfer_items-Gives items left).at s b e,
          )
