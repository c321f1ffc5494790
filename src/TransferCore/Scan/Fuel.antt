-- ===== src/TransferCore/Scan/Fuel.antt =====
-- A scan of a finite tree ends (src/transfer-core/src/lib.rs).
use app_full.Base.{
  ℕ, zero, suc, ◌+◌, ◌≤◌, ◌<◌, ◌≡◌, ◌≢◌, refl, sym, subst, Bool, true, false, Bool-cases, inl, inr,
  List, [], ◌∷◌, if◌then◌else◌, arith,
}
use app_full.Base.Texts.{Str}
use app_full.Base.Outcome.{ok, modify}
use app_full.Base.Keeps.{Keeps, Keeps-bind, keeps_rules}
use app_full.Base.Gives.{ok_injective, ok_of_bind, ended-bind, then_at}
use app_full.PanelCore.Nav.{RemoteFileEntry}
use app_full.TransferCore.{TransferItem, join_path, ready}
use app_full.TransferCore.Engine.Growth.{raise-Keeps}
use app_full.TransferCore.Scan.{
  Provider, Pending, Selected, Scan, nothing_scanned, on_update, count_file, add_item, push, ask,
  select, select_all, maybe_update_at, maybe_update, check_cancelled, list_dir, child_of, file_of,
  dir_of, scan_file, scan_entry, scan_entries, prepare, scan_dir, scan_next, scan_loop, scan_items,
}

module _ (provider : Provider) (src_parent : Str) (weight : Str → ℕ) where
  -- The weight of the directories among what was listed in a directory.
  unfoldable pub entries_weight : Str → List RemoteFileEntry → ℕ
  entries_weight path [] = 0
  entries_weight path (entry ∷ entries) =
      let rest = entries_weight path entries in
      (if entry.is_dir then weight (join_path path entry.name) else 0) + rest

  queue_weight : List Pending → ℕ
  queue_weight [] = 0
  queue_weight (p ∷ ps) = weight p.src_path + queue_weight ps

  unfoldable pub selected_weight : List Selected → ℕ
  selected_weight [] = 0
  selected_weight (it ∷ its) =
      let rest = selected_weight its in
      (if it.is_dir then weight (join_path src_parent it.name) else 0) + rest

  module _ (Q : List Pending → Type 0) where
    abbrev OnQueue : Scan → Type 0
    OnQueue s = Q s.queue

    ask-Keeps : {A : Type 0} → (f : ℕ → A) → Keeps OnQueue (ask f)
    unfolding ask
    ask-Keeps f = record { at = λ s h. h }

    maybe_update_at-OnQueue :
        (t : ℕ) (s : Scan) → OnQueue s → OnQueue (maybe_update_at provider src_parent t s)
    unfolding maybe_update_at on_update
    maybe_update_at-OnQueue t s h = elim (Bool-cases (ready s.timer t).0) [
      | inl e ↦ rw e h
      | inr e ↦ rw e h
    ]

    maybe_update-Keeps : Keeps OnQueue (maybe_update provider src_parent)
    unfolding maybe_update
    maybe_update-Keeps = search (keeps_rules, ask-Keeps, maybe_update_at-OnQueue) depth 8

    check_cancelled-Keeps : Keeps OnQueue (check_cancelled provider src_parent)
    unfolding check_cancelled
    check_cancelled-Keeps = search (keeps_rules, ask-Keeps, raise-Keeps) depth 8

    add_item-Keeps : (item : TransferItem) → Keeps OnQueue (modify (add_item item))
    unfolding add_item
    add_item-Keeps item = record { at = λ s h. h }

    scan_file-Keeps :
        (dir : Pending) (entry : RemoteFileEntry)
        → Keeps OnQueue (scan_file provider src_parent dir entry)
    unfolding scan_file count_file
    scan_file-Keeps dir entry =
        Keeps-bind (modify (count_file entry.size)) _ (record { at = λ s h. h })
          λ u.
            Keeps-bind (maybe_update provider src_parent) _ maybe_update-Keeps
              λ v. add_item-Keeps (file_of provider src_parent dir entry)

    prepare-Keeps : (dir : Pending) → Keeps OnQueue (prepare provider src_parent dir)
    unfolding prepare
    prepare-Keeps dir =
        Keeps-bind (check_cancelled provider src_parent) _ check_cancelled-Keeps λ u.
          Keeps-bind (modify (λ s. record s { dirs = suc s.dirs })) _ (record { at = λ s h. h })
            λ v.
              Keeps-bind (maybe_update provider src_parent) _ maybe_update-Keeps
                λ w. add_item-Keeps (dir_of provider src_parent dir)

  entry_weight : Str → RemoteFileEntry → ℕ
  entry_weight path entry = if entry.is_dir then weight (join_path path entry.name) else 0

  scan_entry-weight :
      (dir : Pending) (entry : RemoteFileEntry) (s : Scan)
      → queue_weight (scan_entry provider src_parent dir entry s).1.queue
        ≤ entry_weight dir.src_path entry + queue_weight s.queue
  unfolding scan_entry entry_weight push child_of queue_weight
  scan_entry-weight dir entry s = elim (Bool-cases entry.is_dir) [
    | inl e ↦ rw e (omega arith)
    | inr e ↦ rw e (
        (scan_file-Keeps (λ q. queue_weight q ≤ 0 + queue_weight s.queue) dir _).at s (omega arith))
  ]

  scan_entries-bound :
      (dir : Pending) (entries : List RemoteFileEntry) (bound : ℕ) (s : Scan)
      → entries_weight dir.src_path entries + queue_weight s.queue ≤ bound
      → queue_weight (scan_entries provider src_parent dir entries s).1.queue ≤ bound
  unfolding scan_entries entries_weight
  scan_entries-bound dir [] bound s h = let k : 0 + queue_weight s.queue ≤ bound = h in omega arith
  scan_entries-bound dir (entry ∷ entries) bound s h =
      let w = scan_entry-weight dir entry s in
      let k : entry_weight dir.src_path entry
            + entries_weight dir.src_path entries
            + queue_weight s.queue
          ≤ bound =
        unfold entry_weight in h in
      ended-bind (λ t. queue_weight t.queue ≤ bound) (scan_entry provider src_parent dir entry)
        (λ u. scan_entries provider src_parent dir entries) s (omega arith)
        (λ u e.
          scan_entries-bound dir entries bound (scan_entry provider src_parent dir entry s).1
            (omega arith))

  module _
      (finite : (n : ℕ) (path : Str) (entries : List RemoteFileEntry)
        → provider.list_dir n path ≡ ok entries
        → entries_weight path entries < weight path) where
    scan_dir-less :
        (dir : Pending) (s : Scan) (u : Unit)
        → (scan_dir provider src_parent dir s).0 ≡ ok u
        → queue_weight (scan_dir provider src_parent dir s).1.queue
          < weight dir.src_path + queue_weight s.queue
    unfolding scan_dir
    scan_dir-less dir s =
        let goal : Unit → Scan → Type 0 =
          λ u t. queue_weight t.queue < weight dir.src_path + queue_weight s.queue in
        then_at (λ v t. t.queue ≡ s.queue) goal (prepare provider src_parent dir) _ s
          (λ v e. (prepare-Keeps (λ q. q ≡ s.queue) dir).at s refl)
          (λ v t q.
            then_at
              (λ entries r.
                (r.queue ≡ s.queue) × (entries_weight dir.src_path entries < weight dir.src_path))
              goal (list_dir provider src_parent dir.src_path)
              (scan_entries provider src_parent dir) t
              (λ entries e. unfold list_dir in (q, finite t.now dir.src_path entries e))
              (λ entries r k b e.
                let bound : ℕ = entries_weight dir.src_path entries + queue_weight s.queue in
                let m = scan_entries-bound dir entries bound r (
                  subst (λ q. entries_weight dir.src_path entries + queue_weight q ≤ bound)
                    (sym k.0) (omega arith)) in
                omega (arith, k.1)))

    scan_next-ends :
        (left : ℕ) (queue : List Pending) (s : Scan) (b : Bool)
        → ((t : Scan)
            → queue_weight t.queue < left
            → (scan_loop provider src_parent left t).0 ≡ ok b
            → b ≡ true)
        → queue_weight queue < suc left
        → (scan_next provider src_parent (scan_loop provider src_parent left) queue s).0 ≡ ok b
        → b ≡ true
    unfolding scan_next queue_weight
    scan_next-ends left [] s b f h e = sym (ok_injective e)
    scan_next-ends left (dir ∷ dirs) s b f h e =
        let popped : Scan = record s { queue = dirs } in
        let (u, e1, e2) =
          ok_of_bind (scan_dir provider src_parent dir) (λ u. scan_loop provider src_parent left)
            popped b e in
        f (scan_dir provider src_parent dir popped).1 (omega (arith, scan_dir-less dir popped u e1))
          e2

    scan_loop-ends :
        (fuel : ℕ) (s : Scan) (b : Bool)
        → queue_weight s.queue < fuel
        → (scan_loop provider src_parent fuel s).0 ≡ ok b
        → b ≡ true
    unfolding scan_loop
    scan_loop-ends zero s b h e = absurd (omega arith)
    scan_loop-ends (suc left) s b h e =
        scan_next-ends left s.queue s b (λ t. scan_loop-ends left t b) h e

    select-weight :
        (it : Selected) (s : Scan)
        → queue_weight (select provider src_parent it s).queue
          ≡ (if it.is_dir then weight (join_path src_parent it.name) else 0) + queue_weight s.queue
    unfolding select push add_item count_file queue_weight
    select-weight it s = elim (Bool-cases it.is_dir) [
      | inl e ↦ rw e refl
      | inr e ↦ rw e (omega arith)
    ]

    select_all-weight :
        (its : List Selected) (s : Scan)
        → queue_weight (select_all provider src_parent its s).queue
          ≡ selected_weight its + queue_weight s.queue
    unfolding select_all selected_weight
    select_all-weight [] s = omega arith
    select_all-weight (it ∷ its) s =
        omega (arith, select_all-weight its (select provider src_parent it s), select-weight it s)

    true_of_false : false ≡ true → ⊥
    true_of_false e = cc

    -- If the provider lists a finite tree, in which a directory weighs more than the directories in it
    -- together, then with more rounds than the selected directories weigh the loop is never cut short:
    -- the scan returns with an empty queue, or ends by a cancellation or by how a listing ends.
    pub scan_items-ends :
        (fuel : ℕ) (selected : List Selected)
        → selected_weight selected < fuel
        → (scan_items provider src_parent fuel selected nothing_scanned).0 ≢ ok false
    unfolding scan_items ask on_update nothing_scanned queue_weight
    scan_items-ends fuel selected h = λ e. true_of_false (
        scan_loop-ends fuel _ false
          (subst (λ w. w < fuel) (sym (select_all-weight selected _)) (omega arith)) e)
