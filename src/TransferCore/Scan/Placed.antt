-- ===== src/TransferCore/Scan/Placed.antt =====
-- Every item of a scan is placed (src/transfer-core/src/lib.rs).
use app_full.Base.{ℕ, zero, suc, ◌≡◌, Bool, Bool-cases, inl, inr, List, [], ◌∷◌, All, All-append}
use app_full.Base.Texts.{Str}
use app_full.Base.Outcome.{ok, ◌>>=◌, modify}
use app_full.Base.Keeps.{Keeps, Keeps-bind, Keeps-pure, Keeps-if, keeps_rules}
use app_full.Base.Gives.{ended-bind}
use app_full.FmCore.Path.Joining.{IsComponent}
use app_full.PanelCore.Nav.{RemoteFileEntry}
use app_full.TransferCore.{TransferItem, ready}
use app_full.TransferCore.Engine.Growth.{raise-Keeps}
use app_full.TransferCore.Scan.{
  Provider, Pending, Selected, Scan, Op, nothing_scanned, on_update, count_file, add_item, push,
  ask, select, select_all, maybe_update_at, maybe_update, check_cancelled, list_dir, child_of,
  file_of, dir_of, scan_file, scan_entry, scan_entries, prepare, scan_dir, scan_next, scan_loop,
  scan_items,
}
use app_full.TransferCore.Scan.Places.{IsPlaced, IsPlaced-component, IsPlaced-child}

module _ (src_parent : Str) where
  abbrev pub IsItemPlaced : TransferItem → Type 0
  IsItemPlaced item = IsPlaced src_parent item.src_path item.relative_path

  abbrev IsPendingPlaced : Pending → Type 0
  IsPendingPlaced p = IsPlaced src_parent p.src_path p.relative_path

  abbrev AllPlaced : Scan → Type 0
  AllPlaced s = All IsItemPlaced s.items × All IsPendingPlaced s.queue

  count_file-Keeps : (size : ℕ) → Keeps AllPlaced (modify (count_file size))
  unfolding count_file
  count_file-Keeps size = record { at = λ s h. h }

  on_update-Keeps : Keeps AllPlaced (modify on_update)
  unfolding on_update
  on_update-Keeps = record { at = λ s h. h }

  add_item-Keeps :
      (item : TransferItem) → IsItemPlaced item → Keeps AllPlaced (modify (add_item item))
  unfolding add_item
  add_item-Keeps item p = record {
    at = λ s h. (All-append IsItemPlaced s.items (item ∷ []) h.0 (p, tt), h.1);
  }

  push-Keeps : (p : Pending) → IsPendingPlaced p → Keeps AllPlaced (modify (push p))
  unfolding push
  push-Keeps p k = record { at = λ s h. (h.0, (k, h.1)) }

  ask-Keeps : {A : Type 0} → (f : ℕ → A) → Keeps AllPlaced (ask f)
  unfolding ask
  ask-Keeps f = record { at = λ s h. h }

  module _ (provider : Provider) where
    maybe_update_at-Placed :
        (t : ℕ) (s : Scan) → AllPlaced s → AllPlaced (maybe_update_at provider src_parent t s)
    unfolding maybe_update_at on_update
    maybe_update_at-Placed t s h = elim (Bool-cases (ready s.timer t).0) [
      | inl e ↦ rw e h
      | inr e ↦ rw e h
    ]

    maybe_update-Keeps : Keeps AllPlaced (maybe_update provider src_parent)
    unfolding maybe_update
    maybe_update-Keeps = search (keeps_rules, ask-Keeps, maybe_update_at-Placed) depth 8

    check_cancelled-Keeps : Keeps AllPlaced (check_cancelled provider src_parent)
    unfolding check_cancelled
    check_cancelled-Keeps = search (keeps_rules, ask-Keeps, raise-Keeps) depth 8

    scan_file-Keeps :
        (dir : Pending) (entry : RemoteFileEntry)
        → IsPendingPlaced dir
        → IsComponent entry.name
        → Keeps AllPlaced (scan_file provider src_parent dir entry)
    unfolding scan_file file_of
    scan_file-Keeps dir entry p c =
        Keeps-bind (modify (count_file entry.size)) _ (count_file-Keeps entry.size) λ u.
          Keeps-bind (maybe_update provider src_parent) _ maybe_update-Keeps λ v.
            add_item-Keeps (file_of provider src_parent dir entry)
              (IsPlaced-child src_parent dir.src_path dir.relative_path entry.name p c)

    scan_entry-Keeps :
        (dir : Pending) (entry : RemoteFileEntry)
        → IsPendingPlaced dir
        → IsComponent entry.name
        → Keeps AllPlaced (scan_entry provider src_parent dir entry)
    unfolding scan_entry child_of
    scan_entry-Keeps dir entry p c =
        Keeps-if entry.is_dir _ _
          (push-Keeps (child_of provider src_parent dir entry)
            (IsPlaced-child src_parent dir.src_path dir.relative_path entry.name p c))
          (scan_file-Keeps dir entry p c)

    scan_entries-Keeps :
        (dir : Pending) (entries : List RemoteFileEntry)
        → IsPendingPlaced dir
        → All (λ entry. IsComponent entry.name) entries
        → Keeps AllPlaced (scan_entries provider src_parent dir entries)
    unfolding scan_entries
    scan_entries-Keeps dir [] p c = Keeps-pure tt
    scan_entries-Keeps dir (entry ∷ entries) p c =
        let rest = scan_entries-Keeps dir entries p c.1 in
        Keeps-bind (scan_entry provider src_parent dir entry) _ (scan_entry-Keeps dir entry p c.0)
          λ u. rest

    module _
        (listed : (n : ℕ) (path : Str) (entries : List RemoteFileEntry)
          → provider.list_dir n path ≡ ok entries
          → All (λ entry. IsComponent entry.name) entries) where
      list_dir-then :
          (dir : Pending)
          → IsPendingPlaced dir
          → Keeps AllPlaced
              (list_dir provider src_parent dir.src_path >>= scan_entries provider src_parent dir)
      list_dir-then dir p = record {
        at = λ s h.
            ended-bind AllPlaced (list_dir provider src_parent dir.src_path)
              (scan_entries provider src_parent dir) s (unfold list_dir in h)
              (λ entries e.
                (scan_entries-Keeps dir entries p
                    (listed s.now dir.src_path entries (unfold list_dir in e))).at
                  _ (unfold list_dir in h));
      }

      count_dir-Keeps : Keeps AllPlaced (modify (λ s. record s { dirs = suc s.dirs }))
      count_dir-Keeps = record { at = λ s h. h }

      prepare-Keeps :
          (dir : Pending) → IsPendingPlaced dir → Keeps AllPlaced (prepare provider src_parent dir)
      unfolding prepare
      prepare-Keeps dir p =
          Keeps-bind (check_cancelled provider src_parent) _ check_cancelled-Keeps λ u.
            Keeps-bind (modify (λ s. record s { dirs = suc s.dirs })) _ count_dir-Keeps λ v.
              Keeps-bind (maybe_update provider src_parent) _ maybe_update-Keeps
                λ w. add_item-Keeps (dir_of provider src_parent dir) (unfold dir_of in p)

      scan_dir-Keeps :
          (dir : Pending) → IsPendingPlaced dir → Keeps AllPlaced (scan_dir provider src_parent dir)
      unfolding scan_dir
      scan_dir-Keeps dir p =
          Keeps-bind (prepare provider src_parent dir) _ (prepare-Keeps dir p)
            λ u. list_dir-then dir p

      scan_next-Placed :
          (next : Op Bool) (queue : List Pending) (s : Scan)
          → Keeps AllPlaced next
          → All IsItemPlaced s.items
          → All IsPendingPlaced queue
          → AllPlaced s
          → AllPlaced (scan_next provider src_parent next queue s).1
      unfolding scan_next
      scan_next-Placed next [] s k h q a = on_update-Keeps.at s a
      scan_next-Placed next (dir ∷ dirs) s k h q a =
          (Keeps-bind (scan_dir provider src_parent dir) (λ u. next) (scan_dir-Keeps dir q.0)
              (λ u. k)).at
            (record s { queue = dirs }) (h, q.1)

      scan_loop-Keeps : (fuel : ℕ) → Keeps AllPlaced (scan_loop provider src_parent fuel)
      unfolding scan_loop
      scan_loop-Keeps zero = record { at = λ s h. h }
      scan_loop-Keeps (suc left) = record {
        at = λ s h. scan_next-Placed _ s.queue s (scan_loop-Keeps left) h.0 h.1 h;
      }

      select-Placed :
          (it : Selected) (s : Scan)
          → IsComponent it.name
          → AllPlaced s
          → AllPlaced (select provider src_parent it s)
      unfolding select
      select-Placed it s c h = elim (Bool-cases it.is_dir) [
        | inl e ↦ rw e ((push-Keeps _ (IsPlaced-component src_parent it.name c)).at s h)
        | inr e ↦ rw e (
            (add_item-Keeps _ (IsPlaced-component src_parent it.name c)).at _
              ((count_file-Keeps it.size).at s h))
      ]

      select_all-Placed :
          (its : List Selected) (s : Scan)
          → All (λ it. IsComponent it.name) its
          → AllPlaced s
          → AllPlaced (select_all provider src_parent its s)
      unfolding select_all
      select_all-Placed [] s c h = h
      select_all-Placed (it ∷ its) s c h =
          select_all-Placed its (select provider src_parent it s) c.1 (select-Placed it s c.0 h)

      -- If all names that are selected and listed are not empty and have no slash, then however the
      -- scan ends, every item is read at its relative path below the folder that was scanned.
      pub items-scan_items :
          (fuel : ℕ) (selected : List Selected)
          → All (λ it. IsComponent it.name) selected
          → All IsItemPlaced (scan_items provider src_parent fuel selected nothing_scanned).1.items
      unfolding scan_items nothing_scanned
      items-scan_items fuel selected c =
          ((Keeps-bind (ask provider.clock) _ (ask-Keeps provider.clock) λ t.
              Keeps-bind (modify (λ s. record s { timer = t })) _ (record { at = λ s h. h })
                λ u.
                  Keeps-bind (modify (select_all provider src_parent selected)) _
                    (record { at = λ s h. select_all-Placed selected s c h })
                    λ v.
                      Keeps-bind (modify on_update) _ on_update-Keeps λ w. scan_loop-Keeps fuel).at
            nothing_scanned (tt, tt)).0
