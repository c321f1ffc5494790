-- ===== src/TransferCore/LocalScan/Complete.antt =====
-- What a scan of the local disk finds when nobody cancels it.
use app_full.Base.{
  ℕ, suc, Bool, true, false, ◌&&◌, List, [], ◌∷◌, ◌++◌, All, All-append, arith, Option, some,
  if◌then◌else◌, append-nil, append_assoc, ◌≡◌, refl, sym, ap, ◌∙◌, Bool-cases, inl, inr,
}
use app_full.Base.Texts.{Str}
use app_full.TransferCore.{TransferItem, ready}
use app_full.TransferCore.LocalScan.{
  Entries, unreadable, no_entries, bad_entry, file_entry, dir_entry, Selected, selected_file,
  selected_dir, ScanMessage, progress, done, Platform, LocalScanner, Op, and_then, push_item,
  count_file, count_dir, send, local_item, maybe_send_progress, check_cancelled, add_file, add_dir,
  scan_entries, scan_selected, start, finish, scanner_thread, receive, scan_local,
}
use app_full.TransferCore.LocalScan.Found.{is_readable, found, all_readable, all_found}

-- Progress alone leaves the items of the receiver.
IsProgress : ScanMessage → Type 0
IsProgress (progress files dirs bytes) = Unit
IsProgress (done items) = false ≡ true

-- An operation succeeds or not, adds items, and sends nothing but progress.
Adds : Op → Bool → List TransferItem → Type 0
Adds m ok more =
    (s : LocalScanner)
    → All IsProgress s.sent
    → ((m s).0 ≡ ok) × ((m s).1.items ≡ s.items ++ more) × All IsProgress (m s).1.sent

Adds-and_then :
    (m n : Op) (ok then_ok : Bool) (more rest : List TransferItem)
    → Adds m ok more
    → Adds n then_ok rest
    → Adds (and_then m n) (ok && then_ok) (more ++ (if ok then rest else []))
unfolding Adds and_then
Adds-and_then m n true then_ok more rest h k s sent =
    let first = h s sent in
    let second = k (m s).1 first.2 in
    rw first.0
      (second.0, second.1 ∙ ap (λ r. r ++ rest) first.1 ∙ append_assoc s.items more rest, second.2)
Adds-and_then m n false then_ok more rest h k s sent =
    let first = h s sent in rw (first.0, append-nil more) (refl, first.1, first.2)

module _ (p : Platform) (running : (i : ℕ) → p.is_cancelled i ≡ false) where
  items-maybe_send_progress : (s : LocalScanner) → (maybe_send_progress p s).items ≡ s.items
  unfolding maybe_send_progress send
  items-maybe_send_progress s = elim (Bool-cases (ready s.last_update (p.clock s.now)).0) [
    | inl e ↦ rw e refl
    | inr e ↦ rw e refl
  ]

  sent-maybe_send_progress :
      (s : LocalScanner) → All IsProgress s.sent → All IsProgress (maybe_send_progress p s).sent
  unfolding maybe_send_progress send IsProgress
  sent-maybe_send_progress s h = elim (Bool-cases (ready s.last_update (p.clock s.now)).0) [
    | inl e ↦ rw e (
        All-append IsProgress s.sent (progress s.total_files s.total_dirs s.total_bytes ∷ []) h
          (tt, tt))
    | inr e ↦ rw e h
  ]

  Adds-check_cancelled : Adds (check_cancelled p) true []
  unfolding Adds check_cancelled
  Adds-check_cancelled s sent = rw (running s.now, append-nil) (refl, refl, sent)

  Adds-add_file :
      (src rel name : Str) (size : ℕ) (mode : Option ℕ)
      → Adds (add_file p src rel name size mode) true (local_item src rel name false size mode ∷ [])
  unfolding Adds add_file count_file push_item
  Adds-add_file src rel name size mode s sent =
      let t = count_file size (push_item (local_item src rel name false size mode) s) in
      (refl, items-maybe_send_progress t, sent-maybe_send_progress t sent)

  Adds-add_dir :
      (src rel name : Str) (mode : Option ℕ)
      → Adds (add_dir p src rel name mode) true (local_item src rel name true 0 mode ∷ [])
  unfolding Adds add_dir count_dir push_item
  Adds-add_dir src rel name mode s sent =
      let t = count_dir (push_item (local_item src rel name true 0 mode) s) in
      (refl, items-maybe_send_progress t, sent-maybe_send_progress t sent)

  -- A directory and what is below it.
  Adds-dir :
      (src rel name : Str) (mode : Option ℕ) (inner : Op) (ok : Bool) (more : List TransferItem)
      → Adds inner ok more
      → Adds
          (and_then (check_cancelled p) (and_then (add_dir p src rel name mode) inner))
          ok
          (local_item src rel name true 0 mode ∷ more)
  Adds-dir src rel name mode inner ok more h =
      Adds-and_then (check_cancelled p) (and_then (add_dir p src rel name mode) inner) true ok []
        (local_item src rel name true 0 mode ∷ more) Adds-check_cancelled
        (Adds-and_then (add_dir p src rel name mode) inner true ok
          (local_item src rel name true 0 mode ∷ []) more (Adds-add_dir src rel name mode) h)

  Adds-scan_entries :
      (src rel : Str) (entries : Entries)
      → Adds (scan_entries p src rel entries) (is_readable entries) (found p.join src rel entries)
  unfolding Adds scan_entries is_readable found
  Adds-scan_entries src rel unreadable s sent = (refl, sym (append-nil s.items), sent)
  Adds-scan_entries src rel no_entries s sent = (refl, sym (append-nil s.items), sent)
  Adds-scan_entries src rel bad_entry s sent =
      Adds-and_then (check_cancelled p) (λ t. (false, t)) true false [] [] Adds-check_cancelled
        (λ t sent_t. (refl, sym (append-nil t.items), sent_t)) s sent
  Adds-scan_entries src rel (file_entry name size mode rest) s sent =
      let later = Adds-scan_entries src rel rest in
      let items = local_item (p.join src name) (p.join rel name) name false size mode ∷ [] in
      let file = add_file p (p.join src name) (p.join rel name) name size mode in
      Adds-and_then (check_cancelled p) (and_then file (scan_entries p src rel rest)) true
        (is_readable rest) [] (items ++ found p.join src rel rest) Adds-check_cancelled
        (Adds-and_then file (scan_entries p src rel rest) true (is_readable rest) items
          (found p.join src rel rest)
          (Adds-add_file (p.join src name) (p.join rel name) name size mode) later)
        s sent
  Adds-scan_entries src rel (dir_entry name mode below rest) s sent =
      let src_path = p.join src name in
      let rel_path = p.join rel name in
      let inner = scan_entries p src_path rel_path below in
      let items = found p.join src_path rel_path below in
      let dir =
        Adds-dir src_path rel_path name mode inner (is_readable below) items
          (Adds-scan_entries src_path rel_path below) in
      let visit =
        and_then (check_cancelled p) (and_then (add_dir p src_path rel_path name mode) inner) in
      let all = local_item src_path rel_path name true 0 mode ∷ items in
      let more = if is_readable below then found p.join src rel rest else [] in
      Adds-and_then (check_cancelled p) (and_then visit (scan_entries p src rel rest)) true
        (is_readable below && is_readable rest) [] (all ++ more) Adds-check_cancelled
        (Adds-and_then visit (scan_entries p src rel rest) (is_readable below) (is_readable rest)
          all (found p.join src rel rest) dir (Adds-scan_entries src rel rest))
        s sent

  Adds-scan_selected :
      (parent : Str) (selected : List Selected)
      → Adds
          (scan_selected p parent selected)
          (all_readable selected)
          (all_found p.join parent selected)
  unfolding Adds scan_selected all_readable all_found
  Adds-scan_selected parent [] s sent = (refl, sym (append-nil s.items), sent)
  Adds-scan_selected parent (selected_file name size mode ∷ rest) s sent =
      Adds-and_then (add_file p (p.join parent name) name name size mode)
        (scan_selected p parent rest) true (all_readable rest)
        (local_item (p.join parent name) name name false size mode ∷ [])
        (all_found p.join parent rest) (Adds-add_file (p.join parent name) name name size mode)
        (Adds-scan_selected parent rest) s sent
  Adds-scan_selected parent (selected_dir name mode below ∷ rest) s sent =
      let src_path = p.join parent name in
      let inner = scan_entries p src_path name below in
      let items = found p.join src_path name below in
      Adds-and_then
        (and_then (check_cancelled p) (and_then (add_dir p src_path name name mode) inner))
        (scan_selected p parent rest) (is_readable below) (all_readable rest)
        (local_item src_path name name true 0 mode ∷ items) (all_found p.join parent rest)
        (Adds-dir src_path name name mode inner (is_readable below) items
          (Adds-scan_entries src_path name below))
        (Adds-scan_selected parent rest) s sent

receive-append :
    (flag : ℕ → Bool) (i : ℕ) (ms : List ScanMessage) (items : List TransferItem)
    → ((j : ℕ) → flag j ≡ false)
    → All IsProgress ms
    → receive flag i ms items ≡ some items
unfolding receive IsProgress
receive-append flag i [] items running h = rw (running i) refl
receive-append flag i (progress files dirs bytes ∷ ms) items running h =
    rw (running i) (receive-append flag (suc i) ms items running h.1)
receive-append flag i (done scanned ∷ ms) items running h = let never = h.0 in ground arith

receive-done :
    (flag : ℕ → Bool) (i : ℕ) (ms : List ScanMessage) (items scanned : List TransferItem)
    → ((j : ℕ) → flag j ≡ false)
    → All IsProgress ms
    → receive flag i (ms ++ done scanned ∷ []) items ≡ some scanned
unfolding receive IsProgress
receive-done flag i [] items scanned running h = rw (running i, running (suc i)) refl
receive-done flag i (progress files dirs bytes ∷ ms) items scanned running h =
    rw (running i) (receive-done flag (suc i) ms items scanned running h.1)
receive-done flag i (done others ∷ ms) items scanned running h = let never = h.0 in ground arith

received :
    (p : Platform) (flag : ℕ → Bool) (ok : Bool) (more : List TransferItem)
    (r : Bool × LocalScanner)
    → ((i : ℕ) → p.is_cancelled i ≡ false)
    → ((i : ℕ) → flag i ≡ false)
    → (r.0 ≡ ok) × (r.1.items ≡ more) × All IsProgress r.1.sent
    → receive flag 0 (finish p r) [] ≡ some (if ok then more else [])
unfolding finish send
received p flag ok more (true, s) running waiting h =
    rw (running s.now, receive-done flag 0 s.sent [] s.items waiting h.2, ← h.0)
      (ap (λ x. some x) h.1)
received p flag ok more (false, s) running waiting h =
    rw (receive-append flag 0 s.sent [] waiting h.2, ← h.0) refl

-- The scan of the local disk, with nobody cancelling: if every directory and entry below the selected
-- items can be read, it returns all of them, each directory in front of what is in it; if one cannot
-- be read, it returns no item, and no error.
pub scan_local_lem :
    (p : Platform) (flag : ℕ → Bool) (parent : Str) (selected : List Selected)
    → ((i : ℕ) → p.is_cancelled i ≡ false)
    → ((i : ℕ) → flag i ≡ false)
    → scan_local p flag parent selected
      ≡ some (if all_readable selected then all_found p.join parent selected else [])
unfolding scan_local scanner_thread start Adds
scan_local_lem p flag parent selected running waiting =
    received p flag (all_readable selected) (all_found p.join parent selected)
      (scan_selected p parent selected (start p)) running waiting
      (Adds-scan_selected p running parent selected (start p) tt)
