-- ===== src/TransferCore/Engine/Attempts/LocalEvidence.antt =====
-- What an attempt on the local disk that returns leaves behind.
use app_full.Base.{
  ℕ, ◌≡◌, sym, subst, ◌∙◌, inl, inr, ◌⊎◌, Bool, true, false, List, [], ◌∷◌, Any, some,
  if◌then◌else◌,
}
use app_full.Base.Texts.{Str}
use app_full.Base.Outcome.{Outcome, ok, ◌>>=◌, ◌>>◌, modify}
use app_full.Base.Gives.{then_at, Gives, Gives-bind, Gives-then}
use app_full.TransferCore.{TransferItem, file_start}
use app_full.TransferCore.Engine.{
  Call, create_dir_all, create_file, World, Transfer, send, ask, call, call_ignored, returned,
}
use app_full.TransferCore.Engine.Growth.{Grows}
use app_full.TransferCore.Engine.Attempts.{
  path_parent, copy_chunks, set_mode, fill_file, complete, copy_one_file, copy_file, attempt_local,
}
use app_full.TransferCore.Engine.Attempts.Growth.{set_mode-Keeps, complete-Keeps}
use app_full.TransferCore.Engine.Attempts.Evidence.{HasCall, call-Gives, ask-Gives}
use app_full.TransferCore.Engine.Attempts.LocalCopy.{
  log-Done, read_all, Holds, created, IsCopied, copy_chunks-IsCopied,
}

-- The file held the bytes at the end or at a moment before.
abbrev pub HasHeld : Str → List ℕ → List Call → Type 0
HasHeld path content [] = Holds path content []
HasHeld path content (c ∷ d) = Holds path content (c ∷ d) ⊎ HasHeld path content d

held_now :
    (path : Str) (content : List ℕ) (d : List Call) → Holds path content d → HasHeld path content d
held_now path content [] h = h
held_now path content (c ∷ d) h = inl h

-- A property of the calls that are done, which more calls do not take away.
done-Grows :
    (R : List Call → Type 0)
    → ((c : Call) (d : List Call) → R d → R (c ∷ d))
    → Grows (λ s. R s.done)
done-Grows R f = record {
  by_rest = λ s t a b c h. subst R (sym b) h;
  by_try = λ c s e h. h;
  by_done = λ c s e h. f c s.done h;
  by_skip = λ x s h. h;
}

module _ (world : World) where
  -- All bytes that the reads of the opened source returned were in the file at the destination.
  pub record IsCopiedFrom (path : Str) (source : Str) (d : List Call) : Type 0 where
    pub moment : ℕ
    pub reads : List (Outcome {0} (List ℕ))
    pub content : List ℕ
    pub opened : world.open_file moment source ≡ ok reads
    pub read_eq : read_all reads ≡ some content
    pub held : HasHeld path content d

  abbrev pub IsHereAs : Bool → Str → TransferItem → List Call → Type 0
  IsHereAs true path item d = Any (λ x. x ≡ create_dir_all path) d
  IsHereAs false path item d = IsCopiedFrom path item.src_path d

  abbrev pub IsHere : Str → TransferItem → List Call → Type 0
  IsHere path item d = IsHereAs item.is_dir path item d

  pub IsHereAs-later :
      (b : Bool) (path : Str) (item : TransferItem) (c : Call) (d : List Call)
      → IsHereAs b path item d
      → IsHereAs b path item (c ∷ d)
  IsHereAs-later true path item c d h = inr h
  IsHereAs-later false path item c d h = record {
    moment = h.moment;
    reads = h.reads;
    content = h.content;
    opened = h.opened;
    read_eq = h.read_eq;
    held = inr h.held;
  }

  created_last :
      (path : Str) (s : Transfer) (u : Unit)
      → (call world (create_file path) s).0 ≡ ok u
      → Holds path [] (call world (create_file path) s).1.done
  unfolding call
  created_last path s u e =
      subst (Holds path []) (sym (log-Done world (create_file path) _ s e)) (created s.done)

  fill_file-IsCopied :
      (path : Str) (chunks : List (Outcome (List ℕ)))
      → Gives (λ n s. IsCopied world path [] chunks s.done) (fill_file world path chunks)
  unfolding fill_file
  fill_file-IsCopied path chunks =
      Gives-bind (call_ignored world (create_dir_all (path_parent path))) _ λ u. record {
        at = λ s n h.
            then_at (λ v t. Holds path [] t.done) (λ m t. IsCopied world path [] chunks t.done)
              (call world (create_file path)) (λ v. copy_chunks world chunks path 0) s
              (λ v e. created_last path s v e)
              (λ v t k m e. copy_chunks-IsCopied world chunks path [] 0 t k m e) n h;
      }

  of_IsCopied :
      (path source : Str) (chunks : List (Outcome (List ℕ))) (d : List Call) (n : ℕ)
      → world.open_file n source ≡ ok chunks
      → IsCopied world path [] chunks d
      → IsCopiedFrom path source d
  of_IsCopied path source chunks d n o h = record {
    moment = n;
    reads = chunks;
    content = h.more;
    opened = o;
    read_eq = h.read_eq;
    held = held_now path h.more d h.holds;
  }

  copy_one_file-Gives :
      (source path : Str)
      → Gives (λ n s. IsCopiedFrom path source s.done) (copy_one_file world source path)
  unfolding copy_one_file returned
  copy_one_file-Gives source path =
      Gives-then (ask (λ n. world.open_file n source))
        (λ reads. returned reads >>= λ chunks. fill_file world path chunks)
        (ask-Gives world (λ n. world.open_file n source))
        λ answer s p n e.
          then_at (λ chunks t. (k : ℕ) × (world.open_file k source ≡ ok chunks))
            (λ m t. IsCopiedFrom path source t.done) (returned answer)
            (λ chunks. fill_file world path chunks) s (λ chunks h. (p.0, p.1 ∙ h))
            (λ chunks t q m h.
              of_IsCopied path source chunks _ q.0 q.1 ((fill_file-IsCopied path chunks).at t m h))
            n e

  copy_file-Gives :
      (path : Str) (item : TransferItem)
      → Gives (λ u s. IsCopiedFrom path item.src_path s.done) (copy_file world path item)
  unfolding copy_file
  copy_file-Gives path item = Gives-bind (modify (send (file_start item.name item.size))) _ λ u.
      Gives-then (copy_one_file world item.src_path path) (complete world path item.permissions)
        (copy_one_file-Gives item.src_path path)
        λ bytes s h b e.
          (complete-Keeps (done-Grows (IsHereAs false path item) (IsHereAs-later false path item))
              world path item.permissions bytes).at
            s h

  attempt_local-Gives_as :
      (b : Bool) (path : Str) (item : TransferItem)
      → Gives
          (λ u s. IsHereAs b path item s.done)
          (if b
            then (call world (create_dir_all path) >> set_mode world path item.permissions)
            else copy_file world path item)
  attempt_local-Gives_as true path item =
      Gives-then {P = λ u s. HasCall (create_dir_all path) s.done}
        (call world (create_dir_all path)) (λ u. set_mode world path item.permissions)
        (call-Gives world (create_dir_all path))
        λ u s h b e.
          (set_mode-Keeps (done-Grows (IsHereAs true path item) (IsHereAs-later true path item))
              world path item.permissions).at
            s h
  attempt_local-Gives_as false path item = copy_file-Gives path item

  pub attempt_local-Gives :
      (path : Str) (item : TransferItem)
      → Gives (λ u s. IsHere path item s.done) (attempt_local world path item)
  unfolding attempt_local
  attempt_local-Gives path item = attempt_local-Gives_as item.is_dir path item
