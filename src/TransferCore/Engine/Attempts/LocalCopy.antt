-- ===== src/TransferCore/Engine/Attempts/LocalCopy.antt =====
-- What a copy on the local disk leaves behind.
use app_full.Base.{
  ℕ, ◌+◌, ◌%◌, ◌^◌, ◌==◌, ◌≡◌, refl, sym, subst, inl, inr, Bool, true, false, Bool-cases, List, [],
  ◌∷◌, ◌++◌, append-nil, append_assoc, length, Option, none, some, if◌then◌else◌,
}
use app_full.Base.Texts.{Str}
use app_full.Base.Outcome.{Outcome, ok, err, panicked, dropped, cancelled, pure}
use app_full.Base.Gives.{then_at, Gives, Gives-bind, Gives-raise}
use app_full.TransferCore.{ready}
use app_full.TransferCore.Engine.{
  Call, create_file, write_all, remove_file, World, Transfer, Op, send, ask, log, call,
  call_ignored, returned,
}
use app_full.TransferCore.Engine.Attempts.{give_up, tick, write_chunk, copy_chunk, copy_chunks}

-- What the reads return up to the first empty one, if all of these go well.
pub read_all : List (Outcome (List ℕ)) → Option (List ℕ)
read_all [] = some []
read_all (ok bytes ∷ reads) =
    let rest = read_all reads in
    if length bytes == 0
    then some []
    else elim rest [ none ↦ none | some more ↦ some (bytes ++ more) ]
read_all (err e ∷ reads) = none
read_all (panicked ∷ reads) = none
read_all (dropped ∷ reads) = none

-- What a file holds behind calls, the last of them first.
pub data Holds (path : Str) : List ℕ → List Call → Type 0 where
  created : (d : List Call) → Holds path [] (create_file path ∷ d)
  added :
      (bytes more : List ℕ) (d : List Call)
      → Holds path bytes d
      → Holds path (bytes ++ more) (write_all path more ∷ d)

module _ (world : World) where
  pub log-Done :
      (c : Call) (o : Outcome Unit) (s : Transfer)
      → (log c o s).0 ≡ ok tt
      → (log c o s).1.done ≡ c ∷ s.done
  unfolding log
  log-Done c (ok u) s h = refl
  log-Done c (err e) s h = absurd (cc)
  log-Done c panicked s h = absurd (cc)
  log-Done c dropped s h = absurd (cc)

  done-tick : (now bytes : ℕ) (s : Transfer) → (tick world now bytes s).done ≡ s.done
  unfolding tick send
  done-tick now bytes s = elim (Bool-cases (ready s.timer now).0) [
    | inl e ↦ rw e refl
    | inr e ↦ rw e refl
  ]

  give_up-Gives :
      {A : Type 0}
      → {Post : A → Transfer → Type 0} → (path : Str) → Gives Post (give_up world {A = A} path)
  unfolding give_up
  give_up-Gives path =
      Gives-bind (call_ignored world (remove_file path)) _ λ u. Gives-raise cancelled

  -- A round that returns has not found the flag set.
  or_give_up :
      {A : Type 0}
      → (Post : A → Transfer → Type 0) (c : Bool) (path : Str) (m : Op A) (t : Transfer)
      → ((b : A) → (m t).0 ≡ ok b → Post b (m t).1)
      → (b : A) → ((if c then give_up world path else m) t).0 ≡ ok b
      → Post b ((if c then give_up world path else m) t).1
  or_give_up Post true path m t g b e = (give_up-Gives {Post = Post} path).at t b e
  or_give_up Post false path m t g b e = g b e

  write_chunk-Holds :
      (path : Str) (held bytes : List ℕ) (copied : ℕ) (s : Transfer) (u : Unit)
      → Holds path held s.done
      → (write_chunk world path bytes copied s).0 ≡ ok u
      → Holds path (held ++ bytes) (write_chunk world path bytes copied s).1.done
  unfolding write_chunk call ask
  write_chunk-Holds path held bytes copied s u h =
      then_at (λ v t. Holds path (held ++ bytes) t.done) (λ v t. Holds path (held ++ bytes) t.done)
        (call world (write_all path bytes)) _ s
        (λ v e.
          subst (Holds path (held ++ bytes)) (sym (log-Done _ _ s e)) (added held bytes s.done h))
        (λ v t k b e. subst (Holds path (held ++ bytes)) (sym (done-tick _ _ _)) k) u

  -- What is in the file behind the rounds of the loop: what was in it, and what the reads returned.
  pub record IsCopied (path : Str) (held : List ℕ) (reads : List (Outcome (List ℕ))) (d : List Call)
      : Type 0 where
    pub more : List ℕ
    pub read_eq : read_all reads ≡ some more
    pub holds : Holds path (held ++ more) d

  IsCopied-none :
      (path : Str) (held : List ℕ) (reads : List (Outcome (List ℕ))) (d : List Call)
      → read_all reads ≡ some []
      → Holds path held d
      → IsCopied path held reads d
  IsCopied-none path held reads d e h = record {
    more = [];
    read_eq = e;
    holds = subst (λ l. Holds path l d) (sym (append-nil held)) h;
  }

  IsCopied-chunk :
      (path : Str) (held bytes : List ℕ) (reads : List (Outcome (List ℕ))) (d : List Call)
      → (length bytes == 0) ≡ false
      → IsCopied path (held ++ bytes) reads d
      → IsCopied path held (ok bytes ∷ reads) d
  unfolding read_all
  IsCopied-chunk path held bytes reads d e h = record {
    more = bytes ++ h.more;
    read_eq = rw (e, h.read_eq) refl;
    holds = subst (λ l. Holds path l d) (append_assoc held bytes h.more) h.holds;
  }

  copy_chunk-IsCopied :
      (rest : ℕ → Op ℕ) (read : Outcome (List ℕ)) (reads : List (Outcome (List ℕ))) (path : Str)
      (held : List ℕ) (copied : ℕ)
      → ((more : List ℕ) (c : ℕ) (t : Transfer)
          → Holds path more t.done
          → (n : ℕ) → (rest c t).0 ≡ ok n
          → IsCopied path more reads (rest c t).1.done)
      → (s : Transfer) → Holds path held s.done
      → (n : ℕ) → (copy_chunk world rest read path copied s).0 ≡ ok n
      → IsCopied path held (read ∷ reads) (copy_chunk world rest read path copied s).1.done
  unfolding copy_chunk returned
  copy_chunk-IsCopied rest (ok bytes) reads path held copied k s h n e =
      elim (Bool-cases (length bytes == 0)) [
        | inl z ↦
            rw z
              (IsCopied-none path held (ok bytes ∷ reads) s.done (unfold read_all in rw z refl) h)
        | inr z ↦ rw z (
            then_at (λ u t. Holds path (held ++ bytes) t.done)
              (λ m t. IsCopied path held (ok bytes ∷ reads) t.done)
              (write_chunk world path bytes copied) (λ u. rest ((copied + length bytes) % 2 ^ 64)) s
              (λ u y. write_chunk-Holds path held bytes copied s u h y)
              (λ u t y m x. IsCopied-chunk path held bytes reads _ z (k (held ++ bytes) _ t y m x))
              n (rw z at e))
      ]
  copy_chunk-IsCopied rest (err x) reads path held copied k s h n e = absurd (cc)
  copy_chunk-IsCopied rest panicked reads path held copied k s h n e = absurd (cc)
  copy_chunk-IsCopied rest dropped reads path held copied k s h n e = absurd (cc)

  pub copy_chunks-IsCopied :
      (reads : List (Outcome (List ℕ))) (path : Str) (held : List ℕ) (copied : ℕ) (s : Transfer)
      → Holds path held s.done
      → (n : ℕ) → (copy_chunks world reads path copied s).0 ≡ ok n
      → IsCopied path held reads (copy_chunks world reads path copied s).1.done
  unfolding copy_chunks
  copy_chunks-IsCopied [] path held copied s h n =
      then_at (λ c t. Holds path held t.done) (λ m t. IsCopied path held [] t.done)
        (ask world.is_cancelled) _ s (λ c e. unfold ask in h)
        (λ c t k.
          or_give_up (λ m t. IsCopied path held [] t.done) c path (pure copied) t
            (λ b e. IsCopied-none path held [] t.done (unfold read_all in refl) k))
        n
  copy_chunks-IsCopied (read ∷ reads) path held copied s h n =
      let rest = copy_chunks-IsCopied reads path in
      then_at (λ c t. Holds path held t.done) (λ m t. IsCopied path held (read ∷ reads) t.done)
        (ask world.is_cancelled) _ s (λ c e. unfold ask in h)
        (λ c t k.
          or_give_up (λ m t. IsCopied path held (read ∷ reads) t.done) c path
            (copy_chunk world (copy_chunks world reads path) read path copied) t
            (copy_chunk-IsCopied (copy_chunks world reads path) read reads path held copied rest t
              k))
        n
