-- ===== src/TransferCore/Engine/Attempts/Evidence.antt =====
-- What an attempt that returns leaves behind at the destination.
use app_full.Base.{
  ℕ, ◌≡◌, refl, ap, ◌∙◌, inl, inr, Bool, true, false, List, ◌∷◌, Any, Option, if◌then◌else◌,
}
use app_full.Base.Texts.{Str}
use app_full.Base.Outcome.{Outcome, ok, err, panicked, dropped, modify}
use app_full.Base.Gives.{ok_injective, Gives, Gives-bind, Gives-then}
use app_full.TransferCore.{TransferItem, file_start}
use app_full.TransferCore.Engine.{
  Call, create_directory, write_file, World, Transfer, send, ask, log, call, report, returned,
  finish, check_cancelled,
}
use app_full.TransferCore.Engine.Attempts.{
  parent_of, read_remote, write_remote, deliver, send_file, attempt_remote,
}

abbrev pub HasCall : Call → List Call → Type 0
HasCall c d = Any (λ x. x ≡ c) d

module _ (world : World) where
  -- All bytes that a read of the source returned were written in one call that ended well.
  pub record IsWritten (path : Str) (item : TransferItem) (d : List Call) : Type 0 where
    pub moment : ℕ
    pub content : List ℕ
    pub read_eq : (world.read_file moment item.src_path).1 ≡ ok content
    pub written : Any (λ x. x ≡ write_file path content item.permissions) d

  abbrev pub HasArrivedAs : Bool → Str → TransferItem → List Call → Type 0
  HasArrivedAs true path item d =
      Any (λ x. x ≡ create_directory (parent_of path) item.name item.permissions) d
  HasArrivedAs false path item d = IsWritten path item d

  abbrev pub HasArrived : Str → TransferItem → List Call → Type 0
  HasArrived path item d = HasArrivedAs item.is_dir path item d

  pub HasArrivedAs-later :
      (b : Bool) (path : Str) (item : TransferItem) (c : Call) (d : List Call)
      → HasArrivedAs b path item d
      → HasArrivedAs b path item (c ∷ d)
  HasArrivedAs-later true path item c d h = inr h
  HasArrivedAs-later false path item c d h = record {
    moment = h.moment;
    content = h.content;
    read_eq = h.read_eq;
    written = inr h.written;
  }

  log-Gives :
      (c : Call) (o : Outcome Unit) (s : Transfer)
      → (log c o s).0 ≡ ok tt
      → HasCall c (log c o s).1.done
  unfolding log
  log-Gives c (ok u) s h = inl refl
  log-Gives c (err e) s h = absurd (cc)
  log-Gives c panicked s h = absurd (cc)
  log-Gives c dropped s h = absurd (cc)

  pub call-Gives : (c : Call) → Gives (λ u s. HasCall c s.done) (call world c)
  unfolding call
  call-Gives c = record { at = λ s a h. log-Gives c _ s h }

  pub ask-Gives : {A : Type 0} → (f : ℕ → A) → Gives (λ a s. (n : ℕ) × (f n ≡ a)) (ask f)
  unfolding ask
  ask-Gives f = record { at = λ s a h. (s.now, ok_injective h) }

  read_remote-Gives :
      (path : Str)
      → Gives
          (λ content s. (n : ℕ) × ((world.read_file n path).1 ≡ ok content))
          (read_remote world path)
  unfolding read_remote returned report
  read_remote-Gives path = Gives-bind (ask world.clock) _ λ begun.
      Gives-then (ask (λ n. world.read_file n path)) _ (ask-Gives (λ n. world.read_file n path))
        λ answer s p content e. (p.0, ap (λ r. r.1) p.1 ∙ e)

  write_remote-Gives :
      (path : Str) (content : List ℕ) (permissions : Option ℕ)
      → Gives
          (λ u s. HasCall (write_file path content permissions) s.done)
          (write_remote world path content permissions)
  unfolding write_remote
  write_remote-Gives path content permissions = Gives-bind (ask world.clock) _ λ begun.
      Gives-bind (ask world.written) _
        λ reports. Gives-bind (report begun reports) _ λ u. call-Gives _

  pub finish-Gives :
      (P : List Call → Type 0) (bytes : ℕ) (s : Transfer) → P s.done → P (finish bytes s).done
  unfolding finish send
  finish-Gives P bytes s h = h

  deliver-Gives :
      (path : Str) (item : TransferItem) (content : List ℕ)
      → Gives
          (λ u s. HasCall (write_file path content item.permissions) s.done)
          (deliver world path item content)
  unfolding deliver
  deliver-Gives path item content = Gives-bind (check_cancelled world) _ λ u.
      Gives-then {P = λ v s. HasCall (write_file path content item.permissions) s.done}
        (write_remote world path content item.permissions) (λ v. modify (finish item.size))
        (write_remote-Gives path content item.permissions)
        λ v s h b e. finish-Gives (HasCall (write_file path content item.permissions)) item.size s h

  send_file-Gives :
      (path : Str) (item : TransferItem)
      → Gives (λ u s. IsWritten path item s.done) (send_file world path item)
  unfolding send_file
  send_file-Gives path item = Gives-bind (modify (send (file_start item.name item.size))) _ λ u.
      Gives-then (read_remote world item.src_path) (deliver world path item)
        (read_remote-Gives item.src_path)
        λ content s p b e. record {
          moment = p.0;
          content = content;
          read_eq = p.1;
          written = (deliver-Gives path item content).at s b e;
        }

  attempt_remote-Gives_as :
      (b : Bool) (path : Str) (item : TransferItem)
      → Gives
          (λ u s. HasArrivedAs b path item s.done)
          (if b
            then call world (create_directory (parent_of path) item.name item.permissions)
            else send_file world path item)
  attempt_remote-Gives_as true path item = call-Gives _
  attempt_remote-Gives_as false path item = send_file-Gives path item

  pub attempt_remote-Gives :
      (path : Str) (item : TransferItem)
      → Gives (λ u s. HasArrived path item s.done) (attempt_remote world path item)
  unfolding attempt_remote
  attempt_remote-Gives path item = attempt_remote-Gives_as item.is_dir path item
