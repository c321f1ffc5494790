-- ===== src/TransferCore/Engine/Growth.antt =====
-- Properties of what a transfer has done that last while its logs grow (src/transfer-core/src/lib.rs).
use app_full.Base.{ℕ, suc, ◌≡◌, refl, List, [], ◌∷◌, ◌++◌}
use app_full.Base.Texts.{Str}
use app_full.Base.Outcome.{AppError, Outcome, ok, err, panicked, dropped, raise, modify}
use app_full.Base.Keeps.{Keeps, Keeps-modify, Keeps-if, keeps_rules}
use app_full.TransferCore.{CopyMessage}
use app_full.TransferCore.Engine.{
  Call, create_directory, write_file, create_dir_all, create_file, write_all, remove_file,
  set_permissions, delete_dest, delete_src, World, Transfer, Ended, send, send_all, ask, log, call,
  ignored, call_ignored, check_cancelled, returned, report, finish,
}

-- The paths that a call deletes at the source.
abbrev pub deleted_paths : Call → List Str
deleted_paths (create_directory parent name permissions) = []
deleted_paths (write_file path content permissions) = []
deleted_paths (create_dir_all path) = []
deleted_paths (create_file path) = []
deleted_paths (write_all path bytes) = []
deleted_paths (remove_file path) = []
deleted_paths (set_permissions path mode) = []
deleted_paths (delete_dest paths) = []
deleted_paths (delete_src paths) = paths

-- A property of a transfer that depends on its logs alone. It lasts when a call that deletes nothing
-- at the source is made, and when an item is skipped.
pub record Grows (P : Transfer → Type 0) : Type 0 where
  pub by_rest :
      (s t : Transfer) → t.tried ≡ s.tried → t.done ≡ s.done → t.skipped ≡ s.skipped → P s → P t
  pub by_try :
      (c : Call) (s : Transfer)
      → deleted_paths c ≡ []
      → P s
      → P (record s { now = suc s.now; tried = c ∷ s.tried })
  pub by_done :
      (c : Call) (s : Transfer)
      → deleted_paths c ≡ []
      → P s
      → P (record s { now = suc s.now; tried = c ∷ s.tried; done = c ∷ s.done })
  pub by_skip : (x : Str) (s : Transfer) → P s → P (record s { skipped = s.skipped ++ x ∷ [] })

module _ {S A : Type 0} {P : S → Type 0} where
  pub raise-Keeps : (e : AppError) → Keeps P (raise {S = S} {A = A} e)
  raise-Keeps e = record { at = λ s h. h }

module _ {P : Transfer → Type 0} {A : Type 0} where
  pub returned-Keeps : (r : Outcome A) → Keeps P (returned r)
  unfolding returned
  returned-Keeps r = record { at = λ s h. h }

module _ {P : Transfer → Type 0} (grows : Grows P) where
  pub ask-Keeps : {A : Type 0} → (f : ℕ → A) → Keeps P (ask f)
  unfolding ask
  ask-Keeps f = record { at = λ s h. grows.by_rest s _ refl refl refl h }

  pub send-Keeps : (m : CopyMessage) → Keeps P (modify (send m))
  unfolding send
  send-Keeps m = record { at = λ s h. grows.by_rest s _ refl refl refl h }

  pub finish-Keeps : (bytes : ℕ) → Keeps P (modify (finish bytes))
  unfolding finish send
  finish-Keeps bytes = record { at = λ s h. grows.by_rest s _ refl refl refl h }

  pub report-Keeps : (begun : ℕ) (reports : List (ℕ × ℕ)) → Keeps P (report begun reports)
  unfolding report send_all
  report-Keeps begun reports = record { at = λ s h. grows.by_rest s _ refl refl refl h }

  pub check_cancelled-Keeps : (world : World) → Keeps P (check_cancelled world)
  unfolding check_cancelled
  check_cancelled-Keeps world = search (keeps_rules, ask-Keeps, raise-Keeps) depth 8

  log-On :
      (c : Call) (o : Outcome Unit) (s : Transfer) → deleted_paths c ≡ [] → P s → P (log c o s).1
  unfolding log
  log-On c (ok u) s e h = grows.by_done c s e h
  log-On c (err x) s e h = grows.by_try c s e h
  log-On c panicked s e h = grows.by_try c s e h
  log-On c dropped s e h = grows.by_try c s e h

  ignored-On : (r : Ended Unit) → P r.1 → P (ignored r).1
  unfolding ignored
  ignored-On (ok u, s) h = h
  ignored-On (err e, s) h = h
  ignored-On (panicked, s) h = h
  ignored-On (dropped, s) h = h

  pub call-Keeps : (world : World) (c : Call) → deleted_paths c ≡ [] → Keeps P (call world c)
  unfolding call
  call-Keeps world c e = record { at = λ s h. log-On c _ s e h }

  pub call_ignored-Keeps :
      (world : World) (c : Call) → deleted_paths c ≡ [] → Keeps P (call_ignored world c)
  unfolding call_ignored
  call_ignored-Keeps world c e = record { at = λ s h. ignored-On _ ((call-Keeps world c e).at s h) }

pub ruleset growth_rules = (
  keeps_rules, ask-Keeps, returned-Keeps, raise-Keeps, send-Keeps, finish-Keeps, report-Keeps,
  check_cancelled-Keeps, call-Keeps, call_ignored-Keeps,
)
