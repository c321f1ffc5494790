-- ===== src/TransferCore/Engine/Attempts/Growth.antt =====
-- Attempts let the logs grow only by calls that delete nothing at the source.
use app_full.Base.{ℕ, refl, List, [], ◌∷◌, Option, none, some, Bool-cases, inl, inr}
use app_full.Base.Texts.{Str}
use app_full.Base.Outcome.{Outcome}
use app_full.Base.Keeps.{Keeps}
use app_full.TransferCore.{TransferItem, ready}
use app_full.TransferCore.Engine.{World, Transfer, Op, send}
use app_full.TransferCore.Engine.Growth.{Grows, growth_rules}
use app_full.TransferCore.Engine.Attempts.{
  read_remote, write_remote, deliver, send_file, attempt_remote, give_up, tick, write_chunk,
  copy_chunk, copy_chunks, set_mode, fill_file, complete, copy_one_file, copy_file, attempt_local,
}

module _ {P : Transfer → Type 0} (grows : Grows P) (world : World) where
  read_remote-Keeps : (path : Str) → Keeps P (read_remote world path)
  unfolding read_remote
  read_remote-Keeps path = search growth_rules depth 16

  write_remote-Keeps :
      (path : Str) (content : List ℕ) (permissions : Option ℕ)
      → Keeps P (write_remote world path content permissions)
  unfolding write_remote
  write_remote-Keeps path content permissions = search (growth_rules) depth 16

  deliver-Keeps :
      (path : Str) (item : TransferItem) (content : List ℕ)
      → Keeps P (deliver world path item content)
  unfolding deliver
  deliver-Keeps path item content = search (growth_rules, write_remote-Keeps) depth 12

  send_file-Keeps :
      (dest_path : Str) (item : TransferItem) → Keeps P (send_file world dest_path item)
  unfolding send_file
  send_file-Keeps dest_path item = search (growth_rules, read_remote-Keeps, deliver-Keeps) depth 24

  pub attempt_remote-Keeps :
      (dest_path : Str) (item : TransferItem) → Keeps P (attempt_remote world dest_path item)
  unfolding attempt_remote
  attempt_remote-Keeps dest_path item = search (growth_rules, send_file-Keeps)

  give_up-Keeps : {A : Type 0} → (path : Str) → Keeps P (give_up world {A = A} path)
  unfolding give_up
  give_up-Keeps path = search (growth_rules) depth 12

  tick-On : (now bytes : ℕ) (s : Transfer) → P s → P (tick world now bytes s)
  unfolding tick send
  tick-On now bytes s h = elim (Bool-cases (ready s.timer now).0) [
    | inl e ↦ rw e (grows.by_rest s _ refl refl refl h)
    | inr e ↦ rw e (grows.by_rest s _ refl refl refl h)
  ]

  write_chunk-Keeps :
      (path : Str) (bytes : List ℕ) (copied : ℕ) → Keeps P (write_chunk world path bytes copied)
  unfolding write_chunk
  write_chunk-Keeps path bytes copied = search (growth_rules, tick-On) depth 12

  copy_chunk-Keeps :
      (rest : ℕ → Op ℕ) (read : Outcome (List ℕ)) (path : Str) (copied : ℕ)
      → ((n : ℕ) → Keeps P (rest n))
      → Keeps P (copy_chunk world rest read path copied)
  unfolding copy_chunk
  copy_chunk-Keeps rest read path copied k = search (growth_rules, write_chunk-Keeps) depth 16

  copy_chunks-Keeps :
      (reads : List (Outcome (List ℕ))) (path : Str) (copied : ℕ)
      → Keeps P (copy_chunks world reads path copied)
  unfolding copy_chunks
  copy_chunks-Keeps [] path copied = search (growth_rules, give_up-Keeps) depth 12
  copy_chunks-Keeps (read ∷ reads) path copied =
      search (growth_rules, give_up-Keeps, copy_chunk-Keeps, copy_chunks-Keeps reads path) depth 24

  pub set_mode-Keeps : (path : Str) (mode : Option ℕ) → Keeps P (set_mode world path mode)
  unfolding set_mode
  set_mode-Keeps path none = search growth_rules
  set_mode-Keeps path (some m) = search growth_rules

  fill_file-Keeps :
      (path : Str) (chunks : List (Outcome (List ℕ))) → Keeps P (fill_file world path chunks)
  unfolding fill_file
  fill_file-Keeps path chunks = search (growth_rules, copy_chunks-Keeps) depth 16

  pub complete-Keeps :
      (path : Str) (mode : Option ℕ) (bytes : ℕ) → Keeps P (complete world path mode bytes)
  unfolding complete
  complete-Keeps path mode bytes = search (growth_rules, set_mode-Keeps) depth 8

  copy_one_file-Keeps :
      (src_path dest_path : Str) → Keeps P (copy_one_file world src_path dest_path)
  unfolding copy_one_file
  copy_one_file-Keeps src_path dest_path = search (growth_rules, fill_file-Keeps) depth 12

  copy_file-Keeps :
      (dest_path : Str) (item : TransferItem) → Keeps P (copy_file world dest_path item)
  unfolding copy_file
  copy_file-Keeps dest_path item =
      search (growth_rules, copy_one_file-Keeps, complete-Keeps) depth 12

  pub attempt_local-Keeps :
      (dest_path : Str) (item : TransferItem) → Keeps P (attempt_local world dest_path item)
  unfolding attempt_local
  attempt_local-Keeps dest_path item = search (growth_rules, set_mode-Keeps, copy_file-Keeps)
