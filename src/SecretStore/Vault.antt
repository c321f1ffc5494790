-- ===== src/SecretStore/Vault.antt =====
-- The state of the store of secrets (src/secret-store/src/lib.rs): the data key, which a keyring file
-- holds sealed by the key of the machine or by a key that is derived from a password. The lock of the
-- slot is never poisoned. A file that cannot be read as a text is no file.
use app_full.Base.{
  ℕ, suc, Bool, true, false, [], ◌∷◌, ◌++◌, Option, none, some, if◌then◌else◌, ◌==◌, length,
}
use app_full.Base.Texts.{Str}
use app_full.SecretStore.Values.{bind_option}
use app_full.SecretStore.Format.{
  Bytes, Services, Protection, machine, password, UnlockError, not_password_protected,
  wrong_password, malformed, KeyringError, locked, io, Keyring, hkdf_context, aad_keyring, Outcome,
  done, failed, panicked, outcome, argon2_key, unwrap_or_default, usable_salt, is_password, as_dek,
  given, unseal, parse_keyring, keyring_json,
}

pub record Store : Type 0 where
  pub salt_file : Option Bytes
  pub keyring_file : Option Str
  pub slot : Option Bytes
  pub draws : ℕ
  pub writes : ℕ

abbrev pub Op : Type 0 → Type 0
Op A = Store → A × Store

module _ {A B : Type 0} where
  infixl 10 ◌>>=◌
  abbrev pub ◌>>=◌ : Op A → (A → Op B) → Op B
  ◌>>=◌ m f s = let (a, s') = m s in f a s'

  -- `?` on an option in a function that returns one.
  abbrev pub when_some : Option A → (A → Op (Option B)) → Op (Option B)
  when_some none f s = (none, s)
  when_some (some a) f s = f a s

module _ {A : Type 0} where
  abbrev pub pure : A → Op A
  pure a s = (a, s)

  abbrev pub gets : (Store → A) → Op A
  gets f s = (f s, s)

abbrev pub set_slot : Option Bytes → Store → Store
set_slot k s = record s { slot = k }

module _ (sv : Services) where
  unfoldable pub draw : ℕ → Op Bytes
  draw n s = (sv.random s.draws n, record s { draws = suc s.draws })

  unfoldable pub salt_or_new : Option Bytes → Op Bytes
  unfolding draw
  salt_or_new (some d) s = (d, s)
  salt_or_new none s =
      let (salt, t) = draw 32 s in
      (salt, record t { salt_file = sv.write_salt t.writes salt; writes = suc t.writes })

  unfoldable pub install_salt : Op Bytes
  unfolding usable_salt salt_or_new
  install_salt = gets (λ s. usable_salt s.salt_file) >>= salt_or_new

  unfoldable pub machine_key : Op Bytes
  unfolding install_salt unwrap_or_default
  machine_key = install_salt >>= λ salt.
      pure (
        sv.hkdf salt (unwrap_or_default sv.machine_id ++ 0 ∷ unwrap_or_default sv.user)
          hkdf_context)

  unfoldable pub seal : Bytes → Bytes → Bytes → Op Bytes
  unfolding draw
  seal key plain aad = draw 24 >>= λ nonce. pure (nonce ++ sv.encrypt key nonce aad plain)

  -- `None` is `Ok(())`.
  unfoldable pub write_file : Str → Op (Option KeyringError)
  write_file json s =
      let (written, left) = sv.write_text s.writes json in
      (if written then none else some io, record s { keyring_file = left; writes = suc s.writes })

  unfoldable pub write_keyring : Keyring → Op (Option KeyringError)
  unfolding write_file
  write_keyring ring s =
      if sv.make_dir s.writes
      then write_file (sv.to_string_pretty (keyring_json sv ring)) s
      else (some io, s)

  unfoldable pub read_keyring : Store → Option Keyring
  read_keyring s = bind_option s.keyring_file (parse_keyring sv)

  unfoldable pub protection : Store → Protection
  unfolding read_keyring
  protection s = elim (read_keyring s) [ none ↦ machine | some r ↦ r.protection ]

  unfoldable pub keep : Bytes → Op (Option Bytes)
  keep dek s = (some dek, set_slot (some dek) s)

  unfoldable pub keep_written : Bytes → Option KeyringError → Op (Option Bytes)
  unfolding keep
  keep_written dek none = keep dek
  keep_written dek (some e) = pure none

  unfoldable pub dek_from : Bytes → Option Keyring → Op (Option Bytes)
  unfolding is_password unseal as_dek keep seal write_keyring keep_written draw
  dek_from mkey (some ring) =
      if is_password ring.protection
      then pure none
      else when_some (bind_option (unseal sv mkey ring.wrapped_dek aad_keyring) as_dek) keep
  dek_from mkey none = draw 32 >>= λ dek. seal mkey dek aad_keyring >>= λ wrapped.
      write_keyring (record { protection = machine; salt = []; wrapped_dek = wrapped })
      >>= keep_written dek

  unfoldable pub find_dek : Option Bytes → Op (Option Bytes)
  unfolding machine_key read_keyring dek_from
  find_dek (some cached) = pure (some cached)
  find_dek none = machine_key >>= λ mkey. gets read_keyring >>= λ ring. dek_from mkey ring

  unfoldable pub machine_dek : Op (Option Bytes)
  unfolding find_dek
  machine_dek = gets (λ s. s.slot) >>= find_dek

  -- The slot is looked up twice.
  unfoldable pub dek_or_machine : Option Bytes → Op (Option Bytes)
  unfolding machine_dek
  dek_or_machine (some cached) = pure (some cached)
  dek_or_machine none = machine_dek

  unfoldable pub dek : Op (Option Bytes)
  unfolding dek_or_machine
  dek = gets (λ s. s.slot) >>= dek_or_machine

  unfoldable pub take_raw : Option Bytes → Op (Outcome UnlockError)
  unfolding as_dek
  take_raw none s = (failed wrong_password, s)
  take_raw (some raw) s =
      if length raw == 32 then (done, set_slot (some raw) s) else (failed malformed, s)

  unfoldable pub unlock_with_key : Option Bytes → Bytes → Op (Outcome UnlockError)
  unfolding unseal take_raw
  unlock_with_key none wrapped = pure panicked
  unlock_with_key (some key) wrapped = take_raw (unseal sv key wrapped aad_keyring)

  unfoldable pub unlock_ring : Str → Option Keyring → Op (Outcome UnlockError)
  unfolding is_password argon2_key unlock_with_key
  unlock_ring pw none = pure (failed malformed)
  unlock_ring pw (some ring) =
      if is_password ring.protection
      then unlock_with_key (argon2_key sv pw ring.salt) ring.wrapped_dek
      else pure (failed not_password_protected)

  unfoldable pub unlock_with_password : Str → Op (Outcome UnlockError)
  unfolding read_keyring unlock_ring
  unlock_with_password pw = gets read_keyring >>= unlock_ring pw

  unfoldable pub lock : Op Unit
  lock s = (tt, set_slot none s)

  unfoldable pub wrap_with_key : Bytes → Bytes → Option Bytes → Op (Option Keyring)
  unfolding seal
  wrap_with_key data_key salt none = pure none
  wrap_with_key data_key salt (some key) = seal key data_key aad_keyring >>= λ wrapped.
      pure (some (record { protection = password; salt = salt; wrapped_dek = wrapped }))

  -- `None` is a panic.
  unfoldable pub wrap_dek : Bytes → Option Str → Op (Option Keyring)
  unfolding draw seal machine_key argon2_key wrap_with_key
  wrap_dek dek (some pw) = draw 16 >>= λ salt. wrap_with_key dek salt (argon2_key sv pw salt)
  wrap_dek dek none = machine_key >>= λ mkey. seal mkey dek aad_keyring >>= λ wrapped.
      pure (some (record { protection = machine; salt = []; wrapped_dek = wrapped }))

  unfoldable pub write_wrapped : Option Keyring → Op (Outcome KeyringError)
  unfolding write_keyring outcome
  write_wrapped none = pure panicked
  write_wrapped (some ring) = write_keyring ring >>= λ r. pure (outcome r)

  unfoldable pub set_with : Option Str → Option Bytes → Op (Outcome KeyringError)
  unfolding wrap_dek write_wrapped
  set_with pw none = pure (failed locked)
  set_with pw (some dek) = wrap_dek dek pw >>= write_wrapped

  unfoldable pub set_master_password : Option Str → Op (Outcome KeyringError)
  unfolding dek set_with given
  set_master_password pw = dek >>= set_with (given pw)

  unfoldable pub unlocked_or_machine : Option Bytes → Op Bool
  unfolding protection is_password machine_dek
  unlocked_or_machine (some cached) s = (true, s)
  unlocked_or_machine none s =
      if is_password (protection s)
      then (false, s)
      else (machine_dek >>= λ o. pure (elim o [ none ↦ false | some d ↦ true ])) s

  unfoldable pub is_unlocked : Op Bool
  unfolding unlocked_or_machine
  is_unlocked = gets (λ s. s.slot) >>= unlocked_or_machine
