-- ===== src/SecretStore/Passwords.antt =====
-- The master password: a keyring that is written is read again, and the password opens it.
use app_full.Base.{
  suc, Bool, true, false, [], ◌++◌, Option, none, some, if◌then◌else◌, ◌≡◌, refl, arith, Bool-cases,
  Option-cases, length, inl, inr,
}
use app_full.Base.Texts.{Str, is_empty}
use app_full.SecretStore.Format.{
  Bytes, Services, machine, password, io, KeyringError, done, outcome, argon2_key, Keyring,
  aad_keyring, get_bytes, given, parse_keyring, keyring_json,
}
use app_full.SecretStore.Vault.{
  Store, set_slot, draw, seal, write_file, write_keyring, read_keyring, dek, take_raw,
  unlock_with_key, wrap_with_key, write_wrapped, ◌>>=◌, unlock_ring, unlock_with_password, wrap_dek,
  set_with, set_master_password,
}
use app_full.SecretStore.Opening.{IsLawful, unseal-seal}
use app_full.SecretStore.Keys.{SlotIsValid, IsKept, dek-IsKept}

module _ (sv : Services) (law : IsLawful sv) where
  pub parse-password :
      (salt wrapped : Bytes)
      → let ring : Keyring = record { protection = password; salt = salt; wrapped_dek = wrapped } in
        parse_keyring sv (sv.to_string_pretty (keyring_json sv ring)) ≡ some ring
  unfolding parse_keyring keyring_json get_bytes
  parse-password salt wrapped =
      rw (law.from_str-to_string_pretty, law.unbase64-base64 wrapped, law.unbase64-base64 salt)

  pub parse-machine :
      (wrapped : Bytes)
      → let ring : Keyring = record { protection = machine; salt = []; wrapped_dek = wrapped } in
        parse_keyring sv (sv.to_string_pretty (keyring_json sv ring)) ≡ some ring
  unfolding parse_keyring keyring_json get_bytes
  parse-machine wrapped = rw (law.from_str-to_string_pretty, law.unbase64-base64 wrapped)

  written_text :
      (done : Bool) (left : Option Str) (json : Str)
      → (done ≡ true → left ≡ some json)
      → (if done then none else some io) ≡ none
      → left ≡ some json
  written_text true left json kept h = kept refl
  written_text false left json kept h = ground arith

  pub write_keyring_done :
      (ring : Keyring) (s : Store)
      → (write_keyring sv ring s).0 ≡ none
      → (write_keyring sv ring s).1.keyring_file ≡ some (sv.to_string_pretty (keyring_json sv ring))
  unfolding write_keyring write_file
  write_keyring_done ring s h =
      let json = sv.to_string_pretty (keyring_json sv ring) in
      elim (Bool-cases (sv.make_dir s.writes)) [
        | inl e ↦ rw e (
            written_text (sv.write_text s.writes json).0 (sv.write_text s.writes json).1 json
              (law.write_text_done s.writes json) (rw e at h))
        | inr e ↦ ground arith
      ]

  outcome_done : (o : Option KeyringError) → outcome o ≡ done → o ≡ none
  unfolding outcome
  outcome_done none h = refl
  outcome_done (some e) h = ground arith

  -- A keyring that was written is read again, and the key that wrapped the data key opens it.
  unlock-write :
      (pw : Str) (salt key k : Bytes) (s u : Store)
      → sv.argon2 pw salt ≡ some key
      → length k ≡ 32
      → let r = (wrap_with_key sv k salt (some key) >>= write_wrapped sv) s in
        r.0 ≡ done
        → u.keyring_file ≡ r.1.keyring_file
        → unlock_with_password sv pw u ≡ (done, set_slot (some k) u)
  unfolding wrap_with_key write_wrapped draw seal unlock_with_password unlock_ring unlock_with_key
      argon2_key take_raw read_keyring
  unlock-write pw salt key k s u at v h e =
      let nonce = sv.random s.draws 24 in
      let wrapped = nonce ++ sv.encrypt key nonce aad_keyring k in
      let ring : Keyring = record { protection = password; salt = salt; wrapped_dek = wrapped } in
      let t : Store = record s { draws = suc s.draws } in
      rw (
        e,
        write_keyring_done ring t (outcome_done (write_keyring sv ring t).0 h),
        parse-password salt wrapped,
        at,
        unseal-seal sv law key k aad_keyring s,
        v,
      )

  unlock-set_with :
      (pw : Str) (o : Option Bytes) (s u : Store)
      → SlotIsValid o
      → (set_with sv (some pw) o s).0 ≡ done
      → u.keyring_file ≡ (set_with sv (some pw) o s).1.keyring_file
      → unlock_with_password sv pw u ≡ (done, set_slot o u)
  unfolding set_with wrap_dek wrap_with_key write_wrapped argon2_key draw SlotIsValid
  unlock-set_with pw none s u v h e = ground arith
  unlock-set_with pw (some k) s u v h e =
      let salt = sv.random s.draws 16 in
      elim (Option-cases (sv.argon2 pw salt)) [
        | inl b ↦ ground (arith, rw b at h)
        | inr (key, b) ↦
            unlock-write pw salt key k (record s { draws = suc s.draws }) u b v (rw b at h)
              (rw b at e)
      ]

  dek_valid : (o : Option Bytes) (s : Store) → IsKept o s → SlotIsValid o
  unfolding IsKept SlotIsValid
  dek_valid none s k = tt
  dek_valid (some d) s k = k.1

  -- The password that was set puts the data key back that was in use, whatever the slot holds since.
  pub unlock-set_master_password :
      (pw : Str) (s u : Store)
      → is_empty pw ≡ false
      → SlotIsValid s.slot
      → (set_master_password sv (some pw) s).0 ≡ done
      → u.keyring_file ≡ (set_master_password sv (some pw) s).1.keyring_file
      → unlock_with_password sv pw u ≡ (done, set_slot (dek sv s).0 u)
  unfolding set_master_password given
  unlock-set_master_password pw s u filled v h e =
      let kept = dek-IsKept sv s law.length-random v in
      unlock-set_with pw (dek sv s).0 (dek sv s).1 u (dek_valid (dek sv s).0 (dek sv s).1 kept)
        (rw filled at h) (rw filled at e)
