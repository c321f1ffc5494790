-- ===== src/SecretStore/Restart.antt =====
-- A restart of the program (src/secret-store/src/lib.rs).
use app_full.Base.{
  ℕ, suc, [], Option, none, some, length, ◌≡◌, refl, sym, ap, ◌∙◌, arith, Bool-cases, inl, inr,
}
use mathlib.Core.Option.{some-injective}
use app_full.Base.Texts.{Str}
use app_full.SecretStore.Values.{bind_option}
use app_full.SecretStore.Format.{
  Bytes, Services, machine, KeyringError, Keyring, aad_keyring, usable_salt, unseal, as_dek,
  parse_keyring, keyring_json, is_password,
}
use app_full.SecretStore.Vault.{
  Store, when_some, draw, machine_key, install_salt, salt_or_new, seal, write_file, write_keyring,
  read_keyring, keep, keep_written, dek_from, find_dek, machine_dek, dek_or_machine, dek,
}
use app_full.SecretStore.Opening.{IsLawful, unseal-seal}
use app_full.SecretStore.Passwords.{parse-machine, write_keyring_done}

module _ (sv : Services) where
  -- The salt that is used is found again.
  salt_again :
      (o : Option Bytes) (s u : Store)
      → ((i n : ℕ) → length (sv.random i n) ≡ n)
      → ((i : ℕ) (b : Bytes) → sv.write_salt i b ≡ some b)
      → usable_salt s.salt_file ≡ o
      → u.salt_file ≡ (salt_or_new sv o s).1.salt_file
      → usable_salt u.salt_file ≡ some (salt_or_new sv o s).0
  unfolding salt_or_new draw usable_salt
  salt_again (some d) s u random writes e f = rw f e
  salt_again none s u random writes e f = rw (f, writes, random) refl

  machine_key-restarted :
      (s u : Store)
      → ((i n : ℕ) → length (sv.random i n) ≡ n)
      → ((i : ℕ) (b : Bytes) → sv.write_salt i b ≡ some b)
      → u.salt_file ≡ (machine_key sv s).1.salt_file
      → (machine_key sv u).0 ≡ (machine_key sv s).0
  unfolding machine_key install_salt salt_or_new
  machine_key-restarted s u random writes e =
      rw (salt_again (usable_salt s.salt_file) s u random writes refl e) refl

  keyring-salt_or_new :
      (o : Option Bytes) (s : Store) → (salt_or_new sv o s).1.keyring_file ≡ s.keyring_file
  unfolding salt_or_new draw
  keyring-salt_or_new none s = refl
  keyring-salt_or_new (some d) s = refl

  keyring-machine_key : (s : Store) → (machine_key sv s).1.keyring_file ≡ s.keyring_file
  unfolding machine_key install_salt
  keyring-machine_key s = keyring-salt_or_new (usable_salt s.salt_file) s

  salt-write_keyring :
      (ring : Keyring) (s : Store) → (write_keyring sv ring s).1.salt_file ≡ s.salt_file
  unfolding write_keyring write_file
  salt-write_keyring ring s = elim (Bool-cases (sv.make_dir s.writes)) [
    | inl e ↦ rw e refl
    | inr e ↦ rw e refl
  ]

  salt-keep_written :
      (d : Bytes) (o : Option KeyringError) (s : Store)
      → (keep_written sv d o s).1.salt_file ≡ s.salt_file
  unfolding keep_written keep
  salt-keep_written d none s = refl
  salt-keep_written d (some e) s = refl

  salt-when_keep :
      (o : Option Bytes) (s : Store) → (when_some o (keep sv) s).1.salt_file ≡ s.salt_file
  unfolding keep
  salt-when_keep none s = refl
  salt-when_keep (some d) s = refl

  salt-dek_from :
      (mkey : Bytes) (o : Option Keyring) (s : Store)
      → (dek_from sv mkey o s).1.salt_file ≡ s.salt_file
  unfolding dek_from seal draw
  salt-dek_from mkey none s = rw (salt-keep_written, salt-write_keyring) refl
  salt-dek_from mkey (some ring) s = elim (Bool-cases (is_password ring.protection)) [
    | inl e ↦ rw e refl
    | inr e ↦ rw (e, salt-when_keep) refl
  ]

  keyring-keep_written :
      (d : Bytes) (o : Option KeyringError) (s : Store)
      → (keep_written sv d o s).1.keyring_file ≡ s.keyring_file
  unfolding keep_written keep
  keyring-keep_written d none s = refl
  keyring-keep_written d (some e) s = refl

  keep_written-some :
      (d k : Bytes) (o : Option KeyringError) (s : Store)
      → (keep_written sv d o s).0 ≡ some k
      → (o ≡ none) × (d ≡ k)
  unfolding keep_written keep
  keep_written-some d k none s h = (refl, some-injective d k h)
  keep_written-some d k (some e) s h = ground arith

  read_keyring-same :
      (s t : Store) → s.keyring_file ≡ t.keyring_file → read_keyring sv s ≡ read_keyring sv t
  unfolding read_keyring
  read_keyring-same s t e = rw e refl

  read_keyring-text :
      (s : Store) (json : Str) (ring : Keyring)
      → s.keyring_file ≡ some json
      → parse_keyring sv json ≡ some ring
      → read_keyring sv s ≡ some ring
  unfolding read_keyring
  read_keyring-text s json ring e p = rw (e, p) refl

  -- Opening the keyring of a machine does not depend on the store and leaves the file.
  when_keep-same :
      (o : Option Bytes) (s t : Store) → (when_some o (keep sv) s).0 ≡ (when_some o (keep sv) t).0
  unfolding keep
  when_keep-same none s t = refl
  when_keep-same (some d) s t = refl

  keyring-when_keep :
      (o : Option Bytes) (s : Store) → (when_some o (keep sv) s).1.keyring_file ≡ s.keyring_file
  unfolding keep
  keyring-when_keep none s = refl
  keyring-when_keep (some d) s = refl

  keyring-dek_from :
      (mkey : Bytes) (ring : Keyring) (s : Store)
      → (dek_from sv mkey (some ring) s).1.keyring_file ≡ s.keyring_file
  unfolding dek_from
  keyring-dek_from mkey ring s = elim (Bool-cases (is_password ring.protection)) [
    | inl e ↦ rw e refl
    | inr e ↦ rw (e, keyring-when_keep) refl
  ]

  dek_from-same :
      (mkey : Bytes) (ring : Keyring) (s t : Store)
      → (dek_from sv mkey (some ring) s).0 ≡ (dek_from sv mkey (some ring) t).0
  unfolding dek_from
  dek_from-same mkey ring s t = elim (Bool-cases (is_password ring.protection)) [
    | inl e ↦ rw e refl
    | inr e ↦
        rw e (when_keep-same (bind_option (unseal sv mkey ring.wrapped_dek aad_keyring) as_dek) s t)
  ]

  dek_locked :
      (s : Store)
      → s.slot ≡ none
      → let m = machine_key sv s in dek sv s ≡ dek_from sv m.0 (read_keyring sv m.1) m.1
  unfolding dek dek_or_machine machine_dek find_dek
  dek_locked s e = rw e refl

  module _ (law : IsLawful sv) where
    dek_from-wrapped :
        (mkey k : Bytes) (s t : Store)
        → length k ≡ 32
        → (dek_from sv mkey
            (some (record {
              protection = machine;
              salt = [];
              wrapped_dek = (seal sv mkey k aad_keyring s).0;
            }))
            t).0
          ≡ some k
    unfolding dek_from is_password as_dek keep
    dek_from-wrapped mkey k s t h = rw (unseal-seal sv law mkey k aad_keyring s, h) refl

    dek_from-restarted :
        (mkey k : Bytes) (o : Option Keyring) (s t : Store)
        → read_keyring sv s ≡ o
        → (dek_from sv mkey o s).0 ≡ some k
        → t.keyring_file ≡ (dek_from sv mkey o s).1.keyring_file
        → (dek_from sv mkey (read_keyring sv t) t).0 ≡ some k
    unfolding dek_from seal draw
    dek_from-restarted mkey k (some ring) s t r h e =
        rw (read_keyring-same t s (e ∙ keyring-dek_from mkey ring s), r)
          (dek_from-same mkey ring t s ∙ h)
    dek_from-restarted mkey k none s t r h e =
        let u : Store = record s { draws = suc s.draws } in
        let v : Store = record s { draws = suc (suc s.draws) } in
        let d = sv.random s.draws 32 in
        let ring : Keyring = record {
          protection = machine;
          salt = [];
          wrapped_dek = (seal sv mkey d aad_keyring u).0;
        } in
        let w = write_keyring sv ring v in
        let kept = keep_written-some d k w.0 w.1 h in
        let file = e ∙ keyring-keep_written d w.0 w.1 ∙ write_keyring_done sv law ring v kept.0 in
        let json = sv.to_string_pretty (keyring_json sv ring) in
        rw
          (read_keyring-text t json ring file
            (parse-machine sv law (seal sv mkey d aad_keyring u).0))
          (dek_from-wrapped mkey d u t (law.length-random s.draws 32) ∙ ap (λ x. some x) kept.1)

    -- A store with an empty slot finds a data key, or draws one on the first start. After a restart
    -- with the files that it left, the store finds the same key, if salts that are written are kept.
    pub dek-restarted :
        (k : Bytes) (s t : Store)
        → ((i : ℕ) (b : Bytes) → sv.write_salt i b ≡ some b)
        → s.slot ≡ none
        → t.slot ≡ none
        → t.salt_file ≡ (dek sv s).1.salt_file
        → t.keyring_file ≡ (dek sv s).1.keyring_file
        → (dek sv s).0 ≡ some k
        → (dek sv t).0 ≡ some k
    dek-restarted k s t writes es et salt_kept ring_kept h =
        let first = dek_locked s es in
        let mkey = (machine_key sv s).0 in
        let u = (machine_key sv s).1 in
        let v = (machine_key sv t).1 in
        let salt =
          salt_kept ∙ ap (λ r. r.1.salt_file) first ∙ salt-dek_from mkey (read_keyring sv u) u in
        let ring = keyring-machine_key t ∙ ring_kept ∙ ap (λ r. r.1.keyring_file) first in
        rw (dek_locked t et, machine_key-restarted s t law.length-random writes salt)
          (dek_from-restarted mkey k (read_keyring sv u) u v refl (sym (ap (λ r. r.0) first) ∙ h)
            ring)
