-- ===== src/SecretStore/Uses.antt =====
-- A secret stays readable while the store is used, and behind a change of the master password.
use app_full.Base.{
  ℕ, suc, false, ◌||◌, List, All, Option, none, some, ◌≡◌, refl, sym, ap, ◌∙◌, subst, Bool-cases,
  Option-cases, inl, inr,
}
use app_full.Base.Texts.{Str, is_empty, strip_prefix}
use app_full.Base.Utf8.{encode, IsScalar}
use app_full.SecretStore.Format.{Bytes, Services, done, Keyring, argon2_key}
use app_full.SecretStore.Vault.{
  Store, set_slot, draw, seal, dek_or_machine, dek, unlock_with_password, lock, wrap_with_key,
  wrap_dek, write_wrapped, set_with, set_master_password,
}
use app_full.SecretStore.Keys.{SlotIsValid, slot-machine_key, slot-write_keyring}
use app_full.SecretStore.Secrets.{
  prefix_v1, prefix_v2, is_encrypted, seal_secret, try_encrypt_secret, open_secret, decrypt_as,
  decrypt_secret, encrypt_secret, open_legacy,
}
use app_full.SecretStore.Opening.{IsLawful, Seals, Seals-try_encrypt_secret, decrypt-Seals}
use app_full.SecretStore.Passwords.{unlock-set_master_password}

-- One use of an unlocked store, whatever its result.
pub data Uses (sv : Services) (s : Store) : Store → Type 0 where
  unused : Uses sv s s
  encrypts : (t : Store) (plain : Str) → Uses sv s t → Uses sv s (encrypt_secret sv plain t).1
  decrypts : (t : Store) (stored : Str) → Uses sv s t → Uses sv s (decrypt_secret sv stored t).1
  changes_password :
      (t : Store) (pw : Option Str) → Uses sv s t → Uses sv s (set_master_password sv pw t).1

module _ (sv : Services) where
  pub dek_cached : (k : Bytes) (s : Store) → s.slot ≡ some k → dek sv s ≡ (some k, s)
  unfolding dek dek_or_machine
  dek_cached k s e = rw e refl

  pub slot-encrypt_secret :
      (k : Bytes) (plain : Str) (s : Store)
      → s.slot ≡ some k
      → (encrypt_secret sv plain s).1.slot ≡ some k
  unfolding encrypt_secret try_encrypt_secret seal_secret seal draw
  slot-encrypt_secret k plain s e = elim (Bool-cases (is_empty plain || is_encrypted plain)) [
    | inl b ↦ rw b e
    | inr b ↦ rw (b, dek_cached k s e) e
  ]

  slot-decrypt_as :
      (k : Bytes) (stored : Str) (o legacy : Option Str) (s : Store)
      → s.slot ≡ some k
      → (decrypt_as sv stored o legacy s).1.slot ≡ some k
  unfolding decrypt_as open_secret open_legacy
  slot-decrypt_as k stored (some enc) legacy s e = elim (Option-cases (sv.unbase64 enc)) [
    | inl b ↦ rw b e
    | inr b ↦ rw (b.1, dek_cached k s e) e
  ]
  slot-decrypt_as k stored none (some enc) s e = elim (Option-cases (sv.unbase64 enc)) [
    | inl b ↦ rw b e
    | inr b ↦ rw (b.1, slot-machine_key sv s) e
  ]
  slot-decrypt_as k stored none none s e = e

  pub slot-decrypt_secret :
      (k : Bytes) (stored : Str) (s : Store)
      → s.slot ≡ some k
      → (decrypt_secret sv stored s).1.slot ≡ some k
  unfolding decrypt_secret
  slot-decrypt_secret k stored s e =
      slot-decrypt_as k stored (strip_prefix prefix_v2 stored) (strip_prefix prefix_v1 stored) s e

  slot-wrap_with_key :
      (k salt : Bytes) (o : Option Bytes) (s : Store)
      → (wrap_with_key sv k salt o s).1.slot ≡ s.slot
  unfolding wrap_with_key seal draw
  slot-wrap_with_key k salt none s = refl
  slot-wrap_with_key k salt (some key) s = refl

  slot-wrap_dek : (k : Bytes) (o : Option Str) (s : Store) → (wrap_dek sv k o s).1.slot ≡ s.slot
  unfolding wrap_dek seal draw argon2_key
  slot-wrap_dek k (some pw) s =
      slot-wrap_with_key k (sv.random s.draws 16) (argon2_key sv pw (sv.random s.draws 16))
        (record s { draws = suc s.draws })
  slot-wrap_dek k none s = slot-machine_key sv s

  slot-write_wrapped : (o : Option Keyring) (s : Store) → (write_wrapped sv o s).1.slot ≡ s.slot
  unfolding write_wrapped
  slot-write_wrapped none s = refl
  slot-write_wrapped (some ring) s = slot-write_keyring sv ring s

  slot-set_master_password :
      (k : Bytes) (pw : Option Str) (s : Store)
      → s.slot ≡ some k
      → (set_master_password sv pw s).1.slot ≡ some k
  unfolding set_master_password set_with
  slot-set_master_password k pw s e = rw (dek_cached k s e, slot-write_wrapped, slot-wrap_dek) e

  slot-Uses : (k : Bytes) (s t : Store) → Uses sv s t → s.slot ≡ some k → t.slot ≡ some k
  slot-Uses k s _ unused e = e
  slot-Uses k s _ (encrypts u plain h) e = slot-encrypt_secret k plain u (slot-Uses k s u h e)
  slot-Uses k s _ (decrypts u stored h) e = slot-decrypt_secret k stored u (slot-Uses k s u h e)
  slot-Uses k s _ (changes_password u pw h) e =
      slot-set_master_password k pw u (slot-Uses k s u h e)

  -- A text that is valid UTF-8, not empty and without the prefix of a sealed one is sealed. After any
  -- sequence of further seals, openings and changes of the master password, whatever their results,
  -- the sealed text is opened to the same text.
  pub decrypt-Uses :
      (law : IsLawful sv) (plain stored : Str) (cs : List ℕ) (s t : Store)
      → SlotIsValid s.slot
      → is_empty plain ≡ false
      → is_encrypted plain ≡ false
      → All IsScalar cs
      → plain ≡ encode cs
      → (try_encrypt_secret sv plain s).0 ≡ some stored
      → Uses sv (try_encrypt_secret sv plain s).1 t
      → (decrypt_secret sv stored t).0 ≡ some plain
  decrypt-Uses law plain stored cs s t v filled plain_text scalar e h used =
      let seals = Seals-try_encrypt_secret sv law plain stored s v filled plain_text h in
      decrypt-Seals sv law plain stored cs t scalar e (
        subst (λ o. Seals sv o plain stored)
          (seals.in_slot
            ∙ sym (slot-Uses seals.key (try_encrypt_secret sv plain s).1 t used seals.in_slot))
          seals)

  -- A text that is valid UTF-8, not empty and without the prefix of a sealed one is sealed; then a
  -- master password that is not empty is set with success, and the store is locked. Unlocking with
  -- this password succeeds, and the sealed text is then opened to the same text.
  pub decrypt-relocked :
      (law : IsLawful sv) (plain stored pw : Str) (cs : List ℕ) (s : Store)
      → SlotIsValid s.slot
      → is_empty plain ≡ false
      → is_encrypted plain ≡ false
      → All IsScalar cs
      → plain ≡ encode cs
      → (try_encrypt_secret sv plain s).0 ≡ some stored
      → is_empty pw ≡ false
      → (set_master_password sv (some pw) (try_encrypt_secret sv plain s).1).0 ≡ done
      → let t = (set_master_password sv (some pw) (try_encrypt_secret sv plain s).1).1 in
        let u = unlock_with_password sv pw (lock sv t).1 in
        (u.0 ≡ done) × ((decrypt_secret sv stored u.1).0 ≡ some plain)
  unfolding lock SlotIsValid
  decrypt-relocked law plain stored pw cs s v filled plain_text scalar e h pw_filled changed =
      let seals = Seals-try_encrypt_secret sv law plain stored s v filled plain_text h in
      let t = (try_encrypt_secret sv plain s).1 in
      let w = (set_master_password sv (some pw) t).1 in
      let back =
        unlock-set_master_password sv law pw t (set_slot none w) pw_filled
          (rw (seals.in_slot) seals.has_length) changed refl in
      (
        ap (λ r. r.0) back,
        decrypt-Seals sv law plain stored cs (unlock_with_password sv pw (lock sv w).1).1 scalar e (
            subst (λ o. Seals sv o plain stored)
              (seals.in_slot
                ∙ sym (ap (λ r. r.0) (dek_cached seals.key t seals.in_slot))
                ∙ sym (ap (λ r. r.1.slot) back))
              seals),
      )
