-- ===== src/SecretStore/Unlocking.antt =====
-- Unlocking by a password, with its errors (src/secret-store/src/lib.rs).
use app_full.Base.{
  eq_of_test, Bool, true, false, ◌&&◌, ltb, Option, none, some, ◌==◌, length, ◌≡◌, refl, arith,
  Bool-cases, ◌⊎◌, inl, inr,
}
use app_full.Base.Texts.{Str}
use app_full.SecretStore.Format.{
  Bytes, Services, Protection, machine, password, UnlockError, malformed, wrong_password,
  not_password_protected, Outcome, done, failed, panicked, argon2_key, Keyring, aad_keyring, unseal,
  is_password,
}
use app_full.SecretStore.Vault.{
  Store, set_slot, read_keyring, protection, take_raw, unlock_with_key, unlock_ring,
  unlock_with_password,
}
use app_full.SecretStore.Opening.{IsLawful}

-- A keyring that is protected by a password, with a salt of fewer than 8 bytes.
unfoldable pub has_short_salt : Option Keyring → Bool
unfolding is_password
has_short_salt none = false
has_short_salt (some ring) = is_password ring.protection && ltb (length ring.salt) 8

module _ (sv : Services) where
  -- Unlocking fails and changes nothing, or the keyring is protected by a password and the slot holds a key.
  unfoldable pub EndsUnlock : Store → Outcome UnlockError × Store → Type 0
  EndsUnlock s r =
      ((e : UnlockError) × (r ≡ (failed e, s)))
      ⊎ ((k : Bytes) × (length k ≡ 32)
          × (protection sv s ≡ password)
          × (r ≡ (done, set_slot (some k) s)))

  -- With a short salt it panics.
  unfoldable pub UnlockOutcome : Option Keyring → Store → Outcome UnlockError × Store → Type 0
  UnlockOutcome o s r =
      ((has_short_salt o ≡ true) × (r ≡ (panicked, s)))
      ⊎ ((has_short_salt o ≡ false) × EndsUnlock s r)

  unlock-take_raw :
      (o : Option Bytes) (s : Store) → protection sv s ≡ password → EndsUnlock s (take_raw sv o s)
  unfolding take_raw EndsUnlock
  unlock-take_raw none s p = inl (wrong_password, refl)
  unlock-take_raw (some raw) s p = elim (Bool-cases (length raw == 32)) [
    | inl e ↦ rw e (inr (raw, eq_of_test (length raw) 32 e, p, refl))
    | inr e ↦ rw e (inl (malformed, refl))
  ]

  is_password_lem : (p : Protection) → is_password p ≡ true → p ≡ password
  unfolding is_password
  is_password_lem password h = refl
  is_password_lem machine h = ground arith

  module _ (law : IsLawful sv) where
    unlock-password :
        (pw : Str) (ring : Keyring) (s : Store)
        → protection sv s ≡ password
        → is_password ring.protection ≡ true
        → UnlockOutcome (some ring) s (unlock_ring sv pw (some ring) s)
    unfolding unlock_ring unlock_with_key argon2_key UnlockOutcome has_short_salt
    unlock-password pw ring s p b = elim (Bool-cases (ltb (length ring.salt) 8)) [
      | inl e ↦ rw (b, e, law.argon2_short pw ring.salt (ground arith)) (inl (refl, refl))
      | inr e ↦
          let (key, at) = law.argon2_long pw ring.salt (ground arith) in
          rw (b, e, at)
            (inr (refl, unlock-take_raw (unseal sv key ring.wrapped_dek aad_keyring) s p))
    ]

    unlock-unlock_ring :
        (pw : Str) (o : Option Keyring) (s : Store)
        → read_keyring sv s ≡ o
        → UnlockOutcome o s (unlock_ring sv pw o s)
    unfolding unlock_ring protection UnlockOutcome EndsUnlock has_short_salt
    unlock-unlock_ring pw none s e = inr (refl, inl (malformed, refl))
    unlock-unlock_ring pw (some ring) s e = elim (Bool-cases (is_password ring.protection)) [
      | inl b ↦
          let p : protection sv s ≡ password =
            rw (protection, e) (is_password_lem ring.protection b) in
          unlock-password pw ring s p b
      | inr b ↦ rw b (inr (refl, inl (not_password_protected, refl)))
    ]

    -- The services keep their promises; Argon2 derives a key from the salts of 8 bytes or more, and from
    -- no other. Then unlocking panics, and leaves the store as it was, exactly when the keyring is
    -- protected by a password and its salt has fewer than 8 bytes, as when it is missing. Otherwise
    -- unlocking with any password either returns an error and leaves the store as it was, or succeeds,
    -- and then the keyring is protected by a password and the only change is that the slot holds a key
    -- of 32 bytes.
    pub unlock_with_password_lem :
        (pw : Str) (s : Store) → UnlockOutcome (read_keyring sv s) s (unlock_with_password sv pw s)
    unfolding unlock_with_password
    unlock_with_password_lem pw s = unlock-unlock_ring pw (read_keyring sv s) s refl
