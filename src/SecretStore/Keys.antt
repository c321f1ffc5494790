-- ===== src/SecretStore/Keys.antt =====
-- The data key: it has 32 bytes, and the key that is used stands in the slot.
use app_full.Base.{
  eq_of_test, ℕ, suc, [], ◌++◌, Option, none, some, ◌==◌, length, ◌≡◌, refl, subst, Bool-cases, inl,
  inr,
}
use app_full.SecretStore.Values.{bind_option}
use app_full.SecretStore.Format.{
  Bytes, Services, machine, KeyringError, Keyring, aad_keyring, usable_salt, unseal, as_dek,
  is_password,
}
use app_full.SecretStore.Vault.{
  Store, when_some, draw, machine_key, install_salt, salt_or_new, seal, write_file, write_keyring,
  read_keyring, keep, keep_written, dek_from, find_dek, machine_dek, dek_or_machine, dek,
}

-- The slot holds no key, or one of 32 bytes.
unfoldable pub SlotIsValid : Option Bytes → Type 0
SlotIsValid none = Unit
SlotIsValid (some k) = length k ≡ 32

-- The result is a key only if it is kept in the slot, and the slot is valid.
unfoldable pub IsKept : Option Bytes → Store → Type 0
unfolding SlotIsValid
IsKept none t = SlotIsValid t.slot
IsKept (some k) t = (t.slot ≡ some k) × (length k ≡ 32)

module _ (sv : Services) where
  keep_written-IsKept :
      (key : Bytes) (o : Option KeyringError) (s : Store)
      → length key ≡ 32
      → SlotIsValid s.slot
      → IsKept (keep_written sv key o s).0 (keep_written sv key o s).1
  unfolding keep_written keep IsKept
  keep_written-IsKept key none s h v = (refl, h)
  keep_written-IsKept key (some e) s h v = v

  IsKept-as_dek :
      (o : Option Bytes) (s : Store)
      → SlotIsValid s.slot
      → IsKept
          (when_some (bind_option o as_dek) (keep sv) s).0
          (when_some (bind_option o as_dek) (keep sv) s).1
  unfolding as_dek keep IsKept SlotIsValid
  IsKept-as_dek none s v = v
  IsKept-as_dek (some raw) s v = elim (Bool-cases (length raw == 32)) [
    | inl e ↦ rw e (refl, eq_of_test (length raw) 32 e)
    | inr e ↦ rw e v
  ]

  pub slot-write_keyring : (ring : Keyring) (s : Store) → (write_keyring sv ring s).1.slot ≡ s.slot
  unfolding write_keyring write_file
  slot-write_keyring ring s = elim (Bool-cases (sv.make_dir s.writes)) [
    | inl e ↦ rw e refl
    | inr e ↦ rw e refl
  ]

  slot-salt_or_new : (o : Option Bytes) (s : Store) → (salt_or_new sv o s).1.slot ≡ s.slot
  unfolding salt_or_new draw
  slot-salt_or_new none s = refl
  slot-salt_or_new (some d) s = refl

  pub slot-machine_key : (s : Store) → (machine_key sv s).1.slot ≡ s.slot
  unfolding machine_key install_salt
  slot-machine_key s = slot-salt_or_new (usable_salt s.salt_file) s

  dek_from-IsKept :
      (mkey : Bytes) (o : Option Keyring) (s : Store)
      → ((i n : ℕ) → length (sv.random i n) ≡ n)
      → SlotIsValid s.slot
      → IsKept (dek_from sv mkey o s).0 (dek_from sv mkey o s).1
  unfolding dek_from draw seal IsKept
  dek_from-IsKept mkey (some ring) s random v = elim (Bool-cases (is_password ring.protection)) [
    | inl e ↦ rw e v
    | inr e ↦ rw e (IsKept-as_dek (unseal sv mkey ring.wrapped_dek aad_keyring) s v)
  ]
  dek_from-IsKept mkey none s random v =
      let t : Store = record s { draws = suc (suc s.draws) } in
      let nonce = sv.random (suc s.draws) 24 in
      let ring : Keyring = record {
        protection = machine;
        salt = [];
        wrapped_dek = nonce ++ sv.encrypt mkey nonce aad_keyring (sv.random s.draws 32);
      } in
      keep_written-IsKept (sv.random s.draws 32) (write_keyring sv ring t).0
        (write_keyring sv ring t).1 (random s.draws 32) (rw (slot-write_keyring ring t) v)

  find_dek-IsKept :
      (o : Option Bytes) (s : Store)
      → ((i n : ℕ) → length (sv.random i n) ≡ n)
      → SlotIsValid s.slot
      → s.slot ≡ o
      → IsKept (find_dek sv o s).0 (find_dek sv o s).1
  unfolding find_dek IsKept SlotIsValid
  find_dek-IsKept (some k) s random v e = (e, subst SlotIsValid e v)
  find_dek-IsKept none s random v e =
      let t = machine_key sv s in
      dek_from-IsKept t.0 (read_keyring sv t.1) t.1 random (rw (slot-machine_key s) v)

  dek_or_machine-IsKept :
      (o : Option Bytes) (s : Store)
      → ((i n : ℕ) → length (sv.random i n) ≡ n)
      → SlotIsValid s.slot
      → s.slot ≡ o
      → IsKept (dek_or_machine sv o s).0 (dek_or_machine sv o s).1
  unfolding dek_or_machine machine_dek IsKept SlotIsValid
  dek_or_machine-IsKept (some k) s random v e = (e, subst SlotIsValid e v)
  dek_or_machine-IsKept none s random v e = find_dek-IsKept s.slot s random v refl

  -- The key that `dek` returns has 32 bytes and is the one that stays in the slot. If it returns none,
  -- the slot is still valid.
  pub dek-IsKept :
      (s : Store)
      → ((i n : ℕ) → length (sv.random i n) ≡ n)
      → SlotIsValid s.slot
      → IsKept (dek sv s).0 (dek sv s).1
  unfolding dek
  dek-IsKept s random v = dek_or_machine-IsKept s.slot s random v refl
