-- ===== src/SecretStore/Opening.antt =====
-- Sealed secrets are opened again, also behind a change of the master password.
use app_full.Base.{
  ℕ, ◌+◌, ◌≤◌, ◌<◌, true, false, List, [], ◌∷◌, ◌++◌, All, Option, none, some, ltb, length,
  length-append, take, drop, ◌≡◌, refl, sym, ap, arith,
}
use mathlib.Core.Option.{some-injective}
use app_full.Base.Texts.{Str, str_eq_refl, is_empty, strip_prefix, strip_prefix-append}
use app_full.Base.Utf8.{encode, IsScalar}
use app_full.Base.Utf8.RoundTrip.{decode-encode}
use app_full.SecretStore.Format.{Bytes, Services, Keyring, aad_v2, unseal, keyring_json}
use app_full.SecretStore.Vault.{Store, draw, seal, dek_or_machine, dek}
use app_full.SecretStore.Keys.{SlotIsValid, IsKept, dek-IsKept}
use app_full.SecretStore.Secrets.{
  prefix_v1, prefix_v2, from_utf8, is_encrypted, seal_secret, try_encrypt_secret, open_secret,
  decrypt_as, decrypt_secret,
}

-- What the store relies on: a cipher opens what it sealed under the same key, nonce and data, base64
-- reads what it wrote, JSON reads the keyrings it wrote, so many random bytes
-- are drawn as were asked for, a file holds what was written to it with success, and Argon2 derives a
-- key from a salt of 8 bytes or more, and refuses a shorter one.
pub record IsLawful (sv : Services) : Type 0 where
  pub decrypt-encrypt : (k n a m : Bytes) → sv.decrypt k n a (sv.encrypt k n a m) ≡ some m
  pub unbase64-base64 : (b : Bytes) → sv.unbase64 (sv.base64 b) ≡ some b
  pub from_str-to_string_pretty :
      (ring : Keyring)
      → sv.from_str (sv.to_string_pretty (keyring_json sv ring)) ≡ some (keyring_json sv ring)
  pub argon2_long :
      (pw : Str) (salt : Bytes) → 8 ≤ length salt → (k : Bytes) × (sv.argon2 pw salt ≡ some k)
  pub argon2_short : (pw : Str) (salt : Bytes) → length salt < 8 → sv.argon2 pw salt ≡ none
  pub length-random : (i n : ℕ) → length (sv.random i n) ≡ n
  pub write_text_done :
      (i : ℕ) (t : Str) → (sv.write_text i t).0 ≡ true → (sv.write_text i t).1 ≡ some t

module _ {ℓ} {A : Type ℓ} where
  pub take-length : (xs ys : List A) → take (length xs) (xs ++ ys) ≡ xs
  take-length [] ys = refl
  take-length (x ∷ xs) ys = ap (λ r. x ∷ r) (take-length xs ys)

  pub drop-length : (xs ys : List A) → drop (length xs) (xs ++ ys) ≡ ys
  drop-length [] ys = refl
  drop-length (x ∷ xs) ys = drop-length xs ys

  take-at : (xs ys : List A) (n : ℕ) → n ≡ length xs → take n (xs ++ ys) ≡ xs
  take-at xs ys n h = rw (h, take-length xs ys)

  drop-at : (xs ys : List A) (n : ℕ) → n ≡ length xs → drop n (xs ++ ys) ≡ ys
  drop-at xs ys n h = rw (h, drop-length xs ys)

ltb_add : (n k : ℕ) → ltb (n + k) n ≡ false
ltb_add n k = ground arith

pub from_utf8-encode : (cs : List ℕ) → All IsScalar cs → from_utf8 (encode cs) ≡ some (encode cs)
unfolding from_utf8
from_utf8-encode cs h = rw (decode-encode cs h, str_eq_refl (encode cs))

module _ (sv : Services) (law : IsLawful sv) where
  unseal-append :
      (key nonce aad m : Bytes)
      → length nonce ≡ 24
      → unseal sv key (nonce ++ sv.encrypt key nonce aad m) aad ≡ some m
  unfolding unseal
  unseal-append key nonce aad m h = rw (
    length-append,
    h,
    ltb_add 24 (length (sv.encrypt key nonce aad m)),
    take-at nonce (sv.encrypt key nonce aad m) 24 (sym h),
    drop-at nonce (sv.encrypt key nonce aad m) 24 (sym h),
    law.decrypt-encrypt,
  )

  pub unseal-seal :
      (key plain aad : Bytes) (s : Store)
      → unseal sv key (seal sv key plain aad s).0 aad ≡ some plain
  unfolding seal
  unseal-seal key plain aad s =
      unseal-append key (sv.random s.draws 24) aad plain (law.length-random s.draws 24)

  open_as :
      (plain : Str) (key packed : Bytes) (t : Store) (cs : List ℕ) (stored : Str)
      (legacy : Option Str)
      → All IsScalar cs
      → plain ≡ encode cs
      → t.slot ≡ some key
      → unseal sv key packed aad_v2 ≡ some plain
      → (decrypt_as sv stored (some (sv.base64 packed)) legacy t).0 ≡ some plain
  unfolding decrypt_as open_secret dek dek_or_machine
  open_as plain key packed t cs stored legacy scalar e slot un =
      rw (law.unbase64-base64, slot, un, e, from_utf8-encode cs scalar)

  pub decrypt-open :
      (plain : Str) (key packed : Bytes) (t : Store) (cs : List ℕ)
      → All IsScalar cs
      → plain ≡ encode cs
      → t.slot ≡ some key
      → unseal sv key packed aad_v2 ≡ some plain
      → (decrypt_secret sv (prefix_v2 ++ sv.base64 packed) t).0 ≡ some plain
  unfolding decrypt_secret
  decrypt-open plain key packed t cs scalar e slot un =
      rw (strip_prefix-append prefix_v2 (sv.base64 packed)) (
        open_as plain key packed t cs (prefix_v2 ++ sv.base64 packed)
          (strip_prefix prefix_v1 (prefix_v2 ++ sv.base64 packed)) scalar e slot un)

-- A text is sealed by the key that stands in a slot.
pub record Seals (sv : Services) (slot : Option Bytes) (plain stored : Str) : Type 0 where
  pub key : Bytes
  pub packed : Bytes
  pub has_length : length key ≡ 32
  pub in_slot : slot ≡ some key
  pub is_stored : stored ≡ prefix_v2 ++ sv.base64 packed
  pub is_sealed : unseal sv key packed aad_v2 ≡ some plain

module _ (sv : Services) (law : IsLawful sv) where
  Seals-seal_secret :
      (plain stored : Str) (o : Option Bytes) (t : Store)
      → IsKept o t
      → (seal_secret sv plain o t).0 ≡ some stored
      → Seals sv (seal_secret sv plain o t).1.slot plain stored
  unfolding seal_secret seal draw IsKept
  Seals-seal_secret plain stored none t kept h = ground arith
  Seals-seal_secret plain stored (some k) t kept h = record {
    key = k;
    packed = (seal sv k plain aad_v2 t).0;
    has_length = kept.1;
    in_slot = kept.0;
    is_stored = some-injective stored (prefix_v2 ++ sv.base64 (seal sv k plain aad_v2 t).0) (sym h);
    is_sealed = unseal-seal sv law k plain aad_v2 t;
  }

  pub Seals-try_encrypt_secret :
      (plain stored : Str) (s : Store)
      → SlotIsValid s.slot
      → is_empty plain ≡ false
      → is_encrypted plain ≡ false
      → (try_encrypt_secret sv plain s).0 ≡ some stored
      → Seals sv (try_encrypt_secret sv plain s).1.slot plain stored
  unfolding try_encrypt_secret
  Seals-try_encrypt_secret plain stored s v filled plain_text h =
      rw (filled, plain_text)
        (Seals-seal_secret plain stored (dek sv s).0 (dek sv s).1
          (dek-IsKept sv s law.length-random v) (rw (filled, plain_text) at h))

  pub decrypt-Seals :
      (plain stored : Str) (cs : List ℕ) (u : Store)
      → All IsScalar cs
      → plain ≡ encode cs
      → Seals sv u.slot plain stored
      → (decrypt_secret sv stored u).0 ≡ some plain
  decrypt-Seals plain stored cs u scalar e seals =
      rw (seals.is_stored) (
        decrypt-open sv law plain seals.key seals.packed u cs scalar e seals.in_slot
          seals.is_sealed)
