-- ===== src/SecretStore/Sample.antt =====
-- Services that can be run and keep the promises, and a secret: for the tests.
use app_full.Base.{
  ℕ, zero, suc, true, false, [], ◌∷◌, ◌++◌, All, Option, none, some, if◌then◌else◌, length, ◌==◌,
  take, drop, ◌≡◌, refl, ap, arith, inl, inr, Bool-cases, ltb, ◌≤◌, ◌<◌,
}
use app_full.Base.Texts.{Str, codes, is_empty, starts_with, strip_prefix, strip_prefix-append}
use app_full.Base.Utf8.{encode, encode_char, IsScalar}
use app_full.SecretStore.Values.{
  Json, number, text, boolean, object, no_fields, field, get, find, as_str, ◌>>=◌,
}
use app_full.SecretStore.Format.{
  Bytes, Services, Protection, machine, password, Keyring, keyring_json, protection_name,
  is_password, kdf,
}
use app_full.SecretStore.Vault.{Store}
use app_full.SecretStore.Secrets.{is_encrypted}
use app_full.SecretStore.Opening.{IsLawful, take-length, drop-length}
use app_full.SecretStore.Exports.{magic}

unfoldable pub replicate : ℕ → ℕ → Bytes
replicate zero b = []
replicate (suc n) b = b ∷ replicate n b

length-replicate : (n b : ℕ) → length (replicate n b) ≡ n
unfolding replicate
length-replicate zero b = refl
length-replicate (suc n) b = ap suc (length-replicate n b)

-- The document of a keyring or of a sealed export.
unfoldable pub from_sealed : Bytes → Bytes → Bytes → Json
from_sealed salt nonce ct = object (
    field (codes "data") (text ct) (
      field (codes "encrypted") (boolean true) (
        field magic (number 1) (
          field (codes "kdf") kdf
            (field (codes "nonce") (text nonce) (field (codes "salt") (text salt) no_fields))))))

unfoldable pub from_ring : Protection → Bytes → Bytes → Json
from_ring machine salt wrapped = object (
    field (codes "ic_keyring") (number 1) (
      field (codes "protection") (text (protection_name machine))
        (field (codes "wrapped_dek") (text wrapped) no_fields)))
from_ring password salt wrapped = object (
    field (codes "ic_keyring") (number 1) (
      field (codes "kdf") kdf (
        field (codes "protection") (text (protection_name password)) (
          field (codes "salt") (text salt)
            (field (codes "wrapped_dek") (text wrapped) no_fields)))))

unfoldable pub text_at : Str → Json → Str
unfolding get as_str
text_at k v = elim (get k v >>= as_str) [ none ↦ [] | some t ↦ t ]

-- The fields that are written: the name of the protection (none of a sealed export) with its length.
unfoldable pub to_text : Json → Str
to_text v =
    let p = text_at (codes "protection") v in
    let salt = text_at (codes "salt") v in
    let nonce = text_at (codes "nonce") v in
    if is_empty p
    then 0 ∷ length salt ∷ length nonce ∷ (salt ++ (nonce ++ text_at (codes "data") v))
    else length p ∷ length salt ∷ 0 ∷ (salt ++ text_at (codes "wrapped_dek") v)

unfoldable pub from_text : Str → Option Json
from_text (tag ∷ n ∷ m ∷ s) =
    if tag == 0
    then some (from_sealed (take n s) (take m (drop n s)) (drop m (drop n s)))
    else if tag == 7
    then some (from_ring machine (take n s) (drop n s))
    else some (from_ring password (take n s) (drop n s))
from_text s = none

abbrev pub services : Services
services = record {
  from_str = from_text;
  to_string = to_text;
  to_string_pretty = to_text;
  base64 = λ b. b;
  unbase64 = λ t. some t;
  encrypt = λ k n a m. k ++ m;
  decrypt = λ k n a c. strip_prefix k c;
  argon2 = λ pw salt. if ltb (length salt) 8 then none else some (pw ++ salt);
  hkdf = λ salt ikm info. take 32 salt;
  machine_id = none;
  user = none;
  random = λ i n. replicate n i;
  make_dir = λ i. true;
  write_salt = λ i b. some b;
  write_text = λ i t. (true, some t);
}

pub from_text-to_text :
    (salt nonce ct : Bytes)
    → from_text (to_text (from_sealed salt nonce ct)) ≡ some (from_sealed salt nonce ct)
unfolding from_text to_text from_sealed text_at find is_empty
from_text-to_text salt nonce ct =
    rw
      (
        take-length salt (nonce ++ ct),
        drop-length salt (nonce ++ ct),
        take-length nonce ct,
        drop-length nonce ct,
      )
      refl

from_text-ring :
    (p : Protection) (salt wrapped : Bytes)
    → let ring : Keyring = record { protection = p; salt = salt; wrapped_dek = wrapped } in
      from_text (to_text (keyring_json services ring)) ≡ some (keyring_json services ring)
unfolding from_text to_text from_ring text_at find is_empty keyring_json is_password protection_name
from_text-ring machine salt wrapped = refl
from_text-ring password salt wrapped = rw (take-length salt wrapped, drop-length salt wrapped) refl

long_salt :
    (pw salt : Bytes)
    → 8 ≤ length salt
    → (k : Bytes) × ((if ltb (length salt) 8 then none else some (pw ++ salt)) ≡ some k)
long_salt pw salt h = elim (Bool-cases (ltb (length salt) 8)) [
  | inl e ↦ ground arith
  | inr e ↦ rw e (pw ++ salt, refl)
]

short_salt :
    (pw salt : Bytes)
    → length salt < 8
    → (if ltb (length salt) 8 then none else some (pw ++ salt)) ≡ none
short_salt pw salt h = ground arith

pub services-IsLawful : IsLawful services
services-IsLawful = record {
  decrypt-encrypt = λ k n a m. strip_prefix-append k m;
  unbase64-base64 = λ b. refl;
  from_str-to_string_pretty = λ ring. from_text-ring ring.protection ring.salt ring.wrapped_dek;
  argon2_long = long_salt;
  argon2_short = short_salt;
  length-random = λ i n. length-replicate n i;
  write_text_done = λ i t h. refl;
}

-- The first start: no file, and the draw of number 1 is next.
abbrev pub fresh : Store
fresh = record { salt_file = none; keyring_file = none; slot = none; draws = 1; writes = 0 }

abbrev pub word : Str
word = codes "pw"

pub word-IsScalar : All IsScalar word
word-IsScalar = (inl (omega arith), (inl (omega arith), tt))

pub word-encode : word ≡ encode word
unfolding encode encode_char
word-encode = refl

pub word_plain : is_encrypted word ≡ false
unfolding is_encrypted starts_with
word_plain = refl

pub filled : is_empty word ≡ false
unfolding is_empty
filled = refl
