-- ===== src/SecretStore/Format.antt =====
-- The format of the keyring of the store of secrets (src/secret-store/src/lib.rs). Ciphers, key
-- derivation, base64, JSON, randomness and the results of writes are the record `Services`; the number
-- of a draw or of a write is an argument.
use app_full.Base.{
  ℕ, Bool, true, false, not, List, [], Option, none, some, if◌then◌else◌, ltb, ◌==◌, length, take,
  drop,
}
use app_full.Base.Texts.{Str, codes, str_eq, is_empty}
use app_full.SecretStore.Values.{
  ◌>>=◌, Json, number, text, object, no_fields, field, get, as_u64, as_str,
}

abbrev pub Bytes : Type 0
Bytes = List ℕ

pub record Services : Type 0 where
  pub from_str : Str → Option Json
  pub to_string : Json → Str
  pub to_string_pretty : Json → Str
  pub base64 : Bytes → Str
  pub unbase64 : Str → Option Bytes
  pub encrypt : Bytes → Bytes → Bytes → Bytes → Bytes
  pub decrypt : Bytes → Bytes → Bytes → Bytes → Option Bytes
  -- `hash_password_into`; `None` is an error.
  pub argon2 : Str → Bytes → Option Bytes
  pub hkdf : Bytes → Bytes → Bytes → Bytes
  pub machine_id : Option Str
  pub user : Option Str
  pub random : ℕ → ℕ → Bytes
  pub make_dir : ℕ → Bool
  -- Whether a write succeeds, and what the file holds behind it.
  pub write_salt : ℕ → Bytes → Option Bytes
  pub write_text : ℕ → Str → Bool × Option Str

pub data Protection : Type 0 where
  machine : Protection
  password : Protection

pub data UnlockError : Type 0 where
  not_password_protected : UnlockError
  wrong_password : UnlockError
  malformed : UnlockError

pub data KeyringError : Type 0 where
  locked : KeyringError
  io : KeyringError

-- What a function that returns `Result<(), E>` ends with.
pub data Outcome (E : Type 0) : Type 0 where
  done : Outcome E
  failed : E → Outcome E
  panicked : Outcome E

-- `None` is `Ok(())`.
unfoldable pub outcome : {E : Type 0} → Option E → Outcome E
outcome none = done
outcome (some e) = failed e

pub record Keyring : Type 0 where
  pub protection : Protection
  pub salt : Bytes
  pub wrapped_dek : Bytes

abbrev pub hkdf_context : Bytes
hkdf_context = codes "ice-commander.conn.v1"

abbrev pub aad_v2 : Bytes
aad_v2 = codes "ice-commander.conn.v2"

abbrev pub aad_keyring : Bytes
aad_keyring = codes "ice-commander.keyring.v1"

unfoldable pub unwrap_or_default : Option (List ℕ) → List ℕ
unwrap_or_default none = []
unwrap_or_default (some t) = t

-- A salt of the right length.
unfoldable pub usable_salt : Option Bytes → Option Bytes
usable_salt none = none
usable_salt (some d) = if length d == 32 then some d else none

unfoldable pub parse_protection : Str → Option Protection
unfolding str_eq
parse_protection t =
    if str_eq t (codes "password")
    then some password
    else if str_eq t (codes "machine")
    then some machine
    else none

unfoldable pub protection_name : Protection → Str
protection_name machine = codes "machine"
protection_name password = codes "password"

unfoldable pub is_password : Protection → Bool
is_password machine = false
is_password password = true

-- A data key has 32 bytes.
unfoldable pub as_dek : Bytes → Option Bytes
as_dek raw = if length raw == 32 then some raw else none

-- `password.filter(|p| !p.is_empty())`
unfoldable pub given : Option Str → Option Str
unfolding is_empty
given none = none
given (some pw) = if is_empty pw then none else some pw

abbrev pub kdf : Json
kdf = object (
    field (codes "alg") (text (codes "argon2id")) (
      field (codes "m_kib") (number 19456)
        (field (codes "p") (number 1) (field (codes "t") (number 2) no_fields))))

module _ (sv : Services) where
  -- `None` is the panic of `expect` on an error, as on a salt that is too short.
  unfoldable pub argon2_key : Str → Bytes → Option Bytes
  argon2_key pw salt = sv.argon2 pw salt

  -- `open`
  unfoldable pub unseal : Bytes → Bytes → Bytes → Option Bytes
  unseal key packed aad =
      if ltb (length packed) 24 then none else sv.decrypt key (take 24 packed) aad (drop 24 packed)

  unfoldable pub get_bytes : Str → Json → Option Bytes
  unfolding get as_str
  get_bytes key v = get key v >>= as_str >>= sv.unbase64

  unfoldable pub parse_keyring : Str → Option Keyring
  unfolding get as_u64 as_str parse_protection get_bytes unwrap_or_default
  parse_keyring json = sv.from_str json >>= λ v.
      get (codes "ic_keyring") v >>= as_u64 >>= λ version.
      if not (version == 1)
      then none
      else get (codes "protection") v >>= as_str >>= parse_protection >>= λ p.
          get_bytes (codes "wrapped_dek") v >>= λ wrapped. some (record {
            protection = p;
            salt = unwrap_or_default (get_bytes (codes "salt") v);
            wrapped_dek = wrapped;
          })

  -- The keys of an object are in order.
  unfoldable pub keyring_json : Keyring → Json
  unfolding protection_name is_password
  keyring_json ring =
      let wrapped = field (codes "wrapped_dek") (text (sv.base64 ring.wrapped_dek)) no_fields in
      let named = field (codes "protection") (text (protection_name ring.protection)) in
      object (
        field (codes "ic_keyring") (number 1) (
          if is_password ring.protection
          then field (codes "kdf") kdf
              (named (field (codes "salt") (text (sv.base64 ring.salt)) wrapped))
          else named wrapped))
