-- ===== src/SecretStore/Exports.antt =====
-- Exported connections (src/secret-store/src/lib.rs): a document in the open, or sealed by a password.
use app_full.Base.{
  ℕ, ◌+◌, Bool, true, false, not, All, Option, none, some, if◌then◌else◌, ◌&&◌, ◌==◌, ◌≡◌, refl,
  length, List, arith,
}
use app_full.Base.Texts.{Str, codes, is_empty}
use app_full.Base.Utf8.{encode, IsScalar}
use app_full.SecretStore.Values.{
  Json, boolean, number, text, array, object, no_items, no_fields, field, ◌>>=◌, get, as_bool,
}
use app_full.SecretStore.Format.{Bytes, Services, kdf, given, get_bytes, argon2_key}
use app_full.SecretStore.Secrets.{from_utf8}
use app_full.SecretStore.Opening.{IsLawful, from_utf8-encode}

pub data ImportError : Type 0 where
  malformed : ImportError
  needs_password : ImportError
  wrong_password : ImportError

pub data Import : Type 0 where
  imported : Str → Import
  refused : ImportError → Import
  panicked : Import

abbrev pub magic : Str
magic = codes "ic_connections"

unfoldable pub or_no_items : Option Json → Json
or_no_items none = array no_items
or_no_items (some v) = v

-- `o.ok_or(e)?`
unfoldable pub ok_or : {A : Type 0} → Option A → ImportError → (A → Import) → Import
ok_or none e f = refused e
ok_or (some a) e f = f a

unfoldable pub is_some : Option Json → Bool
is_some none = false
is_some (some v) = true

unfoldable pub is_true : Option Bool → Bool
is_true none = false
is_true (some b) = b

-- Whether the document says that it is sealed.
unfoldable pub says_encrypted : Json → Bool
unfolding is_true get as_bool
says_encrypted v = is_true (get (codes "encrypted") v >>= as_bool)

unfoldable pub import_result : Option Str → Import
import_result none = refused malformed
import_result (some t) = imported t

module _ (sv : Services) where
  -- The keys of an object are in order.
  unfoldable pub open_json : Json → Json
  open_json conns = object (
      field (codes "connections") conns
        (field (codes "encrypted") (boolean false) (field magic (number 1) no_fields)))

  unfoldable pub sealed_json : Bytes → Bytes → Bytes → Json
  sealed_json salt nonce ct = object (
      field (codes "data") (text (sv.base64 ct)) (
        field (codes "encrypted") (boolean true) (
          field magic (number 1) (
            field (codes "kdf") kdf (
              field (codes "nonce") (text (sv.base64 nonce))
                (field (codes "salt") (text (sv.base64 salt)) no_fields))))))

  -- The numbers of the two draws are `i` and `suc i`.
  unfoldable pub wrap_with : Str → ℕ → Option Str → Option Str
  unfolding open_json sealed_json or_no_items argon2_key
  wrap_with payload i none =
      some (sv.to_string_pretty (open_json (or_no_items (sv.from_str payload))))
  wrap_with payload i (some pw) =
      let salt = sv.random i 16 in
      let nonce = sv.random (i + 1) 24 in
      argon2_key sv pw salt >>= λ key.
      some (sv.to_string_pretty (sealed_json salt nonce (sv.encrypt key nonce magic payload)))

  -- `None` is a panic.
  unfoldable pub wrap_export : Str → ℕ → Option Str → Option Str
  unfolding wrap_with given
  wrap_export payload i pw = wrap_with payload i (given pw)

  unfoldable pub import_needs_password : Str → Bool
  unfolding is_some says_encrypted get
  import_needs_password json = elim (sv.from_str json) [
    | none ↦ false
    | some v ↦ is_some (get magic v) && says_encrypted v
  ]

  unfoldable pub decrypt_data : Option Bytes → Bytes → Bytes → Import
  unfolding ok_or import_result from_utf8
  decrypt_data none nonce content = panicked
  decrypt_data (some key) nonce content =
      ok_or (sv.decrypt key nonce magic content) wrong_password
        (λ plain. import_result (from_utf8 plain))

  unfoldable pub unwrap_sealed : Json → Str → Import
  unfolding ok_or get_bytes argon2_key decrypt_data
  unwrap_sealed v pw = ok_or (get_bytes sv (codes "salt") v) malformed (λ salt.
      ok_or (get_bytes sv (codes "nonce") v) malformed (λ nonce.
        ok_or (get_bytes sv (codes "data") v) malformed (λ content.
          if not (length nonce == 24)
          then refused malformed
          else decrypt_data (argon2_key sv pw salt) nonce content)))

  unfoldable pub unwrap_value : Json → Option Str → Import
  unfolding is_some says_encrypted get ok_or unwrap_sealed given
  unwrap_value v pw =
      if not (is_some (get magic v))
      then refused malformed
      else if says_encrypted v
      then ok_or (given pw) needs_password (unwrap_sealed v)
      else ok_or (get (codes "connections") v) malformed (λ conns. imported (sv.to_string conns))

  unfoldable pub unwrap_export : Str → Option Str → Import
  unfolding ok_or unwrap_value
  unwrap_export json pw = ok_or (sv.from_str json) malformed (λ v. unwrap_value v pw)

  -- Sealing an export with a password that is not empty gives a document, without a panic, and its
  -- import with this password gives the payload, if that is valid UTF-8 and JSON reads the sealed documents that it wrote.
  pub unwrap-wrap_export :
      (law : IsLawful sv) (payload pw : Str) (cs : List ℕ) (i : ℕ)
      → ((salt nonce ct : Bytes)
          → sv.from_str (sv.to_string_pretty (sealed_json salt nonce ct))
            ≡ some (sealed_json salt nonce ct))
      → is_empty pw ≡ false
      → All IsScalar cs
      → payload ≡ encode cs
      → (doc : Str) × (wrap_export payload i (some pw) ≡ some doc)
        × (unwrap_export doc (some pw) ≡ imported payload)
  unfolding unwrap_export wrap_export wrap_with unwrap_value given unwrap_sealed argon2_key
      decrypt_data
  unwrap-wrap_export law payload pw cs i json filled scalar e =
      let salt = sv.random i 16 in
      let nonce = sv.random (i + 1) 24 in
      let (key, at) = law.argon2_long pw salt (rw (law.length-random i 16) (omega arith)) in
      let ct = sv.encrypt key nonce magic payload in
      (
        sv.to_string_pretty (sealed_json salt nonce ct),
        rw (filled, wrap_with, argon2_key, at) refl,
        rw
            (
              filled,
              json salt nonce ct,
              unwrap_sealed,
              law.unbase64-base64 salt,
              law.unbase64-base64 nonce,
              law.unbase64-base64 ct,
              law.length-random,
              argon2_key,
              at,
              decrypt_data,
              law.decrypt-encrypt,
              e,
              from_utf8-encode cs scalar,
            )
            refl,
      )

  -- An export that is sealed with a password that is not empty says that it needs one, and without a
  -- password, or with an empty one, its import is refused with `NeedsPassword`, if JSON reads the
  -- sealed documents that it wrote.
  export-needs_password :
      (law : IsLawful sv) (payload pw : Str) (i : ℕ) (given_pw : Option Str)
      → ((salt nonce ct : Bytes)
          → sv.from_str (sv.to_string_pretty (sealed_json salt nonce ct))
            ≡ some (sealed_json salt nonce ct))
      → is_empty pw ≡ false
      → given given_pw ≡ none
      → (doc : Str) × (wrap_export payload i (some pw) ≡ some doc)
        × (import_needs_password doc ≡ true)
        × (unwrap_export doc given_pw ≡ refused needs_password)
  unfolding unwrap_export wrap_export wrap_with unwrap_value given import_needs_password argon2_key
  export-needs_password law payload pw i given_pw json filled missing =
      let salt = sv.random i 16 in
      let nonce = sv.random (i + 1) 24 in
      let (key, at) = law.argon2_long pw salt (rw (law.length-random i 16) (omega arith)) in
      let ct = sv.encrypt key nonce magic payload in
      (
        sv.to_string_pretty (sealed_json salt nonce ct),
        rw (filled, wrap_with, argon2_key, at) refl,
        rw (import_needs_password, json salt nonce ct) refl,
        rw (json salt nonce ct, missing) refl,
      )
