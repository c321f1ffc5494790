-- ===== src/GtkApp/Connections/Sealing.antt =====
-- A connection is sealed and opened again (src/gtk-app/src/secret_store.rs).
use app_full.Base.{ℕ, true, false, List, [], ◌∷◌, ◌++◌, All, Option, none, some, ◌≡◌, refl}
use app_full.Base.Texts.{Str, is_empty, strip_prefix}
use app_full.Base.Utf8.{encode, IsScalar}
use app_full.SecretStore.Format.{Bytes, Services, aad_v2, unwrap_or_default}
use app_full.SecretStore.Vault.{Store, seal}
use app_full.SecretStore.Secrets.{
  is_encrypted, seal_secret, try_encrypt_secret, encrypt_secret, decrypt_secret, decrypt_as,
  prefix_v2,
}
use app_full.SecretStore.Opening.{IsLawful, decrypt-open, unseal-seal}
use app_full.SecretStore.Uses.{dek_cached, slot-encrypt_secret, slot-decrypt_secret}
use app_full.GtkApp.Connections.{
  FtpConnection, AppConfig, map_field, map_secret_fields, saving_enabled, seal_connection, sealed,
  open_connection,
}

-- A text that is not taken for a sealed one.
unfoldable pub IsPlain : Str → Type 0
IsPlain v = (cs : List ℕ) × All IsScalar cs × (v ≡ encode cs) × (is_encrypted v ≡ false)

unfoldable pub FieldIsPlain : Option Str → Type 0
FieldIsPlain none = Unit
FieldIsPlain (some v) = IsPlain v

unfoldable pub SecretsArePlain : FtpConnection → Type 0
SecretsArePlain c =
    FieldIsPlain c.pass
    × FieldIsPlain c.passphrase
    × FieldIsPlain c.tunnel_pass
    × FieldIsPlain c.tunnel_passphrase

module _ (sv : Services) (law : IsLawful sv) (k : Bytes) where
  decrypt-empty : (u : Store) → (decrypt_secret sv [] u).0 ≡ some []
  unfolding decrypt_secret decrypt_as strip_prefix
  decrypt-empty u = refl

  try_encrypt_cached :
      (v : Str) (s : Store)
      → is_empty v ≡ false
      → is_encrypted v ≡ false
      → s.slot ≡ some k
      → (try_encrypt_secret sv v s).0 ≡ some (prefix_v2 ++ sv.base64 (seal sv k v aad_v2 s).0)
  unfolding try_encrypt_secret seal_secret
  try_encrypt_cached v s filled plain e = rw (filled, plain, dek_cached sv k s e) refl

  decrypt-encrypt_secret :
      (v : Str) (s u : Store)
      → IsPlain v
      → s.slot ≡ some k
      → u.slot ≡ some k
      → (decrypt_secret sv (encrypt_secret sv v s).0 u).0 ≡ some v
  unfolding IsPlain encrypt_secret unwrap_or_default is_empty
  decrypt-encrypt_secret [] s u plain es eu = decrypt-empty u
  decrypt-encrypt_secret (c ∷ v) s u plain es eu =
      let packed = (seal sv k (c ∷ v) aad_v2 s).0 in
      rw (try_encrypt_cached (c ∷ v) s refl plain.3 es) (
        decrypt-open sv law (c ∷ v) k packed u plain.0 plain.1 plain.2 eu
          (unseal-seal sv law k (c ∷ v) aad_v2 s))

  open-sealed :
      (o : Option Str) (s u : Store)
      → FieldIsPlain o
      → s.slot ≡ some k
      → u.slot ≡ some k
      → (map_field (decrypt_secret sv) (map_field (sealed sv) o s).0 u).0 ≡ o
  unfolding FieldIsPlain map_field sealed
  open-sealed none s u plain es eu = refl
  open-sealed (some v) s u plain es eu = rw (decrypt-encrypt_secret v s u plain es eu) refl

  slot-sealed :
      (o : Option Str) (s : Store) → s.slot ≡ some k → (map_field (sealed sv) o s).1.slot ≡ some k
  unfolding map_field sealed
  slot-sealed none s e = e
  slot-sealed (some v) s e = slot-encrypt_secret sv k v s e

  slot-opened :
      (o : Option Str) (s : Store)
      → s.slot ≡ some k
      → (map_field (decrypt_secret sv) o s).1.slot ≡ some k
  unfolding map_field
  slot-opened none s e = e
  slot-opened (some v) s e = slot-decrypt_secret sv k v s e

  -- With an unlocked store, a connection whose secrets are valid UTF-8 without the prefix of a sealed
  -- text is sealed, with saving enabled, and opening it gives the whole connection back.
  pub open-seal_connection :
      (config : AppConfig) (c : FtpConnection) (s : Store)
      → saving_enabled config ≡ true
      → SecretsArePlain c
      → s.slot ≡ some k
      → (open_connection sv (seal_connection sv config c s).0 (seal_connection sv config c s).1).0
        ≡ c
  unfolding SecretsArePlain seal_connection open_connection map_secret_fields
  open-seal_connection config c s saving plain e =
      let f = sealed sv in
      let s1 = (map_field f c.pass s).1 in
      let e1 = slot-sealed c.pass s e in
      let s2 = (map_field f c.passphrase s1).1 in
      let e2 = slot-sealed c.passphrase s1 e1 in
      let s3 = (map_field f c.tunnel_pass s2).1 in
      let e3 = slot-sealed c.tunnel_pass s2 e2 in
      let u = (map_field f c.tunnel_passphrase s3).1 in
      let d = slot-sealed c.tunnel_passphrase s3 e3 in
      let g = decrypt_secret sv in
      let u1 = (map_field g (map_field f c.pass s).0 u).1 in
      let d1 = slot-opened (map_field f c.pass s).0 u d in
      let u2 = (map_field g (map_field f c.passphrase s1).0 u1).1 in
      let d2 = slot-opened (map_field f c.passphrase s1).0 u1 d1 in
      let u3 = (map_field g (map_field f c.tunnel_pass s2).0 u2).1 in
      let d3 = slot-opened (map_field f c.tunnel_pass s2).0 u2 d2 in
      rw
        (
          saving,
          open-sealed c.pass s u plain.0 e d,
          open-sealed c.passphrase s1 u1 plain.1 e1 d1,
          open-sealed c.tunnel_pass s2 u2 plain.2 e2 d2,
          open-sealed c.tunnel_passphrase s3 u3 plain.3 e3 d3,
        )
        refl
