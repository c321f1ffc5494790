-- ===== src/GtkApp/Connections/Forgetting.antt =====
-- Forgetting and upgrading of stored secrets (src/gtk-app/src/secret_store.rs).
use app_full.Base.{Bool, false, List, [], ◌∷◌, All, map, Option, none, some, ◌≡◌, refl, ap}
use app_full.Base.Texts.{Str}
use app_full.SecretStore.Format.{Services}
use app_full.SecretStore.Vault.{Store}
use app_full.SecretStore.Secrets.{is_legacy}
use app_full.GtkApp.Connections.{
  FtpConnection, AppConfig, map_field, or_else, map_secret_fields, for_each, conns_of, save_conns,
  emptied, upgraded, upgrade_legacy_secrets, forget_conns, forget_stored_secrets,
}

-- The connection without its secrets.
erase : FtpConnection → FtpConnection
erase c = record c { pass = none; passphrase = none; tunnel_pass = none; tunnel_passphrase = none }

-- No text, or an empty one.
IsForgotten : Option Str → Type 0
IsForgotten none = Unit
IsForgotten (some v) = v ≡ []

IsSecretFree : FtpConnection → Type 0
IsSecretFree c =
    IsForgotten c.pass
    × IsForgotten c.passphrase
    × IsForgotten c.tunnel_pass
    × IsForgotten c.tunnel_passphrase

erase-for_each :
    {S : Type 0} (f : Str → S → Option Str × S) (cs : List FtpConnection) (s : S)
    → map erase (for_each (map_secret_fields f) cs s).0 ≡ map erase cs
unfolding erase map_secret_fields for_each
erase-for_each f [] s = refl
erase-for_each f (c ∷ cs) s =
    ap (λ r. erase c ∷ r) (erase-for_each f cs (map_secret_fields f c s).1)

emptied-IsForgotten : (o : Option Str) (s : Store) → IsForgotten (map_field emptied o s).0
unfolding IsForgotten map_field
emptied-IsForgotten none s = tt
emptied-IsForgotten (some v) s = refl

emptied-IsSecretFree :
    (c : FtpConnection) (s : Store) → IsSecretFree (map_secret_fields emptied c s).0
unfolding IsSecretFree map_secret_fields
emptied-IsSecretFree c s =
    let s1 = (map_field emptied c.pass s).1 in
    let s2 = (map_field emptied c.passphrase s1).1 in
    let s3 = (map_field emptied c.tunnel_pass s2).1 in
    (
      emptied-IsForgotten c.pass s,
      emptied-IsForgotten c.passphrase s1,
      emptied-IsForgotten c.tunnel_pass s2,
      emptied-IsForgotten c.tunnel_passphrase s3,
    )

all_forgotten :
    (cs : List FtpConnection) (s : Store)
    → All IsSecretFree (for_each (map_secret_fields emptied) cs s).0
unfolding for_each
all_forgotten [] s = tt
all_forgotten (c ∷ cs) s =
    (emptied-IsSecretFree c s, all_forgotten cs (map_secret_fields emptied c s).1)

forgotten :
    (cs : List FtpConnection) (config : AppConfig) (s : Store)
    → conns_of config ≡ cs
    → let t = (forget_conns cs config s).0 in
      All IsSecretFree (conns_of t) × (map erase (conns_of t) ≡ map erase cs)
unfolding forget_conns save_conns conns_of
forgotten [] config s e = rw e (tt, refl)
forgotten (c ∷ cs) config s e = (all_forgotten (c ∷ cs) s, erase-for_each emptied (c ∷ cs) s)

-- After the stored secrets are forgotten, no stored connection has a secret that is not empty, and
-- the list of connections without their secrets is unchanged.
forget_stored_secrets_lem :
    (config : AppConfig) (s : Store)
    → let t = (forget_stored_secrets config s).0 in
      All IsSecretFree (conns_of t) × (map erase (conns_of t) ≡ map erase (conns_of config))
unfolding forget_stored_secrets
forget_stored_secrets_lem config s = forgotten (conns_of config) config s refl

-- Fields that are not legacy.
FieldIsCurrent : Option Str → Type 0
FieldIsCurrent none = Unit
FieldIsCurrent (some v) = is_legacy v ≡ false

IsCurrent : FtpConnection → Type 0
IsCurrent c =
    FieldIsCurrent c.pass
    × FieldIsCurrent c.passphrase
    × FieldIsCurrent c.tunnel_pass
    × FieldIsCurrent c.tunnel_passphrase

module _ (sv : Services) where
  field_current :
      (o : Option Str) (b : Bool) (s : Store)
      → FieldIsCurrent o
      → map_field (upgraded sv) o (b, s) ≡ (o, (b, s))
  unfolding FieldIsCurrent map_field upgraded or_else
  field_current none b s h = refl
  field_current (some v) b s h = rw h refl

  connection_current :
      (c : FtpConnection) (b : Bool) (s : Store)
      → IsCurrent c
      → map_secret_fields (upgraded sv) c (b, s) ≡ (c, (b, s))
  unfolding IsCurrent map_secret_fields
  connection_current c b s h =
      rw
        (
          field_current c.pass b s h.0,
          field_current c.passphrase b s h.1,
          field_current c.tunnel_pass b s h.2,
          field_current c.tunnel_passphrase b s h.3,
        )
        refl

  all_current :
      (cs : List FtpConnection) (b : Bool) (s : Store)
      → All IsCurrent cs
      → for_each (map_secret_fields (upgraded sv)) cs (b, s) ≡ (cs, (b, s))
  unfolding for_each
  all_current [] b s h = refl
  all_current (c ∷ cs) b s h = rw (connection_current c b s h.0, all_current cs b s h.1) refl

  -- If no stored secret is legacy, nothing is changed or written.
  upgrade-current :
      (config : AppConfig) (s : Store)
      → All IsCurrent (conns_of config)
      → upgrade_legacy_secrets sv config s ≡ (config, s)
  unfolding upgrade_legacy_secrets
  upgrade-current config s h = rw (all_current (conns_of config) false s h) refl
