-- ===== src/GtkApp/Connections.antt =====
-- The secrets of the saved connections (src/gtk-app/src/secret_store.rs). The configuration is the
-- list that `ui.ftp_connections` holds and the setting `ui.save_passwords`.
pub mod Sealing
pub mod Forgetting
use app_full.Base.{ℕ, suc, Bool, true, false, not, List, [], ◌∷◌, Option, none, some, if◌then◌else◌}
use app_full.Base.Texts.{Str}
use app_full.SecretStore.Format.{Services}
use app_full.SecretStore.Vault.{Store}
use app_full.SecretStore.Secrets.{is_legacy, encrypt_secret, decrypt_secret}

pub record FtpConnection : Type 0 where
  pub name : Str
  pub folder : Option Str
  pub protocol : Str
  pub host : Str
  pub port : ℕ
  pub user : Str
  pub pass : Option Str
  pub auth_type : Option Str
  pub key_path : Option Str
  pub passphrase : Option Str
  pub remote_path : Option Str
  pub use_tunnel : Option Bool
  pub tunnel_host : Option Str
  pub tunnel_port : Option ℕ
  pub tunnel_user : Option Str
  pub tunnel_auth_type : Option Str
  pub tunnel_pass : Option Str
  pub tunnel_key_path : Option Str
  pub tunnel_passphrase : Option Str

pub record AppConfig : Type 0 where
  pub save_passwords : Option Bool
  pub ftp_connections : Option (List FtpConnection)
  pub saves : ℕ

-- `f(v).or_else(|| field.clone())`
unfoldable pub or_else : Option Str → Str → Option Str
or_else none v = some v
or_else (some w) v = some w

-- A closure that changes what it has captured returns the new state.
module _ {S : Type 0} where
  unfoldable pub map_field : (Str → S → Option Str × S) → Option Str → S → Option Str × S
  unfolding or_else
  map_field f none s = (none, s)
  map_field f (some v) s = let (r, t) = f v s in (or_else r v, t)

  unfoldable pub map_secret_fields :
      (Str → S → Option Str × S) → FtpConnection → S → FtpConnection × S
  map_secret_fields f c s =
      let (pass, s1) = map_field f c.pass s in
      let (passphrase, s2) = map_field f c.passphrase s1 in
      let (tunnel_pass, s3) = map_field f c.tunnel_pass s2 in
      let (tunnel_passphrase, s4) = map_field f c.tunnel_passphrase s3 in
      (
        record c {
          pass = pass;
          passphrase = passphrase;
          tunnel_pass = tunnel_pass;
          tunnel_passphrase = tunnel_passphrase;
        },
        s4,
      )

  -- `for c in &mut conns { … }`
  unfoldable pub for_each :
      (FtpConnection → S → FtpConnection × S) → List FtpConnection → S → List FtpConnection × S
  for_each f [] s = ([], s)
  for_each f (c ∷ cs) s = let (d, t) = f c s in let (ds, u) = for_each f cs t in (d ∷ ds, u)

unfoldable pub saving_enabled : AppConfig → Bool
saving_enabled config = elim config.save_passwords [ none ↦ true | some b ↦ b ]

unfoldable pub conns_of : AppConfig → List FtpConnection
conns_of config = elim config.ftp_connections [ none ↦ [] | some cs ↦ cs ]

-- The connections are set and the configuration is written.
unfoldable pub save_conns : List FtpConnection → AppConfig → AppConfig
save_conns cs config = record config { ftp_connections = some cs; saves = suc config.saves }

abbrev pub emptied : Str → Store → Option Str × Store
emptied v s = (some [], s)

module _ (sv : Services) where
  unfoldable pub sealed : Str → Store → Option Str × Store
  sealed v s = let (t, u) = encrypt_secret sv v s in (some t, u)

  unfoldable pub seal_connection : AppConfig → FtpConnection → Store → FtpConnection × Store
  unfolding saving_enabled map_secret_fields sealed
  seal_connection config c s =
      if saving_enabled config then map_secret_fields sealed c s else map_secret_fields emptied c s

  unfoldable pub open_connection : FtpConnection → Store → FtpConnection × Store
  unfolding map_secret_fields
  open_connection = map_secret_fields (decrypt_secret sv)

  -- `decrypt_secret(v).map(|plain| encrypt_secret(&plain))`
  unfoldable pub sealed_again : Option Str → Store → Option Str × Store
  unfolding sealed
  sealed_again none s = (none, s)
  sealed_again (some plain) s = sealed plain s

  -- The state is `changed` and the store.
  unfoldable pub upgraded : Str → Bool × Store → Option Str × (Bool × Store)
  unfolding is_legacy sealed_again
  upgraded v (changed, s) =
      if not (is_legacy v)
      then (some v, (changed, s))
      else let (o, t) = decrypt_secret sv v s in let (r, u) = sealed_again o t in (r, (true, u))

  unfoldable pub upgrade_legacy_secrets : AppConfig → Store → AppConfig × Store
  unfolding conns_of for_each map_secret_fields upgraded save_conns
  upgrade_legacy_secrets config s =
      let (cs, r) = for_each (map_secret_fields upgraded) (conns_of config) (false, s) in
      (if r.0 then save_conns cs config else config, r.1)

-- Nothing is written if there is no connection.
unfoldable pub forget_conns : List FtpConnection → AppConfig → Store → AppConfig × Store
unfolding for_each map_secret_fields save_conns
forget_conns [] config s = (config, s)
forget_conns (c ∷ cs) config s =
    let (ds, t) = for_each (map_secret_fields emptied) (c ∷ cs) s in (save_conns ds config, t)

unfoldable pub forget_stored_secrets : AppConfig → Store → AppConfig × Store
unfolding conns_of forget_conns
forget_stored_secrets config s = forget_conns (conns_of config) config s
