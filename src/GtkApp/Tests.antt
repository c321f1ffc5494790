-- ===== src/GtkApp/Tests.antt =====
-- The plan of a paste at concrete items, and a saved connection.
use app_full.Base.{◌≤◌, ◌+◌, ◌≡◌, refl, true, some, false, List, [], ◌∷◌, none, arith, length, All}
use app_full.Base.Texts.{Str, codes, contains}
use app_full.FmCore.Names.{range_size}
use app_full.FmCore.Clipboard.{ClipItem}
use app_full.GtkApp.ClipboardOps.{plan_names}
use app_full.GtkApp.ClipboardOps.Plan.{HasEntry, AllValues, Distinct, plan_names_lem}
use app_full.SecretStore.Vault.{Store}
use app_full.SecretStore.Sample.{
  replicate, services, services-IsLawful, fresh, word, word-IsScalar, word-encode, word_plain,
}
use app_full.GtkApp.Connections.{
  FtpConnection, AppConfig, saving_enabled, seal_connection, open_connection,
}
use app_full.GtkApp.Connections.Sealing.{
  FieldIsPlain, IsPlain, SecretsArePlain, open-seal_connection,
}

abbrev item : Str → ClipItem
item name = record { name = name; is_dir = false; size = 1; permissions = none }

abbrev items : List ClipItem
items = item (codes "a") ∷ item (codes "b") ∷ []

abbrev taken : List Str
taken = codes "a" ∷ codes "b (1)" ∷ []

room : length taken + length items ≤ range_size
unfolding range_size
room = omega arith

plan_names_lem_example :
    All (λ (it : ClipItem). HasEntry (plan_names items taken) it.name) items
    × AllValues (λ v. contains taken v ≡ false) (plan_names items taken)
    × Distinct (plan_names items taken)
plan_names_lem_example = plan_names_lem items taken room

abbrev connection : FtpConnection
connection = record {
  name = codes "t";
  folder = none;
  protocol = codes "ftp";
  host = codes "h";
  port = 21;
  user = codes "u";
  pass = some word;
  auth_type = none;
  key_path = none;
  passphrase = none;
  remote_path = none;
  use_tunnel = none;
  tunnel_host = none;
  tunnel_port = none;
  tunnel_user = none;
  tunnel_auth_type = none;
  tunnel_pass = some word;
  tunnel_key_path = none;
  tunnel_passphrase = none;
}

abbrev config : AppConfig
config = record { save_passwords = some true; ftp_connections = some (connection ∷ []); saves = 0 }

abbrev unlocked : Store
unlocked = record fresh { slot = some (replicate 32 5) }

secrets_plain : SecretsArePlain connection
unfolding SecretsArePlain FieldIsPlain IsPlain
secrets_plain = (
  (word, word-IsScalar, word-encode, word_plain),
  tt,
  (word, word-IsScalar, word-encode, word_plain),
  tt,
)

saves_secrets : saving_enabled config ≡ true
unfolding saving_enabled
saves_secrets = refl

open-seal_connection_example :
    (open_connection services
      (seal_connection services config connection unlocked).0
      (seal_connection services config connection unlocked).1).0
    ≡ connection
open-seal_connection_example =
    open-seal_connection services services-IsLawful (replicate 32 5) config connection unlocked
      saves_secrets secrets_plain refl
