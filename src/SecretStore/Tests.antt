-- ===== src/SecretStore/Tests.antt =====
-- The store of secrets with services that can be run.
use app_full.Base.{◌++◌, none, some, ◌≡◌, refl}
use app_full.Base.Texts.{Str, codes, is_empty}
use app_full.SecretStore.Values.{find}
use app_full.SecretStore.Format.{Bytes, done, panicked, password, parse_keyring, protection_name}
use app_full.SecretStore.Vault.{
  Store, read_keyring, dek, lock, set_master_password, unlock_with_password, set_slot,
}
use app_full.SecretStore.Secrets.{try_encrypt_secret, encrypt_secret, decrypt_secret, prefix_v2}
use app_full.SecretStore.Keys.{SlotIsValid}
use app_full.SecretStore.Uses.{
  Uses, unused, encrypts, changes_password, decrypt-Uses, decrypt-relocked,
}
use app_full.SecretStore.Unlocking.{UnlockOutcome, unlock_with_password_lem}
use app_full.SecretStore.Restart.{dek-restarted}
use app_full.SecretStore.Exports.{
  sealed_json, wrap_export, unwrap_export, imported, unwrap-wrap_export,
}
use app_full.SecretStore.Sample.{
  replicate, services, services-IsLawful, fresh, word, from_sealed, from_ring, to_text, from_text,
  text_at, from_text-to_text, word-IsScalar, word-encode, word_plain, filled,
}

fresh_valid : SlotIsValid fresh.slot
unfolding SlotIsValid
fresh_valid = tt

-- The salt is draw 1, the data key draw 2; draw 3 is the nonce that the key is sealed with.
first_key : (dek services fresh).0 ≡ some (replicate 32 2)
unfolding dek replicate
first_key = refl

abbrev sealed_word : Str
sealed_word = prefix_v2 ++ (replicate 24 4 ++ (replicate 32 2 ++ word))

seals_word : (try_encrypt_secret services word fresh).0 ≡ some sealed_word
unfolding try_encrypt_secret replicate dek
seals_word = refl

-- The store behind the first seal, and with a master password behind a second one.
abbrev sealed_store : Store
sealed_store = (try_encrypt_secret services word fresh).1

abbrev other_store : Store
other_store = (encrypt_secret services (codes "other") sealed_store).1

abbrev changed_store : Store
changed_store = (set_master_password services (some word) other_store).1

sets_password : (set_master_password services (some word) sealed_store).0 ≡ done
unfolding set_master_password try_encrypt_secret replicate
sets_password = refl

used : Uses services sealed_store changed_store
used = changes_password other_store (some word) (encrypts sealed_store (codes "other") unused)

decrypt-Uses_example : (decrypt_secret services sealed_word changed_store).0 ≡ some word
decrypt-Uses_example =
    decrypt-Uses services services-IsLawful word sealed_word word fresh changed_store fresh_valid
      filled word_plain word-IsScalar word-encode seals_word used

decrypt-relocked_example :
    let t = (set_master_password services (some word) sealed_store).1 in
    let u = unlock_with_password services word (lock services t).1 in
    (u.0 ≡ done) × ((decrypt_secret services sealed_word u.1).0 ≡ some word)
decrypt-relocked_example =
    decrypt-relocked services services-IsLawful word sealed_word word word fresh fresh_valid filled
      word_plain word-IsScalar word-encode seals_word filled sets_password

-- The files are kept, and the slot is empty again.
abbrev restarted : Store
restarted = set_slot none (dek services fresh).1

dek-restarted_example : (dek services restarted).0 ≡ some (replicate 32 2)
dek-restarted_example =
    dek-restarted services services-IsLawful (replicate 32 2) fresh restarted (λ i b. refl) refl
      refl refl refl first_key

unlock_with_password_lem_example :
    UnlockOutcome services
      (read_keyring services changed_store)
      changed_store
      (unlock_with_password services (codes "no") changed_store)
unlock_with_password_lem_example =
    unlock_with_password_lem services services-IsLawful (codes "no") changed_store

reads_exports :
    (salt nonce ct : Bytes)
    → services.from_str (services.to_string_pretty (sealed_json services salt nonce ct))
      ≡ some (sealed_json services salt nonce ct)
unfolding sealed_json from_sealed
reads_exports salt nonce ct = from_text-to_text salt nonce ct

unwrap-wrap_export_example :
    (doc : Str) × (wrap_export services word 1 (some word) ≡ some doc)
    × (unwrap_export services doc (some word) ≡ imported word)
unwrap-wrap_export_example =
    unwrap-wrap_export services services-IsLawful word word word 1 reads_exports filled
      word-IsScalar word-encode

-- A keyring with a salt of two bytes.
test_short_salt :
    (unlock_with_password services word
      (record fresh { keyring_file = some (to_text (from_ring password (replicate 2 1) word)) })).0
    ≡ panicked
unfolding unlock_with_password from_ring to_text text_at find is_empty protection_name replicate
    parse_keyring from_text
test_short_salt = refl
