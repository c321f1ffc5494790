-- ===== src/SecretStore/Secrets.antt =====
-- Sealing and opening of secrets (src/secret-store/src/lib.rs).
use app_full.Base.{Bool, ◌||◌, ◌++◌, Option, none, some, if◌then◌else◌}
use app_full.Base.Texts.{Str, codes, str_eq, is_empty, starts_with, strip_prefix}
use app_full.Base.Utf8.{encode, decode}
use app_full.SecretStore.Values.{bind_option}
use app_full.SecretStore.Format.{Bytes, Services, hkdf_context, aad_v2, unwrap_or_default, unseal}
use app_full.SecretStore.Vault.{Op, ◌>>=◌, when_some, pure, machine_key, seal, dek}

abbrev pub prefix_v1 : Str
prefix_v1 = codes "icv1:"

abbrev pub prefix_v2 : Str
prefix_v2 = codes "icv2:"

-- `String::from_utf8`: the bytes of a text are what it is written as.
unfoldable pub from_utf8 : Bytes → Option Str
unfolding str_eq
from_utf8 bytes = if str_eq (encode (decode bytes)) bytes then some bytes else none

unfoldable pub is_encrypted : Str → Bool
unfolding starts_with
is_encrypted s = starts_with prefix_v2 s || starts_with prefix_v1 s

unfoldable pub is_legacy : Str → Bool
unfolding starts_with
is_legacy s = starts_with prefix_v1 s

module _ (sv : Services) where
  unfoldable pub seal_secret : Str → Option Bytes → Op (Option Str)
  seal_secret plain none = pure none
  seal_secret plain (some key) =
      seal sv key plain aad_v2 >>= λ packed. pure (some (prefix_v2 ++ sv.base64 packed))

  unfoldable pub try_encrypt_secret : Str → Op (Option Str)
  unfolding is_empty is_encrypted seal_secret
  try_encrypt_secret plain =
      if is_empty plain || is_encrypted plain
      then pure (some plain)
      else dek sv >>= seal_secret plain

  unfoldable pub encrypt_secret : Str → Op Str
  unfolding try_encrypt_secret unwrap_or_default
  encrypt_secret plain = try_encrypt_secret plain >>= λ r. pure (unwrap_or_default r)

  unfoldable pub open_secret : Bytes → Option Bytes → Op (Option Str)
  open_secret packed none = pure none
  open_secret packed (some key) = pure (bind_option (unseal sv key packed aad_v2) from_utf8)

  unfoldable pub open_legacy : Bytes → Op (Option Str)
  open_legacy packed =
      machine_key sv >>= λ key. pure (bind_option (unseal sv key packed hkdf_context) from_utf8)

  unfoldable pub decrypt_as : Str → Option Str → Option Str → Op (Option Str)
  unfolding open_secret open_legacy
  decrypt_as stored (some enc) legacy =
      when_some (sv.unbase64 enc) (λ packed. dek sv >>= open_secret packed)
  decrypt_as stored none (some enc) = when_some (sv.unbase64 enc) open_legacy
  decrypt_as stored none none = pure (some stored)

  unfoldable pub decrypt_secret : Str → Op (Option Str)
  unfolding decrypt_as
  decrypt_secret stored =
      decrypt_as stored (strip_prefix prefix_v2 stored) (strip_prefix prefix_v1 stored)
