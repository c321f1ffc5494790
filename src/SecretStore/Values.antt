-- ===== src/SecretStore/Values.antt =====
-- The values of `serde_json` that the keyring and the exports are built of.
use app_full.Base.{ℕ, Bool, Option, none, some, if◌then◌else◌}
use app_full.Base.Texts.{Str, str_eq}

mutual
  pub data Json : Type 0 where
    null : Json
    boolean : Bool → Json
    number : ℕ → Json
    text : Str → Json
    array : Items → Json
    object : Fields → Json

  pub data Items : Type 0 where
    no_items : Items
    item : Json → Items → Items

  pub data Fields : Type 0 where
    no_fields : Fields
    field : Str → Json → Fields → Fields

unfoldable pub find : Str → Fields → Option Json
unfolding str_eq
find key no_fields = none
find key (field k v fs) = let rest = find key fs in if str_eq k key then some v else rest

-- `value.get(key)`, none if the value is no object.
unfoldable pub get : Str → Json → Option Json
unfolding find
get key (object fs) = find key fs
get key v = none

unfoldable pub as_u64 : Json → Option ℕ
as_u64 (number n) = some n
as_u64 v = none

unfoldable pub as_str : Json → Option Str
as_str (text t) = some t
as_str v = none

unfoldable pub as_bool : Json → Option Bool
as_bool (boolean b) = some b
as_bool v = none

module _ {A B : Type 0} where
  infixl 10 ◌>>=◌
  abbrev pub ◌>>=◌ : Option A → (A → Option B) → Option B
  none >>= f = none
  some a >>= f = f a

module _ {A B : Type 0} where
  abbrev pub bind_option : Option A → (A → Option B) → Option B
  bind_option o f = o >>= f
