-- ===== src/TransferCore/Scan/Tests.antt =====
-- A scan at a concrete provider.
use app_full.Base.{ℕ, ◌<◌, ◌≡◌, ◌≢◌, subst, true, false, List, [], ◌∷◌, none, All, arith}
use app_full.Base.Texts.{Str, codes}
use app_full.Base.Outcome.{ok}
use app_full.Base.Gives.{ok_injective}
use app_full.FmCore.Path.Joining.{IsComponent}
use app_full.PanelCore.Nav.{RemoteFileEntry}
use app_full.TransferCore.Scan.{Provider, Selected, nothing_scanned, scan_items}
use app_full.TransferCore.Scan.Placed.{IsItemPlaced, items-scan_items}
use app_full.TransferCore.Scan.Fuel.{entries_weight, selected_weight, scan_items-ends}

abbrev entry : RemoteFileEntry
entry = record {
  name = codes "b";
  is_dir = false;
  size = 4;
  modified = 0;
  permissions = none;
  extra = [];
}

-- Every directory holds one file.
abbrev provider : Provider
provider = record {
  is_cancelled = λ n. false;
  clock = λ n. n;
  list_dir = λ n path. ok (entry ∷ []);
}

abbrev selected : List Selected
selected = record { name = codes "a"; is_dir = true; size = 0; permissions = none } ∷ []

a_fits : IsComponent (codes "a")
a_fits = record { filled = λ e. cc; whole = (omega arith, tt) }

b_fits : IsComponent (codes "b")
b_fits = record { filled = λ e. cc; whole = (omega arith, tt) }

names_fit :
    (n : ℕ) (path : Str) (entries : List RemoteFileEntry)
    → provider.list_dir n path ≡ ok entries
    → All (λ (entry : RemoteFileEntry). IsComponent entry.name) entries
names_fit n path entries e =
    subst (λ es. All (λ (entry : RemoteFileEntry). IsComponent entry.name) es) (ok_injective e)
      (b_fits, tt)

items-scan_items_example :
    All
      (IsItemPlaced (codes "/src"))
      (scan_items provider (codes "/src") 2 selected nothing_scanned).1.items
items-scan_items_example =
    items-scan_items (codes "/src") provider names_fit 2 selected (a_fits, tt)

abbrev one : Str → ℕ
one path = 1

finite :
    (n : ℕ) (path : Str) (entries : List RemoteFileEntry)
    → provider.list_dir n path ≡ ok entries
    → entries_weight provider (codes "/src") one path entries < one path
unfolding entries_weight
finite n path entries e =
    subst (λ es. entries_weight provider (codes "/src") one path es < 1) (ok_injective e)
      (omega arith)

enough : selected_weight provider (codes "/src") one selected < 2
unfolding selected_weight
enough = omega arith

scan_items-ends_example :
    (scan_items provider (codes "/src") 2 selected nothing_scanned).0 ≢ ok false
scan_items-ends_example = scan_items-ends provider (codes "/src") one finite 2 selected enough
