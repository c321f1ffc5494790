-- ===== src/FmCore/Tests.antt =====
-- The theorems about fm_core at concrete inputs, and runs of its functions.
use app_full.Base.{
  ℕ, ◌<◌, ◌≡◌, ◌≢◌, ◌⊎◌, refl, true, false, List, [], ◌∷◌, ◌++◌, none, some, arith, length, All,
  ◌↔◌,
}
use app_full.Base.Texts.{Str, codes, ends_with}
use app_full.Base.Decimal.{decimal, decimal_injective}
use app_full.FmCore.Path.{join_with, split_joined}
use app_full.FmCore.Path.Joining.{IsComponent, absorb}
use app_full.FmCore.Path.RoundTrip.{split_joined-join_with}
use app_full.FmCore.Path.Stable.{join_with-split_joined}
use app_full.FmCore.Names.{split_stem_ext, range_size, first_free}
use app_full.FmCore.Names.Free.{IsDistinct, numbered, IsFirstFree, first_free-IsFirstFree}
use app_full.FmCore.Names.Stem.{IsSplit, split_stem_ext-IsSplit}
use app_full.FmCore.Clipboard
use app_full.FmCore.Clipboard.{Clip, ClipItem, Clipboard, cut}
use app_full.FmCore.Clipboard.Sync.{
  summary, last_call, Reach, here, next, take, connect, last_call-summary,
}
use app_full.FmCore.Clipboard.Reachable.{IsReachable, slot-drop_if_unreachable}

component : (c : ℕ) (s : Str) → All (λ d. d ≢ b'/') (c ∷ s) → IsComponent (c ∷ s)
component c s h = record { filled = λ e. cc; whole = h }

abbrev drive_names : List Str
drive_names = codes "C:" ∷ codes "dir\\" ∷ codes "x" ∷ []

drive_names_clean : All IsComponent drive_names
drive_names_clean = (
  component b'C' (codes ":") (omega arith, (omega arith, tt)),
  (
    component b'd' (codes "ir\\") (omega arith, (omega arith, (omega arith, (omega arith, tt)))),
    (component b'x' [] (omega arith, tt), tt),
  ),
)

split_joined-join_with_example : split_joined (join_with drive_names true) ≡ absorb true drive_names
split_joined-join_with_example = split_joined-join_with drive_names true drive_names_clean

join_with-split_joined_example :
    join_with (split_joined (join_with drive_names true) ++ codes "y" ∷ []) true
    ≡ join_with (drive_names ++ codes "y" ∷ []) true
join_with-split_joined_example =
    join_with-split_joined drive_names (codes "y" ∷ []) true drive_names_clean
      (component b'y' [] (omega arith, tt), tt)

test_absorb : absorb true drive_names ≡ codes "C:" ∷ codes "dir\\x" ∷ []
unfolding absorb ends_with
test_absorb = refl

-- A name with only the number in it.
abbrev plain_name : Str → Str → ℕ → Str
plain_name stem ext n = decimal n

plain_name-IsDistinct : IsDistinct (numbered (codes "a.txt") false plain_name)
plain_name-IsDistinct m n p q e = decimal_injective m n p q e

one_taken : length (codes "1" ∷ []) < range_size
unfolding range_size
one_taken = omega arith

first_free-IsFirstFree_example :
    (m : ℕ) × (first_free (codes "a.txt") false (codes "1" ∷ []) plain_name
      ≡ numbered (codes "a.txt") false plain_name m)
    × IsFirstFree (numbered (codes "a.txt") false plain_name) (codes "1" ∷ []) 1 m
first_free-IsFirstFree_example =
    first_free-IsFirstFree (codes "a.txt") false (codes "1" ∷ []) plain_name plain_name-IsDistinct
      one_taken

split_stem_ext-IsSplit_example :
    IsSplit (codes "app.tar.gz") false (split_stem_ext (codes "app.tar.gz") false)
split_stem_ext-IsSplit_example = split_stem_ext-IsSplit (codes "app.tar.gz") false

abbrev one_file : Clip
one_file = record {
  kind = cut;
  side = codes "left";
  source_path = codes "/tmp";
  items = record { name = codes "a"; is_dir = false; size = 1; permissions = none } ∷ [];
  source = 3;
  anchor = 7;
  rebuildable = false;
  refresh_source = none;
}

abbrev watched : Clipboard
watched = Clipboard.connect_changed 5 Clipboard.new

abbrev filled : Clipboard
filled = Clipboard.set one_file watched

filled_reached : Reach Clipboard.new filled
filled_reached = next (next here (connect 5 Clipboard.new)) (take one_file watched)

last_call-summary_example :
    (last_call 5 filled.calls ≡ none) ⊎ (last_call 5 filled.calls ≡ some (summary filled.slot))
last_call-summary_example = last_call-summary filled_reached 5

slot-drop_if_unreachable_example :
    ((Clipboard.drop_if_unreachable (λ l. true) [] filled).slot ≡ some one_file)
    ↔ ((filled.slot ≡ some one_file) × IsReachable (λ l. true) [] one_file)
slot-drop_if_unreachable_example = slot-drop_if_unreachable (λ l. true) [] filled one_file
