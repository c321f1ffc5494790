-- ===== src/FmUi/Tests.antt =====
-- The name of a duplicate at concrete entries.
use app_full.Base.{◌<◌, ◌≡◌, false, List, [], ◌∷◌, arith, length}
use app_full.Base.Texts.{Str, codes, contains}
use app_full.FmCore.Names.{range_size}
use app_full.FmUi.ContextMenu.{unique_copy_name, contains-unique_copy_name}

abbrev existing : List Str
existing = codes "a.txt" ∷ codes "a copy.txt" ∷ []

two_taken : length existing < range_size
unfolding range_size
two_taken = omega arith

contains-unique_copy_name_example :
    contains existing (unique_copy_name (codes "a.txt") false existing) ≡ false
contains-unique_copy_name_example =
    contains-unique_copy_name (codes "a.txt") false existing two_taken
