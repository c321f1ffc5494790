-- ===== src/TransferCore.antt =====
-- Copying and moving between two providers (src/transfer-core/src/lib.rs).
pub mod Engine
pub mod Scan
pub mod LocalScan
pub mod Paths
mod Tests
use app_full.Base.{
  ℕ, zero, suc, ◌+◌, ◌-◌, ◌%◌, ◌^◌, Bool, true, false, ◌||◌, List, [], ◌∷◌, ◌++◌, Option, none,
  some, if◌then◌else◌, ◌==◌, leb, map,
}
use app_full.Base.Texts.{Str, codes, ends_with, is_empty}
use app_full.FmCore.Path.{slash}

pub record TransferItem : Type 0 where
  pub src_path : Str
  pub relative_path : Str
  pub name : Str
  pub is_dir : Bool
  pub size : ℕ
  pub permissions : Option ℕ

pub data CopyMessage : Type 0 where
  file_start : Str → ℕ → CopyMessage
  progress : ℕ → ℕ → CopyMessage
  file_done file_skipped : CopyMessage

pub data ErrorAction : Type 0 where
  retry skip abort : ErrorAction

unfoldable pub join_path : Str → Str → Str
join_path parent child =
    if ends_with (slash ∷ []) parent || is_empty parent
    then parent ++ child
    else parent ++ slash ∷ child

unfoldable pub in_front : ℕ → Option (Str × Str) → Option (Str × Str)
in_front c none = none
in_front c (some (top, rest)) = some (c ∷ top, rest)

-- `str::split_once('/')`
unfoldable pub split_once : Str → Option (Str × Str)
unfolding in_front
split_once [] = none
split_once (c ∷ s) =
    let later = split_once s in if c == slash then some ([], s) else in_front c later

-- The body of the loop of `retarget_top_level`; the `HashMap` is its `get`.
unfoldable pub retarget_split :
    (Str → Option Str) → TransferItem → Option (Str × Str) → TransferItem
retarget_split renames item none = elim (renames item.relative_path) [
  | none ↦ item
  | some new_top ↦ record item { relative_path = new_top; name = new_top }
]
retarget_split renames item (some (top, rest)) = elim (renames top) [
  | none ↦ item
  | some new_top ↦ record item { relative_path = new_top ++ slash ∷ rest }
]

unfoldable pub retarget : (Str → Option Str) → TransferItem → TransferItem
unfolding retarget_split
retarget renames item = retarget_split renames item (split_once item.relative_path)

unfoldable pub retarget_top_level : List TransferItem → (Str → Option Str) → List TransferItem
retarget_top_level items renames = map (retarget renames) items

abbrev pub progress_throttle_ms : ℕ
progress_throttle_ms = 100

-- `ThrottleTimer::ready` at a time: the answer, and the time that the timer keeps.
unfoldable pub ready : ℕ → ℕ → Bool × ℕ
ready last now = if leb progress_throttle_ms (now - last) then (true, now) else (false, last)

-- The calls of a progress callback, each a time and a number of bytes, and those that the timer lets
-- through as messages.
unfoldable pub throttled : ℕ → ℕ → List (ℕ × ℕ) → List CopyMessage
unfolding ready
throttled base last [] = []
throttled base last ((now, bytes) ∷ reports) =
    let (go, kept) = ready last now in
    let rest = throttled base kept reports in
    if go then progress bytes ((base + bytes) % 2 ^ 64) ∷ rest else rest
