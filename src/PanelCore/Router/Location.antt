-- ===== src/PanelCore/Router/Location.antt =====
-- Where the levels of a panel are, whatever was listed in them (src/panel-core/src/state.rs).
use app_full.Base.{◌≡◌, refl, ap, ◌∙◌, Bool, List, [], ◌∷◌, ◌++◌, some, Bool-cases, inl, inr}
use app_full.Base.Texts.{Str}
use app_full.Base.Keeps.{Keeps, keeps_rules}
use app_full.PanelCore.Nav.{Fs, RemoteFileEntry, PathLevel, update_active, last_level, update_last}
use app_full.PanelCore.Router.{
  Backend, RouterState, list_dir, list_active, store_entries, notify_changed,
  record_history_snapshot,
}

-- The name, the relative path and the provider of a level.
pub record Place : Type 0 where
  pub name : Str
  pub relative_path : Str
  pub fs : Fs

abbrev pub place : PathLevel → Place
place l = record { name = l.name; relative_path = l.relative_path; fs = l.fs }

abbrev pub places : List PathLevel → List Place
places [] = []
places (l ∷ ls) = place l ∷ places ls

pub places-append : (ls ms : List PathLevel) → places (ls ++ ms) ≡ places ls ++ places ms
places-append [] ms = refl
places-append (l ∷ ls) ms = ap (λ r. place l ∷ r) (places-append ls ms)

pub places-update_last :
    (f : PathLevel → PathLevel) (ls : List PathLevel)
    → ((l : PathLevel) → place (f l) ≡ place l)
    → places (update_last f ls) ≡ places ls
unfolding update_last
places-update_last f [] h = refl
places-update_last f (l ∷ []) h = ap (λ r. r ∷ []) (h l)
places-update_last f (l ∷ m ∷ ls) h = ap (λ r. place l ∷ r) (places-update_last f (m ∷ ls) h)

pub last_level-update_last :
    (f : PathLevel → PathLevel) (ls : List PathLevel) (l : PathLevel)
    → last_level ls ≡ some l
    → last_level (update_last f ls) ≡ some (f l)
unfolding update_last last_level
last_level-update_last f [] l h = cc
last_level-update_last f (k ∷ []) l h = cc
last_level-update_last f (k ∷ m ∷ []) l h = cc
last_level-update_last f (k ∷ m ∷ n ∷ ls) l h = last_level-update_last f (m ∷ n ∷ ls) l h

pub last_level-append : (ls : List PathLevel) (l : PathLevel) → last_level (ls ++ l ∷ []) ≡ some l
unfolding last_level
last_level-append [] l = refl
last_level-append (k ∷ []) l = refl
last_level-append (k ∷ m ∷ ls) l = last_level-append (m ∷ ls) l

-- Levels at the same places have their last levels at the same place.
pub last_level-places :
    (ls ms : List PathLevel) (m : PathLevel)
    → places ls ≡ places ms
    → last_level ms ≡ some m
    → (l : PathLevel) × (last_level ls ≡ some l) × (place l ≡ place m)
unfolding last_level
last_level-places [] [] m e h = cc
last_level-places [] (x ∷ ms) m e h = cc
last_level-places (l ∷ ls) [] m e h = cc
last_level-places (l ∷ []) (x ∷ []) m e h = (l, refl, cc)
last_level-places (l ∷ []) (x ∷ y ∷ ms) m e h = cc
last_level-places (l ∷ k ∷ ls) (x ∷ []) m e h = cc
last_level-places (l ∷ k ∷ ls) (x ∷ y ∷ ms) m e h = last_level-places (k ∷ ls) (y ∷ ms) m (cc) h

abbrev pub IsAt : List Place → RouterState → Type 0
IsAt ps s = places s.path.levels ≡ ps

module _ (windows : Bool) (backend : Backend) (ps : List Place) where
  list_dir-IsAt : (fs : Fs) (rel : Str) → Keeps (IsAt ps) (list_dir windows backend fs rel)
  unfolding list_dir
  list_dir-IsAt fs rel = record { at = λ s h. h }

  store_entries-IsAt :
      (entries : List RemoteFileEntry) (s : RouterState)
      → IsAt ps s
      → IsAt ps (store_entries windows backend entries s)
  unfolding store_entries update_active
  store_entries-IsAt entries s h = places-update_last _ s.path.levels (λ l. refl) ∙ h

  pub notify_changed-IsAt :
      (s : RouterState) → IsAt ps s → IsAt ps (notify_changed windows backend s)
  unfolding notify_changed
  notify_changed-IsAt s h = elim (Bool-cases s.on_changed) [ inl e ↦ rw e h | inr e ↦ rw e h ]

  pub record_history_snapshot-IsAt :
      (s : RouterState) → IsAt ps s → IsAt ps (record_history_snapshot windows backend s)
  unfolding record_history_snapshot
  record_history_snapshot-IsAt s h = h

  -- A listing moves no level, however it ends.
  pub list_active-IsAt : Keeps (IsAt ps) (list_active windows backend)
  unfolding list_active
  list_active-IsAt =
      search (keeps_rules, list_dir-IsAt, store_entries-IsAt, notify_changed-IsAt) depth 12
