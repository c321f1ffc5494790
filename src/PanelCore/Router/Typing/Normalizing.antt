-- ===== src/PanelCore/Router/Typing/Normalizing.antt =====
-- The segments of a typed path once dots are taken out (src/panel-core/src/state.rs).
use app_full.Base.{
  ◌≡◌, refl, sym, ◌∙◌, Bool, true, false, Bool-cases, inl, inr, ◌&&◌, List, [], ◌∷◌, ◌++◌,
  append-nil, append_assoc, All, All-append, map, arith,
}
use app_full.Base.Texts.{Str, codes, str_eq}
use app_full.FmCore.Path.{is_drive_segment}
use app_full.PanelCore.{PathSegment}
use app_full.PanelCore.Router.Typing.{
  upper, drop_last, no_segments, write_drive, normalize_one, normalize_loop,
  normalize_typed_segments,
}

-- A segment that is neither the directory itself nor its parent.
abbrev pub IsPlain : PathSegment → Type 0
IsPlain s = (str_eq s.name (codes ".") ≡ false) × (str_eq s.name (codes "..") ≡ false)

All-drop_last : (ss : List PathSegment) → All IsPlain ss → All IsPlain (drop_last ss)
unfolding drop_last
All-drop_last [] h = tt
All-drop_last (s ∷ []) h = tt
All-drop_last (s ∷ t ∷ ss) h = (h.0, All-drop_last (t ∷ ss) h.1)

upper_drive :
    (name : Str)
    → is_drive_segment name ≡ true
    → (str_eq (map upper name) (codes ".") ≡ false) × (str_eq (map upper name) (codes "..") ≡ false)
unfolding is_drive_segment upper str_eq
upper_drive [] h = absurd (cc)
upper_drive (c ∷ []) h = absurd (cc)
upper_drive (c ∷ d ∷ []) h = (ground arith, ground arith)
upper_drive (c ∷ d ∷ e ∷ s) h = absurd (cc)

last_true : (a b c : Bool) → (a && b && c) ≡ true → c ≡ true
last_true a b true h = refl
last_true true true false h = h
last_true true false false h = h
last_true false b false h = h

write_drive-IsPlain :
    (windows : Bool) (out : List PathSegment) (s : PathSegment)
    → IsPlain s
    → IsPlain (write_drive windows out s)
unfolding write_drive
write_drive-IsPlain windows out s h =
    elim (Bool-cases (windows && no_segments out && is_drive_segment s.name)) [
      | inl e ↦ rw e (upper_drive s.name (last_true windows (no_segments out) _ e))
      | inr e ↦ rw e h
    ]

normalize_one-IsPlain :
    (windows : Bool) (out : List PathSegment) (s : PathSegment)
    → All IsPlain out
    → All IsPlain (normalize_one windows out s)
unfolding normalize_one
normalize_one-IsPlain windows out s h = elim (Bool-cases (str_eq s.name (codes "."))) [
  | inl e ↦ rw e h
  | inr e ↦ elim (Bool-cases (str_eq s.name (codes ".."))) [
    | inl f ↦ rw (e, f) (All-drop_last out h)
    | inr f ↦ rw (e, f) (All-append IsPlain out _ h (write_drive-IsPlain windows out s (e, f), tt))
  ]
]

normalize_loop-IsPlain :
    (windows : Bool) (out segs : List PathSegment)
    → All IsPlain out
    → All IsPlain (normalize_loop windows out segs)
unfolding normalize_loop
normalize_loop-IsPlain windows out [] h = h
normalize_loop-IsPlain windows out (s ∷ ss) h =
    normalize_loop-IsPlain windows (normalize_one windows out s) ss
      (normalize_one-IsPlain windows out s h)

normalize_loop_plain :
    (out segs : List PathSegment) → All IsPlain segs → normalize_loop false out segs ≡ out ++ segs
unfolding normalize_loop normalize_one write_drive
normalize_loop_plain out [] h = sym (append-nil out)
normalize_loop_plain out (s ∷ ss) h =
    rw (h.0.0, h.0.1) (normalize_loop_plain (out ++ s ∷ []) ss h.1 ∙ append_assoc out (s ∷ []) ss)

-- No segment of a normalized path is a dot or two dots, on both platforms, and off Windows
-- normalizing it once more changes nothing.
pub normalize_typed_segments-IsPlain :
    (windows : Bool) (segs : List PathSegment)
    → All IsPlain (normalize_typed_segments windows segs)
      × (normalize_typed_segments false (normalize_typed_segments false segs)
          ≡ normalize_typed_segments false segs)
unfolding normalize_typed_segments
normalize_typed_segments-IsPlain windows segs = (
  normalize_loop-IsPlain windows [] segs tt,
  normalize_loop_plain [] _ (normalize_loop-IsPlain false [] segs tt),
)
