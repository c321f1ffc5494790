-- ===== src/FmCore/Path/Joining.antt =====
-- `join_with` against a description by components (src/ui-common/fm-core/src/path.rs).
use app_full.Base.{
  Bool, true, false, List, [], ◌∷◌, ◌++◌, append-nil, append_assoc, ◌&&◌, ◌≡◌, ◌≢◌, if◌then◌else◌,
  Bool-cases, inl, inr, All, All-append, ◌∙◌,
}
use app_full.Base.Texts.{Str, Lacks, ends_with, ends_with-append, ends_with-Lacks, ends_with_last}
use app_full.FmCore.Path.{slash, backslash, is_drive_segment, push_segment, join_rest, join_with}

-- A name that a listing can show: not empty, and with no slash.
pub record IsComponent (s : Str) : Type 0 where
  pub filled : s ≢ []
  pub whole : Lacks slash s

-- On Windows a name that ends in a backslash takes up the name behind it.
unfoldable pub absorb_from : Bool → Str → List Str → List Str
absorb_from w cur [] = cur ∷ []
absorb_from w cur (s ∷ ss) =
    let merged = absorb_from w (cur ++ s) ss in
    let apart = cur ∷ absorb_from w s ss in
    if w && ends_with (backslash ∷ []) cur then merged else apart

unfoldable pub absorb : Bool → List Str → List Str
unfolding absorb_from
absorb w [] = []
absorb w (s ∷ ss) = absorb_from w s ss

-- Every component behind a slash.
unfoldable pub slashed : List Str → Str
slashed [] = []
slashed (s ∷ ss) = slash ∷ (s ++ slashed ss)

IsComponent-append : (s t : Str) → IsComponent s → IsComponent t → IsComponent (s ++ t)
IsComponent-append [] t hs ht = ht
IsComponent-append (c ∷ s) t hs ht = record {
  filled = λ e. cc;
  whole = All-append _ (c ∷ s) t hs.whole ht.whole;
}

All-IsComponent-absorb_from :
    (w : Bool) (cur : Str) (ss : List Str)
    → IsComponent cur
    → All IsComponent ss
    → All IsComponent (absorb_from w cur ss)
unfolding absorb_from
All-IsComponent-absorb_from w cur [] hc hs = (hc, tt)
All-IsComponent-absorb_from w cur (s ∷ ss) hc (hs, hss) =
    elim (Bool-cases (w && ends_with (backslash ∷ []) cur)) [
      | inl e ↦
          rw e (All-IsComponent-absorb_from w (cur ++ s) ss (IsComponent-append cur s hc hs) hss)
      | inr e ↦ rw e (hc, All-IsComponent-absorb_from w s ss hs hss)
    ]

pub All-IsComponent-absorb :
    (w : Bool) (ss : List Str) → All IsComponent ss → All IsComponent (absorb w ss)
unfolding absorb
All-IsComponent-absorb w [] h = tt
All-IsComponent-absorb w (s ∷ ss) h = All-IsComponent-absorb_from w s ss h.0 h.1

ends_with_behind :
    (b : _) (q cur : Str)
    → cur ≢ []
    → ends_with (b ∷ []) (q ++ slash ∷ cur) ≡ ends_with (b ∷ []) cur
ends_with_behind b q cur h =
    ends_with-append b q (slash ∷ cur) (λ e. cc) ∙ ends_with-append b (slash ∷ []) cur h

push_segment_behind :
    (w : Bool) (q cur s : Str)
    → IsComponent cur
    → push_segment w (q ++ slash ∷ cur) s ≡ (
        if w && ends_with (backslash ∷ []) cur
        then q ++ slash ∷ (cur ++ s)
        else (q ++ slash ∷ cur) ++ slash ∷ s)
unfolding push_segment
push_segment_behind w q cur s h =
    rw
      (
        ends_with_behind slash q cur h.filled,
        ends_with_behind backslash q cur h.filled,
        ends_with-Lacks slash cur h.whole,
      )
      (elim (Bool-cases (w && ends_with (backslash ∷ []) cur)) [
        | inl e ↦ rw e (append_assoc q (slash ∷ cur) s)
        | inr e ↦ rw e (append_assoc (q ++ slash ∷ cur) (slash ∷ []) s)
      ])

join_rest-slashed :
    (w : Bool) (q cur : Str) (ss : List Str)
    → IsComponent cur
    → All IsComponent ss
    → join_rest w (q ++ slash ∷ cur) ss ≡ q ++ slashed (absorb_from w cur ss)
unfolding join_rest slashed absorb_from
join_rest-slashed w q cur [] hc hs = rw append-nil
join_rest-slashed w q cur (s ∷ ss) hc (hs, hss) =
    rw (push_segment_behind w q cur s hc) (elim (Bool-cases (w && ends_with (backslash ∷ []) cur)) [
      | inl e ↦ rw e (join_rest-slashed w q (cur ++ s) ss (IsComponent-append cur s hc hs) hss)
      | inr e ↦ rw e (
          join_rest-slashed w (q ++ slash ∷ cur) s ss hs hss
          ∙ append_assoc q (slash ∷ cur) (slashed (absorb_from w s ss)))
    ])

-- A first segment that is no drive letter stands behind a slash like the others.
pub join_with-slashed :
    (w : Bool) (s : Str) (ss : List Str)
    → (w && is_drive_segment s) ≡ false
    → All IsComponent (s ∷ ss)
    → join_with (s ∷ ss) w ≡ slashed (absorb w (s ∷ ss))
unfolding join_with absorb
join_with-slashed w s ss e (hs, hss) = rw e (join_rest-slashed w [] s ss hs hss)

-- A drive letter that stands alone keeps a slash behind it.
pub join_with_drive_root :
    (w : Bool) (s : Str) → (w && is_drive_segment s) ≡ true → join_with (s ∷ []) w ≡ s ++ slash ∷ []
unfolding join_with
join_with_drive_root w s e = rw e

-- A drive letter that roots the path is followed by the other segments.
pub join_with_drive :
    (w : Bool) (s t : Str) (ts : List Str)
    → (w && is_drive_segment s) ≡ true
    → All IsComponent (t ∷ ts)
    → join_with (s ∷ t ∷ ts) w ≡ s ++ slashed (absorb w (t ∷ ts))
unfolding join_with absorb
join_with_drive w s t ts e (ht, hts) =
    rw (e, ends_with_last slash s, append_assoc s (slash ∷ []) t)
      (join_rest-slashed w s t ts ht hts)
