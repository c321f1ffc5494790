-- ===== src/TransferCore/Scan/Places.antt =====
-- Where the items of a scan are read and where they are to arrive (src/transfer-core/src/lib.rs).
use app_full.Base.{
  ◌≡◌, ◌≢◌, refl, ap, ◌∙◌, false, Bool-cases, inl, inr, ◌||◌, [], ◌∷◌, ◌++◌, append_assoc,
}
use app_full.Base.Texts.{Str, ends_with, ends_with-append, ends_with-Lacks, is_empty}
use app_full.FmCore.Path.{slash}
use app_full.FmCore.Path.Joining.{IsComponent}
use app_full.TransferCore.{join_path}

-- The source is the relative path below the folder that is scanned, and the relative path ends in a
-- name.
pub record IsPlaced (src_parent src rel : Str) : Type 0 where
  pub joined : src ≡ join_path src_parent rel
  pub filled : rel ≢ []
  pub open_end : ends_with (slash ∷ []) rel ≡ false

append_filled : (p s : Str) → s ≢ [] → (p ++ s) ≢ []
append_filled [] s h = h
append_filled (c ∷ p) s h = λ e. cc

is_empty_filled : (s : Str) → s ≢ [] → is_empty s ≡ false
unfolding is_empty
is_empty_filled [] h = absurd (h refl)
is_empty_filled (c ∷ s) h = refl

-- A name behind a path that ends in a name stands behind a slash.
join_path_open :
    (p name : Str)
    → p ≢ []
    → ends_with (slash ∷ []) p ≡ false
    → join_path p name ≡ p ++ slash ∷ name
unfolding join_path
join_path_open p name h e = rw (e, is_empty_filled p h) refl

ends_with-join_path :
    (parent rel : Str)
    → rel ≢ []
    → ends_with (slash ∷ []) rel ≡ false
    → ends_with (slash ∷ []) (join_path parent rel) ≡ false
unfolding join_path
ends_with-join_path parent rel h e =
    elim (Bool-cases (ends_with (slash ∷ []) parent || is_empty parent)) [
      | inl b ↦ rw b (ends_with-append slash parent rel h ∙ e)
      | inr b ↦ rw b (
          ends_with-append slash parent (slash ∷ rel) (λ k. cc)
          ∙ ends_with-append slash (slash ∷ []) rel h
          ∙ e)
    ]

join_path_filled : (parent rel : Str) → rel ≢ [] → join_path parent rel ≢ []
unfolding join_path
join_path_filled parent rel h =
    elim (Bool-cases (ends_with (slash ∷ []) parent || is_empty parent)) [
      | inl b ↦ rw b (append_filled parent rel h)
      | inr b ↦ rw b (append_filled parent (slash ∷ rel) (λ k. cc))
    ]

join_path-append :
    (parent rel name : Str)
    → join_path parent rel ++ slash ∷ name ≡ join_path parent (rel ++ slash ∷ name)
unfolding join_path
join_path-append parent rel name =
    elim (Bool-cases (ends_with (slash ∷ []) parent || is_empty parent)) [
      | inl b ↦ rw b (append_assoc parent rel (slash ∷ name))
      | inr b ↦ rw b (append_assoc parent (slash ∷ rel) (slash ∷ name))
    ]

pub IsPlaced-component :
    (parent name : Str) → IsComponent name → IsPlaced parent (join_path parent name) name
IsPlaced-component parent name h = record {
  joined = refl;
  filled = h.filled;
  open_end = ends_with-Lacks slash name h.whole;
}

pub IsPlaced-child :
    (parent src rel name : Str)
    → IsPlaced parent src rel
    → IsComponent name
    → IsPlaced parent (join_path src name) (rel ++ slash ∷ name)
IsPlaced-child parent src rel name at h = record {
  joined =
      ap (λ p. join_path p name) at.joined
      ∙ join_path_open (join_path parent rel) name (join_path_filled parent rel at.filled)
          (ends_with-join_path parent rel at.filled at.open_end)
      ∙ join_path-append parent rel name;
  filled = append_filled rel (slash ∷ name) (λ k. cc);
  open_end =
      ends_with-append slash rel (slash ∷ name) (λ k. cc)
      ∙ ends_with-append slash (slash ∷ []) name h.filled
      ∙ ends_with-Lacks slash name h.whole;
}
