-- ===== src/PanelRouter/Resolving.antt =====
-- A selected entry is resolved to its path in the provider (src/panel-router/src/router.rs).
use app_full.Base.{
  false, List, [], ◌∷◌, ◌++◌, All, All-append, ◌≡◌, refl, sym, ap, ◌∙◌, append-nil, append_assoc,
}
use app_full.Base.Texts.{Str, strip_prefix, strip_prefix-append}
use app_full.FmCore.Path.{slash, join_with, split_joined}
use app_full.FmCore.Path.Joining.{IsComponent, slashed, join_with-slashed}
use app_full.FmCore.Path.RoundTrip.{split_joined_component, split_joined-join_with, absorb_unix}
use app_full.PanelCore.{join_segment_names}
use app_full.PanelRouter.{unwrap_or, join_display, resolve}

split_joined_unix :
    (parts : List Str) → All IsComponent parts → split_joined (join_with parts false) ≡ parts
split_joined_unix parts h = split_joined-join_with parts false h ∙ absorb_unix parts

join_with_unix :
    (s : Str) (ss : List Str)
    → All IsComponent (s ∷ ss)
    → join_with (s ∷ ss) false ≡ slashed (s ∷ ss)
join_with_unix s ss h = join_with-slashed false s ss refl h ∙ ap slashed (absorb_unix (s ∷ ss))

slashed-append :
    (ss : List Str) (name : Str) → slashed (ss ++ name ∷ []) ≡ slashed ss ++ slash ∷ name
unfolding slashed
slashed-append [] name = ap (λ r. slash ∷ r) (append-nil name)
slashed-append (s ∷ ss) name =
    ap (λ r. slash ∷ r)
      (ap (λ r. s ++ r) (slashed-append ss name) ∙ sym (append_assoc s (slashed ss) (slash ∷ name)))

split_joined_name : (name : Str) → IsComponent name → split_joined (slash ∷ name) ≡ name ∷ []
unfolding join_with
split_joined_name name n = split_joined_unix (name ∷ []) (n, tt)

-- The text behind the path of the directory has the name as its only segment.
resolve_tail :
    (parts : List Str) (name : Str)
    → All IsComponent parts
    → IsComponent name
    → split_joined (
        unwrap_or
          (strip_prefix (join_with parts false) (join_with (parts ++ name ∷ []) false))
          (join_with (parts ++ name ∷ []) false))
      ≡ name ∷ []
unfolding unwrap_or
resolve_tail [] name h n =
    unfold join_with in rw (strip_prefix-append (slash ∷ []) name) (split_joined_component name n)
resolve_tail (s ∷ ss) name h n =
    rw
      (
        join_with_unix s ss h,
        join_with_unix s (ss ++ name ∷ []) (h.0, All-append IsComponent ss (name ∷ []) h.1 (n, tt)),
        slashed-append (s ∷ ss) name,
        strip_prefix-append (slashed (s ∷ ss)) (slash ∷ name),
      )
      (split_joined_name name n)

-- On Unix, a panel shows a directory whose path is joined from names that are not empty and have no
-- slash. The path of an entry of it, joined as for a selected entry, is resolved to the entry of the
-- same name in the directory of the provider that the panel shows.
pub resolve-join_display :
    (parts : List Str) (rel name : Str)
    → All IsComponent parts
    → IsComponent name
    → resolve false
        (record { display_prefix = join_with parts false; rel_prefix = rel })
        (join_display false (join_with parts false) name)
      ≡ join_segment_names false (split_joined rel ++ name ∷ [])
unfolding resolve join_display join_segment_names
resolve-join_display parts rel name h n =
    rw (split_joined_unix parts h, resolve_tail parts name h n) refl
