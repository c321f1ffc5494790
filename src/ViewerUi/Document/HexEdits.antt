-- ===== src/ViewerUi/Document/HexEdits.antt =====
-- Edits in the hexadecimal view and the button to save (src/ui-common/viewer-ui/src/content.rs).
use app_full.Base.{
  ℕ, Bool, true, false, not, ◌&&◌, List, [], ◌∷◌, none, if◌then◌else◌, ◌≡◌, refl, ◌∙◌, arith,
  Bool-cases, inl, inr,
}
use app_full.ViewerUi.Encoding.{Format, image, utf8, ansi, hex}
use app_full.ViewerUi.Document.{
  Mode, view, edit, Event, selects, edits_hex, switches, Document, format_eq, show_bytes, remember,
  reloaded, converted, set_format, select_format, edit_hex, select_mode, can_save, click_save,
  is_edit, opened, update_save_sensitivity, run_event, run_events, bytes_in,
}

and_false : (b : Bool) → b && false ≡ false
and_false true = refl
and_false false = refl

click_save_off : (d : Document) → d.save_sensitive ≡ false → click_save d ≡ none
unfolding click_save can_save
click_save_off d h =
    let off : can_save d ≡ false =
      rw h (and_false (is_edit d.mode && not (format_eq d.format image))) in
    rw off refl

if_sensitive :
    (b : Bool) (x y : Document) (v : Bool)
    → x.save_sensitive ≡ v
    → y.save_sensitive ≡ v
    → (if b then x else y).save_sensitive ≡ v
if_sensitive true x y v h k = h
if_sensitive false x y v h k = k

if_modified :
    (b : Bool) (x y : Document)
    → b ≡ true
    → x.is_modified ≡ true
    → (if b then x else y).is_modified ≡ true
if_modified true x y e h = h
if_modified false x y e h = ground arith

mode-keeps :
    (m : Mode) (d : Document)
    → ((select_mode m d).save_sensitive ≡ d.save_sensitive)
      × (d.is_modified ≡ true → (select_mode m d).is_modified ≡ true)
unfolding select_mode
mode-keeps view d = (refl, λ h. h)
mode-keeps edit d = elim (Bool-cases (not (format_eq d.format image) && not d.read_only)) [
  | inl e ↦ rw e (refl, λ h. h)
  | inr e ↦ rw e (refl, λ h. h)
]

remember-keeps :
    (f : Format) (d : Document)
    → ((remember f d).save_sensitive ≡ d.save_sensitive)
      × ((remember f d).is_modified ≡ d.is_modified)
unfolding remember
remember-keeps image d = (refl, refl)
remember-keeps utf8 d = (refl, refl)
remember-keeps ansi d = (refl, refl)
remember-keeps hex d = (refl, refl)

module _ (set_text : List ℕ → List ℕ) where
  show_bytes-keeps :
      (f : Format) (bytes : List ℕ) (d : Document)
      → ((show_bytes set_text f bytes d).save_sensitive ≡ d.save_sensitive)
        × ((show_bytes set_text f bytes d).is_modified ≡ d.is_modified)
        × ((reloaded f (show_bytes set_text f bytes d)).save_sensitive ≡ d.save_sensitive)
  unfolding show_bytes reloaded
  show_bytes-keeps image bytes d = (refl, refl, refl)
  show_bytes-keeps utf8 bytes d = (refl, refl, refl)
  show_bytes-keeps ansi bytes d = (refl, refl, refl)
  show_bytes-keeps hex bytes d = (refl, refl, refl)

  converted-sensitive :
      (f : Format) (d : Document) → (converted set_text f d).save_sensitive ≡ d.save_sensitive
  unfolding converted
  converted-sensitive f d =
      if_sensitive d.is_modified _ _ d.save_sensitive (show_bytes-keeps f (bytes_in d.format d) d).0
        (show_bytes-keeps f d.original d).2

  converted-modified :
      (f : Format) (d : Document)
      → d.is_modified ≡ true
      → (converted set_text f d).is_modified ≡ true
  unfolding converted
  converted-modified f d h =
      if_modified d.is_modified _ _ h ((show_bytes-keeps f (bytes_in d.format d) d).1 ∙ h)

  sensitive-select_format :
      (f : Format) (d : Document) → (select_format set_text f d).save_sensitive ≡ d.save_sensitive
  unfolding select_format set_format
  sensitive-select_format f d = elim (Bool-cases (format_eq f d.format)) [
    | inl e ↦ rw e refl
    | inr e ↦ rw e (converted-sensitive f (remember f d) ∙ (remember-keeps f d).0)
  ]

  modified-select_format :
      (f : Format) (d : Document)
      → d.is_modified ≡ true
      → (select_format set_text f d).is_modified ≡ true
  unfolding select_format set_format
  modified-select_format f d h = elim (Bool-cases (format_eq f d.format)) [
    | inl e ↦ rw e h
    | inr e ↦ rw e (converted-modified f (remember f d) ((remember-keeps f d).1 ∙ h))
  ]

  sensitive-run_events :
      (es : List Event) (d : Document)
      → (run_events set_text es d).save_sensitive ≡ d.save_sensitive
  unfolding run_events run_event edit_hex
  sensitive-run_events [] d = refl
  sensitive-run_events (selects f ∷ es) d =
      sensitive-run_events es (select_format set_text f d) ∙ sensitive-select_format f d
  sensitive-run_events (edits_hex bytes ∷ es) d = sensitive-run_events es (edit_hex bytes d)
  sensitive-run_events (switches m ∷ es) d =
      sensitive-run_events es (select_mode m d) ∙ (mode-keeps m d).0

  modified-run_events :
      (es : List Event) (d : Document)
      → d.is_modified ≡ true
      → (run_events set_text es d).is_modified ≡ true
  unfolding run_events run_event edit_hex
  modified-run_events [] d h = h
  modified-run_events (selects f ∷ es) d h =
      modified-run_events es (select_format set_text f d) (modified-select_format f d h)
  modified-run_events (edits_hex bytes ∷ es) d h = modified-run_events es (edit_hex bytes d) refl
  modified-run_events (switches m ∷ es) d h =
      modified-run_events es (select_mode m d) ((mode-keeps m d).1 h)

  -- The bytes of an existing file are edited in the hexadecimal view. Whatever was done before and is
  -- done behind it, selecting formats, switching between viewing and editing, and more such edits, the
  -- document counts as modified, but the button to save does not take a click: nothing is written.
  pub edits_hex_lost :
      (read_only start_in_edit_mode is_image : Bool) (bytes edited : List ℕ)
      (before after : List Event)
      → let d =
          run_events set_text before
            (opened set_text read_only start_in_edit_mode false is_image bytes) in
        let t = run_events set_text after (edit_hex edited d) in
        (t.is_modified ≡ true) × (click_save t ≡ none)
  unfolding edit_hex opened update_save_sensitivity
  edits_hex_lost read_only start_in_edit_mode is_image bytes edited before after =
      let d =
        run_events set_text before
          (opened set_text read_only start_in_edit_mode false is_image bytes) in
      let t = run_events set_text after (edit_hex edited d) in
      let off : t.save_sensitive ≡ false =
        sensitive-run_events after (edit_hex edited d)
        ∙ sensitive-run_events before
            (opened set_text read_only start_in_edit_mode false is_image bytes) in
      (modified-run_events after (edit_hex edited d) refl, click_save_off t off)
