-- ===== src/ViewerUi/Document/Picture.antt =====
-- A detour over the picture (src/ui-common/viewer-ui/src/content.rs).
use app_full.Base.{ℕ, Bool, true, false, List, if◌then◌else◌, ◌≡◌, refl, ap, arith}
use app_full.ViewerUi.Encoding.{Format, image, utf8, ansi, hex, get_text_for_format}
use app_full.ViewerUi.Document.{
  Document, format_eq, bytes_in, show_bytes, remember, reloaded, converted, set_format,
  select_format, edit_text,
}

unfoldable pub is_text : Format → Bool
is_text image = false
is_text hex = false
is_text utf8 = true
is_text ansi = true

module _ (set_text : List ℕ → List ℕ) where
  if_same : {A : Type 0} (b : Bool) (x : A) → (if b then x else x) ≡ x
  if_same true x = refl
  if_same false x = refl

  -- A picture is shown beside what the buffer and the hexadecimal view hold.
  converted-image : (d : Document) → converted set_text image d ≡ d
  unfolding converted show_bytes reloaded
  converted-image d = if_same d.is_modified d

  select-image :
      (d : Document) → is_text d.format ≡ true → select_format set_text image d ≡ set_format image d
  unfolding is_text format_eq select_format set_format
  select-image d h =
      rw (select_format, not_image d.format h, remember) (ap (set_format image) (converted-image d))
    where
      not_image : (f : Format) → is_text f ≡ true → format_eq image f ≡ false
      not_image utf8 e = refl
      not_image ansi e = refl
      not_image hex e = refl
      not_image image e = ground arith

  select_text :
      (f : Format) (d : Document)
      → is_text f ≡ true
      → d.format ≡ image
      → d.is_modified ≡ true
      → ((select_format set_text f d).buffer ≡ set_text (get_text_for_format f d.original))
        × ((select_format set_text f d).is_modified ≡ true)
  unfolding is_text select_format format_eq set_format converted remember show_bytes bytes_in
  select_text utf8 d t i m = rw (i, m) (refl, refl)
  select_text ansi d t i m = rw (i, m) (refl, refl)
  select_text image d t i m = ground arith
  select_text hex d t i m = ground arith

  -- A document is shown as UTF-8 or Windows-1251 and its text is edited. Selecting the picture and then a
  -- text format sets the text of the unedited file, so that the buffer holds nothing of the edit, and
  -- the document still counts as modified: the edit is lost.
  pub edit_lost :
      (f : Format) (text : List ℕ) (d : Document)
      → is_text d.format ≡ true
      → is_text f ≡ true
      → let t = select_format set_text f (select_format set_text image (edit_text text d)) in
        (t.buffer ≡ set_text (get_text_for_format f d.original)) × (t.is_modified ≡ true)
  unfolding edit_text set_format
  edit_lost f text d shown h =
      rw (select-image (edit_text text d) shown)
        (select_text f (set_format image (edit_text text d)) h refl refl)
