-- ===== src/ViewerUi/Document/Edited.antt =====
-- Formats of an edited document, and what is saved (src/ui-common/viewer-ui/src/content.rs).
use app_full.Base.{
  ℕ, Bool, true, false, not, ◌&&◌, List, [], ◌∷◌, All, some, if◌then◌else◌, ◌≡◌, refl, sym, ap, ◌∙◌,
  subst, Bool-cases, arith, inl, inr,
}
use app_full.Base.Texts.{Lacks}
use app_full.Base.Utf8.{encode, IsScalar}
use app_full.Base.Utf8.RoundTrip.{decode-encode}
use app_full.ViewerUi.Encoding.{
  Format, image, utf8, ansi, hex, decode_windows_1251, get_text_for_format,
}
use app_full.ViewerUi.Encoding.Windows1251.{
  IsByte1251, encode-decode_windows_1251, Lacks-decode_windows_1251,
}
use app_full.ViewerUi.Document.{
  Mode, view, edit, Document, format_eq, bytes_in, show_bytes, remember, reloaded, converted,
  set_format, select_format, parse_format, save_bytes, select_formats, can_save, click_save,
  is_edit,
}

-- What a format that is no picture shows without loss.
unfoldable pub IsReadable : List ℕ → Format → Type 0
IsReadable bytes image = false ≡ true
IsReadable bytes hex = Unit
IsReadable bytes utf8 = (cs : List ℕ) × All IsScalar cs × Lacks 0 cs × (bytes ≡ encode cs)
IsReadable bytes ansi = All IsByte1251 bytes × Lacks 0 bytes

-- GTK's text buffer holds a text without a zero as it was set.
unfoldable pub HoldsTexts : (List ℕ → List ℕ) → Type 0
HoldsTexts set_text = (t : List ℕ) → Lacks 0 t → set_text t ≡ t

-- Such bytes are shown, in a document that is edited and can be saved.
record Shows (bytes : List ℕ) (d : Document) : Type 0 where
  is_modified : d.is_modified ≡ true
  in_edit : d.mode ≡ edit
  is_sensitive : d.save_sensitive ≡ true
  no_picture : format_eq d.format image ≡ false
  shown : bytes_in d.format d ≡ bytes

click_save-Shows : (bytes : List ℕ) (d : Document) → Shows bytes d → click_save d ≡ some bytes
unfolding can_save is_edit save_bytes parse_format click_save
click_save-Shows bytes d h =
    let ready : can_save d ≡ true = rw (h.in_edit, h.is_sensitive, h.no_picture) refl in
    let same : save_bytes d ≡ bytes = rw h.no_picture h.shown in rw (click_save, ready, same) refl

if_true : {A : Type 0} (b : Bool) (x y : A) → b ≡ true → (if b then x else y) ≡ x
if_true true x y h = refl
if_true false x y h = ground arith

both_true : (a b : Bool) → a && b ≡ true → (a ≡ true) × (b ≡ true)
both_true true b h = (refl, h)
both_true false b h = ground arith

edit_mode : (m : Mode) → is_edit m ≡ true → m ≡ edit
unfolding is_edit
edit_mode edit h = refl
edit_mode view h = ground arith

Shows-can_save : (d : Document) → d.is_modified ≡ true → can_save d ≡ true → Shows (save_bytes d) d
unfolding can_save save_bytes parse_format
Shows-can_save d m c =
    let (front, sensitive) =
      both_true (is_edit d.mode && not (format_eq d.format image)) d.save_sensitive c in
    let (in_edit, other) = both_true (is_edit d.mode) (not (format_eq d.format image)) front in
    let no_picture : format_eq d.format image ≡ false = ground arith in
    record {
      is_modified = m;
      in_edit = edit_mode d.mode in_edit;
      is_sensitive = sensitive;
      no_picture = no_picture;
      shown = rw no_picture refl;
    }

bytes_in-last :
    (f last : Format) (d : Document)
    → bytes_in f (record d { last_text_format = last }) ≡ bytes_in f d
unfolding bytes_in
bytes_in-last image last d = refl
bytes_in-last utf8 last d = refl
bytes_in-last ansi last d = refl
bytes_in-last hex last d = refl

with_last :
    (bytes : List ℕ) (last : Format) (d : Document)
    → Shows bytes d
    → Shows bytes (record d { last_text_format = last })
with_last bytes last d h = record {
  is_modified = h.is_modified;
  in_edit = h.in_edit;
  is_sensitive = h.is_sensitive;
  no_picture = h.no_picture;
  shown = bytes_in-last d.format last d ∙ h.shown;
}

module _ (set_text : List ℕ → List ℕ) (holds : HoldsTexts set_text) where
  Shows-set_format :
      (bytes : List ℕ) (f : Format) (d : Document)
      → IsReadable bytes f
      → Shows bytes d
      → Shows bytes (set_format f (show_bytes set_text f bytes (remember f d)))
  unfolding IsReadable set_format remember show_bytes get_text_for_format bytes_in HoldsTexts
      format_eq
  Shows-set_format bytes image d r h = ground arith
  Shows-set_format bytes hex d r h = record {
    is_modified = h.is_modified;
    in_edit = h.in_edit;
    is_sensitive = h.is_sensitive;
    no_picture = refl;
    shown = refl;
  }
  Shows-set_format bytes utf8 d r h = record {
    is_modified = h.is_modified;
    in_edit = h.in_edit;
    is_sensitive = h.is_sensitive;
    no_picture = refl;
    shown = rw (r.3, decode-encode r.0 r.1, holds r.0 r.2) refl;
  }
  Shows-set_format bytes ansi d r h = record {
    is_modified = h.is_modified;
    in_edit = h.in_edit;
    is_sensitive = h.is_sensitive;
    no_picture = refl;
    shown =
        rw
          (
            holds (decode_windows_1251 bytes) (Lacks-decode_windows_1251 bytes r.0 r.1),
            encode-decode_windows_1251 bytes r.0,
          )
          refl;
  }

  converted-Shows :
      (bytes : List ℕ) (f : Format) (d : Document)
      → Shows bytes d
      → converted set_text f d ≡ show_bytes set_text f bytes d
  unfolding converted
  converted-Shows bytes f d h =
      if_true d.is_modified (show_bytes set_text f (bytes_in d.format d) d)
        (reloaded f (show_bytes set_text f d.original d)) h.is_modified
      ∙ ap (λ b. show_bytes set_text f b d) h.shown

  Shows-remember :
      (bytes : List ℕ) (f : Format) (d : Document) → Shows bytes d → Shows bytes (remember f d)
  unfolding remember bytes_in
  Shows-remember bytes image d h = h
  Shows-remember bytes utf8 d h = with_last bytes utf8 d h
  Shows-remember bytes ansi d h = with_last bytes ansi d h
  Shows-remember bytes hex d h = with_last bytes hex d h

  Shows-select_format :
      (bytes : List ℕ) (f : Format) (d : Document)
      → IsReadable bytes f
      → Shows bytes d
      → Shows bytes (select_format set_text f d)
  unfolding select_format
  Shows-select_format bytes f d r h = elim (Bool-cases (format_eq f d.format)) [
    | inl e ↦ rw e h
    | inr e ↦
        let same = converted-Shows bytes f (remember f d) (Shows-remember bytes f d h) in
        rw e (subst (λ u. Shows bytes (set_format f u)) (sym same) (Shows-set_format bytes f d r h))
  ]

  Shows-select_formats :
      (bytes : List ℕ) (fs : List Format) (d : Document)
      → All (IsReadable bytes) fs
      → Shows bytes d
      → Shows bytes (select_formats set_text fs d)
  unfolding select_formats
  Shows-select_formats bytes [] d r h = h
  Shows-select_formats bytes (f ∷ fs) d r h =
      Shows-select_formats bytes fs (select_format set_text f d) r.1
        (Shows-select_format bytes f d r.0 h)

  -- The text buffer holds texts without a zero as they are set. A document is edited and can be saved.
  -- Then any formats are selected one after the other, none of them the picture, of which each shows
  -- the bytes of the edited document without loss: hexadecimal all bytes, UTF-8 the valid ones,
  -- Windows-1251 all but 0x98, and as a text only bytes without a zero. The button to save still takes
  -- the click, and the bytes to write are those of the edited document.
  pub click_save-select_formats :
      (d : Document) (fs : List Format)
      → d.is_modified ≡ true
      → can_save d ≡ true
      → All (IsReadable (save_bytes d)) fs
      → click_save (select_formats set_text fs d) ≡ some (save_bytes d)
  click_save-select_formats d fs m c r =
      click_save-Shows (save_bytes d) (select_formats set_text fs d)
        (Shows-select_formats (save_bytes d) fs d r (Shows-can_save d m c))
