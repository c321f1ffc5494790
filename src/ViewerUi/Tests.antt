-- ===== src/ViewerUi/Tests.antt =====
-- Encodings and documents at concrete bytes.
use app_full.Base.{
  ℕ, true, false, List, [], ◌∷◌, All, ◌≡◌, refl, arith, inl, some, none, any, ◌==◌, if◌then◌else◌,
  subst, sym,
}
use app_full.Base.Texts.{codes, Lacks}
use app_full.Base.Utf8.{encode, encode_char, decode, next_char, IsScalar}
use app_full.ViewerUi.Encoding.{
  Format, image, utf8, ansi, hex, decode_windows_1251, encode_windows_1251, get_text_for_format,
}
use app_full.ViewerUi.Encoding.Windows1251.{IsByte1251}
use app_full.ViewerUi.HexDump.{to_hex_dump}
use app_full.ViewerUi.Document.{
  selects, Document, opened, select_format, select_formats, edit_text, edit_hex, save_bytes,
  can_save, click_save, run_events,
}
use app_full.ViewerUi.Document.Edited.{IsReadable, HoldsTexts, click_save-select_formats}
use app_full.ViewerUi.Document.HexEdits.{edits_hex_lost}
use app_full.ViewerUi.Document.Picture.{is_text, edit_lost}

-- Byte 0x98 is no character of Windows-1251; it is shown and saved as a space.
test_undefined_byte : encode_windows_1251 (decode_windows_1251 (0x98 ∷ [])) ≡ 0x20 ∷ []
unfolding encode_windows_1251 decode_windows_1251
test_undefined_byte = refl

test_capital_a : decode_windows_1251 (0xc0 ∷ []) ≡ 0x410 ∷ []
unfolding decode_windows_1251
test_capital_a = refl

test_unknown_char : encode_windows_1251 (0x4e2d ∷ []) ≡ codes "?"
unfolding encode_windows_1251
test_unknown_char = refl

test_hex_dump :
    to_hex_dump (codes "ABCD")
    ≡ codes "00000000:  41 42 43 44                                       |ABCD|\n"
unfolding to_hex_dump
test_hex_dump = refl

abbrev twenty : List ℕ
twenty = codes "twenty bytes of text"

-- GTK's buffer is empty when a text with a zero was set.
set_text : List ℕ → List ℕ
set_text t = if any (λ c. c == 0) t then [] else t

set_text-HoldsTexts : HoldsTexts set_text
unfolding HoldsTexts set_text
set_text-HoldsTexts t h = rw (without_zero t h) refl
  where
    without_zero : (t : List ℕ) → Lacks 0 t → any (λ c. c == 0) t ≡ false
    without_zero [] h = refl
    without_zero (c ∷ t) h = let rest = without_zero t h.1 in ground (arith, rest, h.0)

-- Two letters as UTF-8.
abbrev letters : List ℕ
letters = 0xd0 ∷ 0xbf ∷ b'a' ∷ []

-- A file is opened to be edited, and its text changed to the two letters.
abbrev edited : Document
edited = edit_text (0x43f ∷ b'a' ∷ []) (opened set_text false true false false (codes "old"))

abbrev formats : List Format
formats = hex ∷ ansi ∷ hex ∷ utf8 ∷ []

edited-can_save : can_save edited ≡ true
unfolding can_save opened edit_text encode decode next_char
edited-can_save = refl

edited-save_bytes : save_bytes edited ≡ letters
unfolding save_bytes edit_text opened encode encode_char decode next_char
edited-save_bytes = refl

readable : All (IsReadable letters) formats
unfolding IsReadable IsByte1251 encode encode_char
readable =
    let as_ansi : All IsByte1251 letters × Lacks 0 letters = (omega arith, omega arith) in
    let scalars : All IsScalar (0x43f ∷ b'a' ∷ []) = (inl (omega arith), (inl (omega arith), tt)) in
    (tt, (as_ansi, (tt, ((0x43f ∷ b'a' ∷ [], scalars, omega arith, refl), tt))))

edited-IsReadable : All (IsReadable (save_bytes edited)) formats
edited-IsReadable = subst (λ bs. All (IsReadable bs) formats) (sym edited-save_bytes) readable

click_save-select_formats_example :
    click_save (select_formats set_text formats edited) ≡ some (save_bytes edited)
unfolding edit_text
click_save-select_formats_example =
    click_save-select_formats set_text set_text-HoldsTexts edited formats refl edited-can_save
      edited-IsReadable

edits_hex_lost_example :
    let d = opened set_text false true false false (codes "old") in
    let t = run_events set_text (selects hex ∷ []) d in
    let u = run_events set_text (selects utf8 ∷ []) (edit_hex (codes "new") t) in
    (u.is_modified ≡ true) × (click_save u ≡ none)
edits_hex_lost_example =
    edits_hex_lost set_text false true false (codes "old") (codes "new") (selects hex ∷ [])
      (selects utf8 ∷ [])

abbrev shown : Document
shown = select_format set_text utf8 (opened set_text false false false true letters)

shown_is_text : is_text shown.format ≡ true
unfolding is_text select_format opened
shown_is_text = refl

utf8_is_text : is_text utf8 ≡ true
unfolding is_text
utf8_is_text = refl

edit_lost_example :
    let t =
      select_format set_text utf8 (select_format set_text image (edit_text (codes "new") shown)) in
    (t.buffer ≡ set_text (get_text_for_format utf8 shown.original)) × (t.is_modified ≡ true)
edit_lost_example = edit_lost set_text utf8 (codes "new") shown shown_is_text utf8_is_text
