-- ===== src/ViewerUi/HexDump/Pieces.antt =====
-- Pieces of a text at their positions, for the dump of src/ui-common/viewer-ui/src/encoding.rs.
use app_full.Base.{
  ℕ, ◌+◌, List, [], ◌++◌, length, length-append, append_assoc, ◌≡◌, refl, sym, ap, ◌∙◌,
}

-- A piece stands at a position of a text.
pub record IsAt (at : ℕ) (piece text : List ℕ) : Type 0 where
  pub front : List ℕ
  pub back : List ℕ
  pub spells : text ≡ front ++ (piece ++ back)
  pub width : length front ≡ at

module _ {at : ℕ} {piece text : List ℕ} where
  pub IsAt-front :
      (u : List ℕ) (n : ℕ) → length u ≡ n → IsAt at piece text → IsAt (n + at) piece (u ++ text)
  IsAt-front u n h p = record {
    front = u ++ p.front;
    back = p.back;
    spells = ap (λ t. u ++ t) p.spells ∙ sym (append_assoc u p.front (piece ++ p.back));
    width = rw (length-append, h, p.width) refl;
  }

  pub IsAt-back : (v : List ℕ) → IsAt at piece text → IsAt at piece (text ++ v)
  IsAt-back v p = record {
    front = p.front;
    back = p.back ++ v;
    spells =
        ap (λ t. t ++ v) p.spells
        ∙ append_assoc p.front (piece ++ p.back) v
        ∙ ap (λ t. p.front ++ t) (append_assoc piece p.back v);
    width = p.width;
  }

  pub IsAt-eq : (n : ℕ) → at ≡ n → IsAt at piece text → IsAt n piece text
  IsAt-eq n e p = record { front = p.front; back = p.back; spells = p.spells; width = p.width ∙ e }

pub IsAt-first : (piece back : List ℕ) → IsAt 0 piece (piece ++ back)
IsAt-first piece back = record { front = []; back = back; spells = refl; width = refl }
