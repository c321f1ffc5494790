-- ===== src/ViewerUi/HexDump/Chunks.antt =====
-- The chunks of a hexadecimal dump (src/ui-common/viewer-ui/src/encoding.rs), and parts of lists.
use app_full.Base.{
  ℕ, zero, suc, ◌+◌, ◌≤◌, ◌<◌, List, [], ◌∷◌, some, length, take, drop, get_elem?, ◌≡◌, refl, ap,
  arith,
}
use app_full.ViewerUi.HexDump.{split_chunks, chunks}

chunks-drop :
    (room : ℕ) (bytes : List ℕ)
    → split_chunks room bytes ≡ (take room bytes, chunks (drop room bytes))
unfolding split_chunks chunks
chunks-drop zero [] = refl
chunks-drop (suc room) [] = refl
chunks-drop zero (b ∷ bytes) = refl
chunks-drop (suc room) (b ∷ bytes) = ap (λ r. (b ∷ r.0, r.1)) (chunks-drop room bytes)

pub chunks-cons :
    (b : ℕ) (bytes : List ℕ)
    → chunks (b ∷ bytes) ≡ take 16 (b ∷ bytes) ∷ chunks (drop 16 (b ∷ bytes))
unfolding chunks split_chunks
chunks-cons b bytes = ap (λ r. (b ∷ r.0) ∷ r.1) (chunks-drop 15 bytes)

pub get_elem?-take : (n k : ℕ) (xs : List ℕ) → k < n → get_elem? (take n xs) k ≡ get_elem? xs k
get_elem?-take zero k xs h = ground arith
get_elem?-take (suc n) k [] h = refl
get_elem?-take (suc n) zero (x ∷ xs) h = refl
get_elem?-take (suc n) (suc k) (x ∷ xs) h = get_elem?-take n k xs (omega arith)

pub get_elem?-drop : (n k : ℕ) (xs : List ℕ) → get_elem? (drop n xs) k ≡ get_elem? xs (n + k)
get_elem?-drop zero k xs = let m : 0 + k ≡ k = omega arith in rw m refl
get_elem?-drop (suc n) k [] = refl
get_elem?-drop (suc n) k (x ∷ xs) =
    let m : suc n + k ≡ suc (n + k) = omega arith in rw m (get_elem?-drop n k xs)

pub length-take_le : (n : ℕ) (xs : List ℕ) → length (take n xs) ≤ n
length-take_le zero xs = omega arith
length-take_le (suc n) [] = omega arith
length-take_le (suc n) (x ∷ xs) = let rest = length-take_le n xs in omega (arith, rest)

pub length-take_full :
    (n k b : ℕ) (xs : List ℕ) → get_elem? xs (n + k) ≡ some b → length (take n xs) ≡ n
length-take_full zero k b xs h = refl
length-take_full (suc n) k b [] h = ground arith
length-take_full (suc n) k b (x ∷ xs) h =
    let m : suc n + k ≡ suc (n + k) = omega arith in ap suc (length-take_full n k b xs (rw m at h))

drop-nil : (m : ℕ) → drop {A = ℕ} m [] ≡ []
drop-nil zero = refl
drop-nil (suc m) = refl

-- The list behind so many and further elements.
pub drop-drop : (n m : ℕ) (xs : List ℕ) → drop m (drop n xs) ≡ drop (n + m) xs
drop-drop zero m xs = let e : 0 + m ≡ m = omega arith in rw e refl
drop-drop (suc n) m [] = let e : suc n + m ≡ suc (n + m) = omega arith in rw e (drop-nil m)
drop-drop (suc n) m (x ∷ xs) =
    let e : suc n + m ≡ suc (n + m) = omega arith in rw e (drop-drop n m xs)
