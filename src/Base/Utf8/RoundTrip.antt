-- ===== src/Base/Utf8/RoundTrip.antt =====
-- What is written in UTF-8 is read back.
use app_full.Base.{
  ℕ, ◌+◌, ◌*◌, ◌/◌, ◌%◌, ◌<◌, ◌≤◌, true, List, [], ◌∷◌, ◌++◌, ltb, All, ◌≡◌, refl, ap, ◌∙◌, ◌⊎◌,
  inl, inr, arith, Bool-cases,
}
use app_full.Base.Utf8.{
  encode_char, encode, decode, next_char, within, follows, second3, second4, IsScalar, byte,
}

next1 : (c x y z : ℕ) → c < 0x80 → next_char c x y z ≡ (c, 0)
unfolding next_char
next1 c x y z h = ground arith

next2 : (c y z : ℕ) → 0x80 ≤ c → c < 0x800 → next_char (0xc0 + c / 64) (0x80 + c % 64) y z ≡ (c, 1)
unfolding next_char within follows
next2 c y z g h = ground arith

-- Three and four bytes by their payloads.
second3-fits :
    (q m : ℕ)
    → q < 16
    → m < 64
    → 32 ≤ q * 64 + m
    → (q * 64 + m < 864) ⊎ (896 ≤ q * 64 + m)
    → second3 (0xe0 + q) (0x80 + m) ≡ true
unfolding second3
second3-fits q m hq hm h k = ground arith

second4-fits :
    (q m : ℕ)
    → q < 5
    → m < 64
    → 16 ≤ q * 64 + m
    → q * 64 + m < 272
    → second4 (0xf0 + q) (0x80 + m) ≡ true
unfolding second4
second4-fits q m hq hm h k = ground arith

follows-fits : (m : ℕ) → m < 64 → follows (0x80 + m) ≡ true
unfolding follows
follows-fits m h = ground arith

next3-parts :
    (q m n z : ℕ)
    → q < 16
    → second3 (0xe0 + q) (0x80 + m) ≡ true
    → follows (0x80 + n) ≡ true
    → next_char (0xe0 + q) (0x80 + m) (0x80 + n) z ≡ (q * 4096 + m * 64 + n, 2)
unfolding next_char within
next3-parts q m n z hq h k = ground arith

next4-parts :
    (q m n o : ℕ)
    → q < 5
    → second4 (0xf0 + q) (0x80 + m) ≡ true
    → follows (0x80 + n) ≡ true
    → follows (0x80 + o) ≡ true
    → next_char (0xf0 + q) (0x80 + m) (0x80 + n) (0x80 + o)
      ≡ (q * 262144 + m * 4096 + n * 64 + o, 3)
unfolding next_char within
next4-parts q m n o hq h k l = ground arith

next3 :
    (c z : ℕ)
    → 0x800 ≤ c
    → c < 0x10000
    → (c < 0xd800) ⊎ (0xe000 ≤ c)
    → next_char (0xe0 + c / 4096) (0x80 + c / 64 % 64) (0x80 + c % 64) z ≡ (c, 2)
next3 c z g h k =
    next3-parts (c / 4096) (c / 64 % 64) (c % 64) z (omega arith)
      (second3-fits (c / 4096) (c / 64 % 64) (omega arith) (omega arith) (omega arith) (gap k))
      (follows-fits (c % 64) (omega arith))
    ∙ (λ i. (sum i, 2))
  where
    gap :
        (c < 0xd800) ⊎ (0xe000 ≤ c)
        → (c / 4096 * 64 + c / 64 % 64 < 864) ⊎ (896 ≤ c / 4096 * 64 + c / 64 % 64)
    gap (inl a) = inl (omega arith)
    gap (inr a) = inr (omega arith)

    sum : c / 4096 * 4096 + c / 64 % 64 * 64 + c % 64 ≡ c
    sum = omega arith

next4 :
    (c : ℕ)
    → 0x10000 ≤ c
    → c < 0x110000
    → next_char (0xf0 + c / 262144) (0x80 + c / 4096 % 64) (0x80 + c / 64 % 64) (0x80 + c % 64)
      ≡ (c, 3)
next4 c g h =
    next4-parts (c / 262144) (c / 4096 % 64) (c / 64 % 64) (c % 64) (omega arith)
      (second4-fits (c / 262144) (c / 4096 % 64) (omega arith) (omega arith) (omega arith)
        (omega arith))
      (follows-fits (c / 64 % 64) (omega arith)) (follows-fits (c % 64) (omega arith))
    ∙ (λ i. (sum i, 3))
  where
    sum : c / 262144 * 262144 + c / 4096 % 64 * 4096 + c / 64 % 64 * 64 + c % 64 ≡ c
    sum = omega arith

-- A character in front of what was written.
decode-encode_char : (c : ℕ) (s : List ℕ) → IsScalar c → decode (encode_char c ++ s) ≡ c ∷ decode s
unfolding decode encode_char
decode-encode_char c s h = elim (Bool-cases (ltb c 0x80)) [
  | inl e ↦ rw e (rw (next1 c (byte 0 s) (byte 1 s) (byte 2 s) (ground arith)))
  | inr e ↦ elim (Bool-cases (ltb c 0x800)) [
    | inl f ↦ rw (e, f) (rw (next2 c (byte 0 s) (byte 1 s) (ground arith) (ground arith)))
    | inr f ↦ elim (Bool-cases (ltb c 0x10000)) [
      | inl g ↦ rw (e, f, g) (rw (next3 c (byte 0 s) (ground arith) (ground arith) (below h)))
      | inr g ↦ rw (e, f, g) (rw (next4 c (ground arith) (ground arith)))
    ]
  ]
]
  where
    below : IsScalar c → (c < 0xd800) ⊎ (0xe000 ≤ c)
    below (inl a) = inl a
    below (inr (a, b)) = inr a

pub decode-encode : (s : List ℕ) → All IsScalar s → decode (encode s) ≡ s
unfolding encode
decode-encode [] h = unfold decode in refl
decode-encode (c ∷ s) h =
    decode-encode_char c (encode s) h.0 ∙ ap (λ t. c ∷ t) (decode-encode s h.1)
