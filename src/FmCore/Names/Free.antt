-- ===== src/FmCore/Names/Free.antt =====
-- The search for a free name (src/ui-common/fm-core/src/names.rs).
use app_full.Base.{
  ℕ, zero, suc, ◌+◌, ◌-◌, ◌^◌, ◌≤◌, ◌<◌, ◌≡◌, ◌∙◌, sym, refl, ap, subst, dec_lt, Bool, true, false,
  not, List, some, arith, Bool-cases, inl, inr, length, retain,
}
use app_full.Base.Texts.{Str, str_eq, eq_of_str_eq, contains, contains_mono, length-retain-lt}
use app_full.FmCore.Names.{
  split_stem_ext, find_free, range_size, unwrap_or, first_free, keep_or_number,
}

-- Different numbers of 32 bits give different names.
abbrev pub IsDistinct : (ℕ → Str) → Type 0
IsDistinct candidate = (m n : ℕ) → m < 2 ^ 32 → n < 2 ^ 32 → candidate m ≡ candidate n → m ≡ n

-- `m` is the least number from `n` on whose name is not taken.
pub record IsFirstFree (candidate : ℕ → Str) (taken : List Str) (n m : ℕ) : Type 0 where
  pub from : n ≤ m
  pub below : m < 2 ^ 32 - 1
  pub is_free : contains taken (candidate m) ≡ false
  pub skipped : (k : ℕ) → n ≤ k → k < m → contains taken (candidate k) ≡ true

find_free-cong :
    (left n : ℕ) (candidate : ℕ → Str) (t u : List Str)
    → ((k : ℕ) → n ≤ k → k < n + left → contains t (candidate k) ≡ contains u (candidate k))
    → find_free left n candidate t ≡ find_free left n candidate u
unfolding find_free
find_free-cong zero n candidate t u h = refl
find_free-cong (suc left) n candidate t u h = rw (
  find_free-cong left (n + 1) candidate t u (λ k p q. h k (omega arith) (omega arith)),
  h n (omega arith) (omega arith),
)

module _ (candidate : ℕ → Str) (distinct : IsDistinct candidate) where
  apart : (m n : ℕ) → m < n → n < 2 ^ 32 → str_eq (candidate m) (candidate n) ≡ false
  apart m n p q = elim (Bool-cases (str_eq (candidate m) (candidate n))) [
    | inl e ↦ absurd (clash (distinct m n (omega arith) q (eq_of_str_eq _ _ e)))
    | inr e ↦ e
  ]
    where
      clash : m ≡ n → ⊥
      clash e = omega arith

  abbrev others : ℕ → List Str → List Str
  others n taken = retain (λ t. not (str_eq t (candidate n))) taken

  others_same :
      (n k : ℕ) (taken : List Str)
      → n < k
      → k < 2 ^ 32
      → contains (others n taken) (candidate k) ≡ contains taken (candidate k)
  others_same n k taken p q = contains_mono taken (candidate n) (candidate k) (apart n k p q)

  skip_one :
      (n m : ℕ) (taken : List Str)
      → contains taken (candidate n) ≡ true
      → IsFirstFree candidate (others n taken) (n + 1) m
      → IsFirstFree candidate taken n m
  skip_one n m taken used ff = record {
    from = omega arith;
    below = ff.below;
    is_free = sym (others_same n m taken (omega arith) (omega arith)) ∙ ff.is_free;
    skipped = λ k p q. elim (dec_lt n k) [
      | yes l ↦ sym (others_same n k taken l (omega arith)) ∙ ff.skipped k (omega arith) q
      | no l ↦ subst (λ x. contains taken (candidate x) ≡ true) (omega arith) used
    ];
  }

  -- Names that are taken are fewer than the numbers that are tried, so one is found.
  find_free_lem :
      (left n : ℕ) (taken : List Str)
      → length taken < left
      → n + left ≡ 2 ^ 32 - 1
      → (m : ℕ) × (find_free left n candidate taken ≡ some (candidate m))
        × IsFirstFree candidate taken n m
  unfolding find_free
  find_free_lem zero n taken h e = absurd (omega arith)
  find_free_lem (suc left) n taken h e = elim (Bool-cases (contains taken (candidate n))) [
    | inl used ↦
        let (m, found, ff) =
          find_free_lem left (n + 1) (others n taken)
            (omega (arith, length-retain-lt taken (candidate n) used)) (omega arith) in
        (
          m,
          rw used (
              sym (
                find_free-cong left (n + 1) candidate (others n taken) taken
                  (λ k p q. others_same n k taken (omega arith) (omega arith)))
              ∙ found),
          skip_one n m taken used ff,
        )
    | inr new ↦ (
      n,
      rw new,
      record {
        from = omega arith;
        below = omega arith;
        is_free = new;
        skipped = λ k p q. absurd (omega arith);
      },
    )
  ]

-- The name that is tried with a number.
abbrev pub numbered : Str → Bool → (Str → Str → ℕ → Str) → ℕ → Str
numbered name is_dir make = let (stem, ext) = split_stem_ext name is_dir in make stem ext

first_free-find_free :
    (name : Str) (is_dir : Bool) (taken : List Str) (make : Str → Str → ℕ → Str)
    → first_free name is_dir taken make
      ≡ unwrap_or (find_free range_size 1 (numbered name is_dir make) taken) name
unfolding first_free
first_free-find_free name is_dir taken make = refl

module _ (name : Str) (is_dir : Bool) (taken : List Str) (make : Str → Str → ℕ → Str)
    (distinct : IsDistinct (numbered name is_dir make)) (room : length taken < range_size) where
  -- With fewer than 2 ^ 32 - 2 names taken, as many as numbers are tried, and a rule that makes different names of
  -- different numbers, the name that `first_free` makes is that of the least number from 1 on whose
  -- name is not taken.
  pub first_free-IsFirstFree :
      (m : ℕ) × (first_free name is_dir taken make ≡ numbered name is_dir make m)
      × IsFirstFree (numbered name is_dir make) taken 1 m
  first_free-IsFirstFree =
      let candidate = numbered name is_dir make in
      let (m, found, ff) =
        find_free_lem candidate distinct range_size 1 taken room
          (unfold range_size in omega arith) in
      (m, first_free-find_free name is_dir taken make ∙ ap (λ o. unwrap_or o name) found, ff)

  pub contains-first_free : contains taken (first_free name is_dir taken make) ≡ false
  contains-first_free = let (m, e, ff) = first_free-IsFirstFree in rw e ff.is_free

  -- With fewer than 2 ^ 32 - 2 names taken, as many as numbers are tried, and a rule that makes different names of
  -- different numbers, a name that is kept or numbered is not among the taken ones.
  pub contains-keep_or_number : contains taken (keep_or_number name is_dir taken make) ≡ false
  unfolding keep_or_number
  contains-keep_or_number = elim (Bool-cases (contains taken name)) [
    | inl e ↦ rw e contains-first_free
    | inr e ↦ rw e e
  ]
