-- ===== src/GtkApp/ClipboardOps/Plan.antt =====
-- The names that `plan_names` gives out (src/gtk-app/src/clipboard_ops.rs).
use mathlib.Core.List.{append_cancel_left, append_cancel_right}
use app_full.Base.{
  ◌+◌, ◌≤◌, ◌<◌, ◌≡◌, ◌∙◌, subst, Bool, true, false, List, [], ◌∷◌, ◌++◌, some, arith, Bool-cases,
  inl, inr, length, length-append, All,
}
use app_full.Base.Texts.{
  Str, codes, str_eq, str_eq_refl, str_eq_sym, eq_of_str_eq, contains, contains_last,
  contains_before,
}
use app_full.Base.Decimal.{decimal_injective}
use app_full.FmCore.Names.{range_size, keep_or_number}
use app_full.FmCore.Names.Free.{IsDistinct, numbered, contains-keep_or_number}
use app_full.FmCore.Clipboard.{ClipItem}
use app_full.GtkApp.ClipboardOps.{Plan, insert, lookup, paren_name, plan_loop, plan_names}

paren_name-IsDistinct : (name : Str) (is_dir : Bool) → IsDistinct (numbered name is_dir paren_name)
unfolding paren_name
paren_name-IsDistinct name is_dir m n p q e =
    decimal_injective m n p q
      (append_cancel_right _ _ _ (append_cancel_left (codes " (") _ _ (append_cancel_left _ _ _ e)))

abbrev pub AllValues : (Str → Type 0) → Plan → Type 0
AllValues P m = All (λ kv. P kv.1) m

-- No two entries have the same value.
abbrev pub Distinct : Plan → Type 0
Distinct [] = Unit
Distinct ((k, v) ∷ m) = AllValues (λ w. str_eq w v ≡ false) m × Distinct m

AllValues-insert :
    (P : Str → Type 0) (k v : Str) (m : Plan) → P v → AllValues P m → AllValues P (insert k v m)
unfolding insert
AllValues-insert P k v [] pv h = (pv, tt)
AllValues-insert P k v ((j, w) ∷ m) pv (pw, h) = elim (Bool-cases (str_eq j k)) [
  | inl e ↦ rw e (pv, h)
  | inr e ↦ rw e (pw, AllValues-insert P k v m pv h)
]

Distinct-insert :
    (k v : Str) (m : Plan)
    → AllValues (λ w. str_eq w v ≡ false) m
    → Distinct m
    → Distinct (insert k v m)
unfolding insert
Distinct-insert k v [] new h = (tt, tt)
Distinct-insert k v ((j, w) ∷ m) (n, new) (a, d) = elim (Bool-cases (str_eq j k)) [
  | inl e ↦ rw e (new, d)
  | inr e ↦ rw e (
    AllValues-insert (λ x. str_eq x w ≡ false) k v m (str_eq_sym v w ∙ n) a,
    Distinct-insert k v m new d,
  )
]

lookup-insert_self : (k v : Str) (m : Plan) → lookup k (insert k v m) ≡ some v
unfolding insert lookup
lookup-insert_self k v [] = ground (arith, str_eq_refl k)
lookup-insert_self k v ((j, w) ∷ m) = ground (arith, lookup-insert_self k v m)

abbrev pub HasEntry : Plan → Str → Type 0
HasEntry m k = (v : Str) × (lookup k m ≡ some v)

HasEntry-insert : (k v j : Str) (m : Plan) → HasEntry m j → HasEntry (insert k v m) j
unfolding insert lookup
HasEntry-insert k v j [] (x, e) = absurd (cc)
HasEntry-insert k v j ((i, w) ∷ m) (x, e) = elim (Bool-cases (str_eq i j)) [
  | inl hit ↦ first hit
  | inr miss ↦ later miss (HasEntry-insert k v j m (x, ground arith))
]
  where
    first : str_eq i j ≡ true → HasEntry (insert k v ((i, w) ∷ m)) j
    first hit = elim (Bool-cases (str_eq i k)) [
      | inl p ↦ (v, rw (p, hit))
      | inr p ↦ (w, rw (p, hit))
    ]

    later : str_eq i j ≡ false → HasEntry (insert k v m) j → HasEntry (insert k v ((i, w) ∷ m)) j
    later miss (y, f) = elim (Bool-cases (str_eq i k)) [
      | inl p ↦ (x, ground arith)
      | inr p ↦ (y, ground arith)
    ]

-- What holds before each round of the loop, for the names taken at the start and those taken now.
record IsPlan (start taken : List Str) (m : Plan) : Type 0 where
  fresh : AllValues (λ v. contains start v ≡ false) m
  used : AllValues (λ v. contains taken v ≡ true) m
  distinct : Distinct m
  grows : (x : Str) → contains taken x ≡ false → contains start x ≡ false

AllValues-mono :
    (P Q : Str → Type 0) (m : Plan) → ((v : Str) → P v → Q v) → AllValues P m → AllValues Q m
AllValues-mono P Q [] f h = tt
AllValues-mono P Q ((k, v) ∷ m) f (p, h) = (f v p, AllValues-mono P Q m f h)

not-contains_before :
    (ts : List Str) (a b : Str) → contains (ts ++ a ∷ []) b ≡ false → contains ts b ≡ false
not-contains_before ts a b h = elim (Bool-cases (contains ts b)) [
  | inl e ↦ cc (contains_before ts a b e)
  | inr e ↦ e
]

str_eq_apart :
    (ts : List Str) (v w : Str) → contains ts v ≡ false → contains ts w ≡ true → str_eq w v ≡ false
str_eq_apart ts v w out inside = elim (Bool-cases (str_eq w v)) [
  | inl e ↦ cc (subst (λ x. contains ts x ≡ true) (eq_of_str_eq w v e) inside)
  | inr e ↦ e
]

IsPlan-insert :
    (start taken : List Str) (m : Plan) (k v : Str)
    → contains taken v ≡ false
    → IsPlan start taken m
    → IsPlan start (taken ++ v ∷ []) (insert k v m)
IsPlan-insert start taken m k v new h = record {
  fresh = AllValues-insert _ k v m (h.grows v new) h.fresh;
  used =
      AllValues-insert (λ x. contains (taken ++ v ∷ []) x ≡ true) k v m (contains_last taken v)
        (AllValues-mono _ _ m (λ w p. contains_before taken v w p) h.used);
  distinct =
      Distinct-insert k v m
        (AllValues-mono (λ w. contains taken w ≡ true) (λ w. str_eq w v ≡ false) m
          (λ w p. str_eq_apart taken v w new p) h.used)
        h.distinct;
  grows = λ x p. h.grows x (not-contains_before taken v x p);
}

renamed_free :
    (it : ClipItem) (taken : List Str)
    → length taken < range_size
    → contains taken (keep_or_number it.name it.is_dir taken paren_name) ≡ false
renamed_free it taken room =
    (contains-keep_or_number it.name it.is_dir taken paren_name
      (paren_name-IsDistinct it.name it.is_dir) room)

plan_loop-IsPlan :
    (start taken : List Str) (items : List ClipItem) (m : Plan)
    → length taken + length items ≤ range_size
    → IsPlan start taken m
    → AllValues (λ v. contains start v ≡ false) (plan_loop items taken m)
      × Distinct (plan_loop items taken m)
unfolding plan_loop
plan_loop-IsPlan start taken [] m room h = (h.fresh, h.distinct)
plan_loop-IsPlan start taken (it ∷ items) m room h =
    let v = keep_or_number it.name it.is_dir taken paren_name in
    plan_loop-IsPlan start (taken ++ v ∷ []) items (insert it.name v m)
      (omega (arith, length-append taken (v ∷ [])))
      (IsPlan-insert start taken m it.name v (renamed_free it taken (omega arith)) h)

plan_loop-HasEntry_old :
    (items : List ClipItem) (taken : List Str) (m : Plan) (k : Str)
    → HasEntry m k
    → HasEntry (plan_loop items taken m) k
unfolding plan_loop
plan_loop-HasEntry_old [] taken m k h = h
plan_loop-HasEntry_old (it ∷ items) taken m k h =
    let v = keep_or_number it.name it.is_dir taken paren_name in
    plan_loop-HasEntry_old items (taken ++ v ∷ []) (insert it.name v m) k
      (HasEntry-insert it.name v k m h)

plan_loop-HasEntry :
    (items : List ClipItem) (taken : List Str) (m : Plan)
    → All (λ it. HasEntry (plan_loop items taken m) it.name) items
unfolding plan_loop
plan_loop-HasEntry [] taken m = tt
plan_loop-HasEntry (it ∷ items) taken m =
    let v = keep_or_number it.name it.is_dir taken paren_name in
    (
      plan_loop-HasEntry_old items (taken ++ v ∷ []) (insert it.name v m) it.name
          (v, lookup-insert_self it.name v m),
      plan_loop-HasEntry items (taken ++ v ∷ []) (insert it.name v m),
    )

-- If the taken names and the items are together at most 2 ^ 32 - 2, every item of the
-- plan gets a name, no name of the plan is taken in the folder, and no two names of the plan are
-- the same.
pub plan_names_lem :
    (items : List ClipItem) (taken : List Str)
    → length taken + length items ≤ range_size
    → All (λ it. HasEntry (plan_names items taken) it.name) items
      × AllValues (λ v. contains taken v ≡ false) (plan_names items taken)
      × Distinct (plan_names items taken)
unfolding plan_names
plan_names_lem items taken room =
    let (fresh, distinct) =
      plan_loop-IsPlan taken taken items [] room
        (record { fresh = tt; used = tt; distinct = tt; grows = λ x p. p }) in
    (plan_loop-HasEntry items taken [], fresh, distinct)
