-- ===== src/Prelude/Orders.antt =====
-- Orders as Python compares: by a key, tuple by tuple; and what sorting by one gives.
use Prim.Native.Nat.{suc, ℕ}
use mathlib.Core.Path.{◌≡◌, refl, ap, ◌∙◌}
use mathlib.Core.Logic.{◌⊎◌, inl, inr}
use mathlib.Core.Bool.{Bool, true, false, ◌||◌}
use mathlib.Core.List.{List, [], ◌∷◌}
use native.Mathlib.Omega.{arith}
use tuntu.Prelude.Tests.{nat_eq, leb, if◌then◌else◌, Bool-cases}
use tuntu.Prelude.Lists.{All, All-map, Pairwise, length, keep, any}
use tuntu.Prelude.Texts.{Text, text_le}
use tuntu.Prelude.Dicts.{insert_sorted, sorted, insert_sorted-All, sorted-All}

-- A total preorder. Keys that compare both ways are ties.
pub record IsOrder {ℓ} {A : Type ℓ} (le : A → A → Bool) : Type ℓ where
  pub total : (a b : A) → (le a b ≡ true) ⊎ (le b a ≡ true)
  pub trans : (a b c : A) → le a b ≡ true → le b c ≡ true → le a c ≡ true

-- `(a, b) <= (c, d)`: the second parts decide only a tie of the first.
abbrev pub lex {ℓ κ} :
    {A : Type ℓ} {B : Type κ} → (A → A → Bool) → (B → B → Bool) → A × B → A × B → Bool
lex le1 le2 (a, b) (c, d) = if le1 a c then (if le1 c a then le2 b d else true) else false

-- `key=f`
abbrev pub by {ℓ κ} : {A : Type ℓ} {B : Type κ} → (A → B) → (B → B → Bool) → A → A → Bool
by f le a b = le (f a) (f b)

abbrev pub converse {ℓ} : {A : Type ℓ} → (A → A → Bool) → A → A → Bool
converse le a b = le b a

abbrev pub list_le {ℓ} : {A : Type ℓ} → (A → A → Bool) → List A → List A → Bool
list_le le [] ys = true
list_le le (x ∷ xs) [] = false
list_le le (x ∷ xs) (y ∷ ys) =
    let rest = list_le le xs ys in if le x y then (if le y x then rest else true) else false

pub leb-IsOrder : IsOrder leb
leb-IsOrder = record { total = λ a b. ground arith; trans = λ a b c h k. ground arith }

text_le_total : (s t : Text) → (text_le s t ≡ true) ⊎ (text_le t s ≡ true)
text_le_total [] t = inl refl
text_le_total (c ∷ s) [] = inr refl
text_le_total (c ∷ s) (d ∷ t) = ground (arith, text_le_total s t)

text_le_trans : (r s t : Text) → text_le r s ≡ true → text_le s t ≡ true → text_le r t ≡ true
text_le_trans [] s t h k = refl
text_le_trans (b ∷ r) [] t h k = absurd (cc)
text_le_trans (b ∷ r) (c ∷ s) [] h k = absurd (cc)
text_le_trans (b ∷ r) (c ∷ s) (d ∷ t) h k = ground (arith, text_le_trans r s t)

pub text_le-IsOrder : IsOrder text_le
text_le-IsOrder = record { total = text_le_total; trans = text_le_trans }

module _ {ℓ κ} {A : Type ℓ} {B : Type κ} where
  pub lex-IsOrder :
      {le1 : A → A → Bool} {le2 : B → B → Bool} → IsOrder le1 → IsOrder le2 → IsOrder (lex le1 le2)
  lex-IsOrder {le1 = le1} {le2 = le2} o p = record {
    total = λ (a, b) (c, d). ground (arith, o.total a c, p.total b d);
    trans = λ (a, b) (c, d) (e, f) h k.
        ground (arith, h, k, o.trans a c e, o.trans e a c, o.trans c e a, p.trans b d f);
  }

  pub by-IsOrder : {le : B → B → Bool} (f : A → B) → IsOrder le → IsOrder (by f le)
  by-IsOrder f o = record {
    total = λ a b. o.total (f a) (f b);
    trans = λ a b c. o.trans (f a) (f b) (f c);
  }

module _ {ℓ} {A : Type ℓ} {le : A → A → Bool} (o : IsOrder le) where
  pub converse-IsOrder : IsOrder (converse le)
  converse-IsOrder = record { total = λ a b. o.total b a; trans = λ a b c h k. o.trans c b a k h }

  list_le_total : (xs ys : List A) → (list_le le xs ys ≡ true) ⊎ (list_le le ys xs ≡ true)
  list_le_total [] ys = inl refl
  list_le_total (x ∷ xs) [] = inr refl
  list_le_total (x ∷ xs) (y ∷ ys) = ground (arith, o.total x y, list_le_total xs ys)

  list_le_trans :
      (xs ys zs : List A)
      → list_le le xs ys ≡ true
      → list_le le ys zs ≡ true
      → list_le le xs zs ≡ true
  list_le_trans [] ys zs h k = refl
  list_le_trans (x ∷ xs) [] zs h k = absurd (cc)
  list_le_trans (x ∷ xs) (y ∷ ys) [] h k = absurd (cc)
  list_le_trans (x ∷ xs) (y ∷ ys) (z ∷ zs) h k =
      ground (arith, h, k, o.trans x y z, o.trans z x y, o.trans y z x, list_le_trans xs ys zs)

  pub list_le-IsOrder : IsOrder (list_le le)
  list_le-IsOrder = record { total = list_le_total; trans = list_le_trans }

  abbrev pub IsBelow : A → List A → Type 0
  IsBelow a xs = All (λ x. le a x ≡ true) xs

  insert_sorted-IsSorted :
      (x : A) (ys : List A)
      → Pairwise (λ a b. le a b ≡ true) ys
      → Pairwise (λ a b. le a b ≡ true) (insert_sorted le x ys)
  insert_sorted-IsSorted x [] s = (tt, tt)
  insert_sorted-IsSorted x (y ∷ ys) s = elim (Bool-cases (le x y)) [
    | inl e ↦ rw e ((e, All-map ys (λ z k. o.trans x y z e k) s.0), s)
    | inr e ↦ rw e (
      insert_sorted-All (λ z. le y z ≡ true) le x ys (other x y e) s.0,
      insert_sorted-IsSorted x ys s.1,
    )
  ]
    where
      other : (x y : A) → le x y ≡ false → le y x ≡ true
      other x y e = ground (arith, o.total x y, e)

  -- Sorting by an order gives a sorted list.
  pub sorted-IsSorted : (xs : List A) → Pairwise (λ a b. le a b ≡ true) (sorted le xs)
  sorted-IsSorted [] = tt
  sorted-IsSorted (x ∷ xs) = insert_sorted-IsSorted x (sorted le xs) (sorted-IsSorted xs)

module _ {ℓ} {A : Type ℓ} (le : A → A → Bool) where
  length-insert_sorted : (x : A) (ys : List A) → length (insert_sorted le x ys) ≡ suc (length ys)
  length-insert_sorted x [] = refl
  length-insert_sorted x (y ∷ ys) = ground (arith, length-insert_sorted x ys)

  pub length-sorted : (xs : List A) → length (sorted le xs) ≡ length xs
  length-sorted [] = refl
  length-sorted (x ∷ xs) = length-insert_sorted x (sorted le xs) ∙ ap suc (length-sorted xs)

-- How many elements pass a test.
abbrev pub count {ℓ} : {A : Type ℓ} → (A → Bool) → List A → ℕ
count p xs = length (keep p xs)

module _ {ℓ} {A : Type ℓ} (p : A → Bool) (le : A → A → Bool) where
  count-insert_sorted : (x : A) (ys : List A) → count p (insert_sorted le x ys) ≡ count p (x ∷ ys)
  count-insert_sorted x [] = refl
  count-insert_sorted x (y ∷ ys) = ground (arith, count-insert_sorted x ys)

  -- Sorting loses no element and makes none.
  pub count-sorted : (xs : List A) → count p (sorted le xs) ≡ count p xs
  count-sorted [] = refl
  count-sorted (x ∷ xs) = ground (arith, count-insert_sorted x (sorted le xs), count-sorted xs)

-- Membership by recursion, with the place kept.
abbrev pub In : {A : Type 0} → A → List A → Type 0
In a [] = ⊥
In a (x ∷ xs) = (x ≡ a) ⊎ In a xs

module _ {A : Type 0} (le : A → A → Bool) where
  insert_sorted-In : (a x : A) (ys : List A) → In a (insert_sorted le x ys) → In a (x ∷ ys)
  insert_sorted-In a x [] m = m
  insert_sorted-In a x (y ∷ ys) m = elim (Bool-cases (le x y)) [
    | inl e ↦ rw e at m
    | inr e ↦ behind a x y ys (insert_sorted-In a x ys) (rw e at m)
  ]
    where
      behind :
          (a x y : A) (ys : List A)
          → (In a (insert_sorted le x ys) → In a (x ∷ ys))
          → In a (y ∷ insert_sorted le x ys)
          → In a (x ∷ y ∷ ys)
      behind a x y ys k (inl e) = inr (inl e)
      behind a x y ys k (inr m) = elim (k m) [ inl e ↦ inl e | inr n ↦ inr (inr n) ]

  pub sorted-In : (a : A) (xs : List A) → In a (sorted le xs) → In a xs
  sorted-In a [] m = m
  sorted-In a (x ∷ xs) m = elim (insert_sorted-In a x (sorted le xs) m) [
    | inl e ↦ inl e
    | inr n ↦ inr (sorted-In a xs n)
  ]

module _ {ℓ κ} {A : Type ℓ} (P : A → Type κ) (le : A → A → Bool) where
  unsorted_insert : (x : A) (ys : List A) → All P (insert_sorted le x ys) → P x × All P ys
  unsorted_insert x [] h = h
  unsorted_insert x (y ∷ ys) h = elim (Bool-cases (le x y)) [
    | inl e ↦ rw e at h
    | inr e ↦
        let k : P y × All P (insert_sorted le x ys) = rw e at h in
        let (first, rest) = unsorted_insert x ys k.1 in (first, (k.0, rest))
  ]

  -- What holds of all of the sorted list holds of all of the list.
  pub All-of_sorted : (xs : List A) → All P (sorted le xs) → All P xs
  All-of_sorted [] h = tt
  All-of_sorted (x ∷ xs) h =
      let (first, rest) = unsorted_insert x (sorted le xs) h in (first, All-of_sorted xs rest)

module _ {ℓ} {A : Type ℓ} (p : A → Bool) (le : A → A → Bool) where
  any-insert_sorted : (x : A) (ys : List A) → any p (insert_sorted le x ys) ≡ (p x || any p ys)
  any-insert_sorted x [] = refl
  any-insert_sorted x (y ∷ ys) = ground (arith, any-insert_sorted x ys)

  pub any-sorted : (xs : List A) → any p (sorted le xs) ≡ any p xs
  any-sorted [] = refl
  any-sorted (x ∷ xs) = any-insert_sorted x (sorted le xs) ∙ ap (λ b. p x || b) (any-sorted xs)

module _ {ℓ κ} {A : Type ℓ} (R : A → A → Type κ) (symmetric : (a b : A) → R a b → R b a)
    (le : A → A → Bool) where
  insert_sorted-Pairwise :
      (x : A) (ys : List A) → All (R x) ys → Pairwise R ys → Pairwise R (insert_sorted le x ys)
  insert_sorted-Pairwise x [] h s = (tt, tt)
  insert_sorted-Pairwise x (y ∷ ys) h s = elim (Bool-cases (le x y)) [
    | inl e ↦ rw e (h, s)
    | inr e ↦ rw e (
      insert_sorted-All (R y) le x ys (symmetric x y h.0) s.0,
      insert_sorted-Pairwise x ys h.1 s.1,
    )
  ]

  -- A symmetric relation between every two elements outlasts sorting.
  pub sorted-Pairwise : (xs : List A) → Pairwise R xs → Pairwise R (sorted le xs)
  sorted-Pairwise [] s = tt
  sorted-Pairwise (x ∷ xs) s =
      insert_sorted-Pairwise x (sorted le xs) (sorted-All (R x) le xs s.0) (sorted-Pairwise xs s.1)
