-- ===== src/Selection/Pipeline/Merged.antt =====
-- Merging by a key: it never raises, and leaves each key once.
use tuntu.Prelude.{
  ◌≡◌, inl, inr, refl, sym, ap, ◌∙◌, subst, Bool, false, ◌||◌, some, List, [], ◌∷◌, any, lookup,
  insert, All, Pairwise, Eq, ◌==◌, nat_eq, list_eq, pair_eq, arith, Bool-cases, Option-cases,
}
use tuntu.Errors.{Result, ok}
use tuntu.Selection.Pipeline.{merge_found, merge_all, values}

-- What a merge has to do, on values of a kind: succeed on two of one key, and keep the key and the kind.
pub record Merges {A K : Type 0} (P : A → Type 0) (key : A → K) (merge : A → A → Result A)
    : Type 0 where
  pub succeeds :
      (a b : A) → P a → P b → key a ≡ key b → (c : A) × (merge a b ≡ ok c) × (key c ≡ key a) × P c

module _ {A K : Type 0} ⦃e : Eq K⦄ where
  abbrev pub has_key : K → K × A → Bool
  has_key k (j, a) = j == k

  -- No key twice.
  abbrev pub IsDistinct : List (K × A) → Type 0
  IsDistinct d = Pairwise (λ (p : K × A) (q : K × A). (p.0 == q.0) ≡ false) d

  insert-apart :
      (i k : K) (a : A) (d : List (K × A))
      → (i == k) ≡ false
      → All (λ (q : K × A). (i == q.0) ≡ false) d
      → All (λ (q : K × A). (i == q.0) ≡ false) (insert k a d)
  insert-apart i k a [] h all = (h, tt)
  insert-apart i k a ((j, v) ∷ d) h all = elim (Bool-cases (j == k)) [
    | inl same ↦ rw same all
    | inr apart ↦ rw apart (all.0, insert-apart i k a d h all.1)
  ]

  pub insert-IsDistinct :
      (k : K) (a : A) (d : List (K × A)) → IsDistinct d → IsDistinct (insert k a d)
  insert-IsDistinct k a [] s = (tt, tt)
  insert-IsDistinct k a ((j, v) ∷ d) s = elim (Bool-cases (j == k)) [
    | inl same ↦ rw same s
    | inr apart ↦ rw apart (insert-apart j k a d apart s.0, insert-IsDistinct k a d s.1)
  ]

  insert-any :
      (k i : K) (a : A) (d : List (K × A))
      → any (has_key i) (insert k a d) ≡ (k == i || any (has_key i) d)
  insert-any k i a [] = refl
  insert-any k i a ((j, v) ∷ d) = ground (arith, insert-any k i a d, e.equal_iff j k)

module _ {A K : Type 0} ⦃e : Eq K⦄ {P : A → Type 0} (key : A → K) (merge : A → A → Result A)
    (m : Merges P key merge) where
  -- Each entry stands under its own key.
  abbrev pub IsOwn : K × A → Type 0
  IsOwn (k, a) = (key a ≡ k) × P a

  abbrev pub IsKeyed : List (K × A) → Type 0
  IsKeyed d = All IsOwn d × IsDistinct d

  same_value : (k : K) (v a : A) → IsOwn (k, v) → some v ≡ some a → IsOwn (k, a)
  same_value k v a (h, p) l = let same : v ≡ a = cc in (ap key (sym same) ∙ h, subst P same p)

  pub lookup-IsOwn :
      (k : K) (d : List (K × A)) {a : A} → All IsOwn d → lookup k d ≡ some a → IsOwn (k, a)
  lookup-IsOwn k [] h l = absurd (cc)
  lookup-IsOwn k ((j, v) ∷ d) {a = a} h l = elim (Bool-cases (j == k)) [
    | inl same ↦ same_value k v a (h.0.0 ∙ (e.equal_iff j k).0 same, h.0.1) (rw same at l)
    | inr apart ↦ lookup-IsOwn k d h.1 (rw apart at l)
  ]

  pub insert-IsOwn :
      (k : K) (a : A) (d : List (K × A)) → IsOwn (k, a) → All IsOwn d → All IsOwn (insert k a d)
  insert-IsOwn k a [] h all = (h, tt)
  insert-IsOwn k a ((j, v) ∷ d) h all = elim (Bool-cases (j == k)) [
    | inl same ↦ rw same ((h.0 ∙ sym ((e.equal_iff j k).0 same), h.1), all.1)
    | inr apart ↦ rw apart (all.0, insert-IsOwn k a d h all.1)
  ]

  -- One step: it succeeds, and the new value stands under the key of what came.
  merge_found-insert :
      (d : List (K × A)) (x : A)
      → All IsOwn d
      → P x
      → (c : A) × (merge_found key merge d x (lookup (key x) d) ≡ ok (insert (key x) c d))
        × IsOwn (key x, c)
  merge_found-insert d x h p = elim (Option-cases (lookup (key x) d)) [
    | inl missing ↦ (x, rw missing refl, (refl, p))
    | inr (old, there) ↦
        let own = lookup-IsOwn (key x) d h there in
        let (c, merged, kept, valid) = m.succeeds old x own.1 p own.0 in
        (c, rw (there, merged) refl, (kept ∙ own.0, valid))
  ]

  pub merge_all-IsKeyed :
      (d : List (K × A)) (xs : List A)
      → IsKeyed d
      → All P xs
      → (d' : List (K × A)) × (merge_all key merge d xs ≡ ok d')
        × IsKeyed d'
        × ((i : K) → any (has_key i) d' ≡ (any (λ x. key x == i) xs || any (has_key i) d))
  unfolding merge_all
  merge_all-IsKeyed d [] h ps = (d, refl, h, λ i. refl)
  merge_all-IsKeyed d (x ∷ xs) (own, apart) (p, ps) =
      let (c, step, own_c) = merge_found-insert d x own p in
      let (d', rest, keyed, keys) =
        merge_all-IsKeyed (insert (key x) c d) xs
          (insert-IsOwn (key x) c d own_c own, insert-IsDistinct (key x) c d apart) ps in
      (d', rw step rest, keyed, λ i. keys i ∙ ground (arith, insert-any (key x) i c d))

  values-any :
      (i : K) (d : List (K × A))
      → All IsOwn d
      → any (λ x. key x == i) (values d) ≡ any (has_key i) d
  values-any i [] h = refl
  values-any i ((k, a) ∷ d) h = rw (h.0.0) (ap (λ b. k == i || b) (values-any i d h.1))

  abbrev pub AreApart : A → A → Type 0
  AreApart a b = (key a == key b) ≡ false

  values-apart :
      (k : K) (a : A) (d : List (K × A))
      → key a ≡ k
      → All IsOwn d
      → All (λ (q : K × A). (k == q.0) ≡ false) d
      → All (AreApart a) (values d)
  values-apart k a [] same h apart = tt
  values-apart k a ((j, b) ∷ d) same h apart =
      (rw (same, h.0.0) apart.0, values-apart k a d same h.1 apart.1)

  values-AreApart : (d : List (K × A)) → IsKeyed d → Pairwise AreApart (values d)
  values-AreApart [] h = tt
  values-AreApart ((k, a) ∷ d) h =
      (values-apart k a d h.0.0.0 h.0.1 h.1.0, values-AreApart d (h.0.1, h.1.1))

  -- Merging succeeds; of the values no two have one key, and their keys are those of what came.
  pub merge_all-values :
      (xs : List A)
      → All P xs
      → (d : List (K × A)) × (merge_all key merge [] xs ≡ ok d)
        × Pairwise AreApart (values d)
        × ((i : K) → any (λ x. key x == i) (values d) ≡ any (λ x. key x == i) xs)
  merge_all-values xs ps =
      let (d, merged, keyed, keys) = merge_all-IsKeyed [] xs (tt, tt) ps in
      (d, merged, values-AreApart d keyed, λ i. values-any i d keyed.0 ∙ (keys i ∙ ground arith))
