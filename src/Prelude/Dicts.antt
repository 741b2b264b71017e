-- ===== src/Prelude/Dicts.antt =====
-- Python's `dict` with its insertion order, and `sorted` over texts and items.
use tuntu.Prelude.Tests.{Eq, nat_eq, ◌==◌, leb, if◌then◌else◌}
use tuntu.Prelude.Lists.{All, list_eq}
use tuntu.Prelude.Texts.{Text, text_le}
use Prim.Native.Nat.{ℕ}
use mathlib.Core.Path.{◌≡◌}
use mathlib.Core.Bool.{Bool}
use mathlib.Core.List.{List, [], ◌∷◌}
use mathlib.Core.Option.{Option, none, some}
use native.Mathlib.Omega.{arith}

module _ {ℓ κ} {K : Type ℓ} {V : Type κ} ⦃e : Eq K⦄ where
  -- `d.get(k)`
  abbrev pub lookup : K → List (K × V) → Option V
  lookup k [] = none
  lookup k ((j, v) ∷ m) = let rest = lookup k m in if j == k then some v else rest

  -- `d[k] = v`: a key that is there keeps its place.
  abbrev pub insert : K → V → List (K × V) → List (K × V)
  insert k v [] = (k, v) ∷ []
  insert k v ((j, w) ∷ m) = let rest = insert k v m in if j == k then (j, v) ∷ m else (j, w) ∷ rest

  pub lookup-insert :
      (k j : K) (v : V) (m : List (K × V))
      → lookup j (insert k v m) ≡ (if k == j then some v else lookup j m)
  lookup-insert k j v [] = ground arith
  lookup-insert k j v ((i, w) ∷ m) =
      ground (arith, e.equal_iff k j, e.equal_iff i k, e.equal_iff i j, lookup-insert k j v m)

-- `sorted` is stable: an element goes before the later ones that it does not exceed.
module _ {ℓ} {A : Type ℓ} (le : A → A → Bool) where
  abbrev pub insert_sorted : A → List A → List A
  insert_sorted x [] = x ∷ []
  insert_sorted x (y ∷ ys) =
      let rest = insert_sorted x ys in if le x y then x ∷ y ∷ ys else y ∷ rest

  abbrev pub sorted : List A → List A
  sorted [] = []
  sorted (x ∷ xs) = insert_sorted x (sorted xs)

module _ {ℓ κ} {A : Type ℓ} (P : A → Type κ) (le : A → A → Bool) where
  pub insert_sorted-All : (x : A) (ys : List A) → P x → All P ys → All P (insert_sorted le x ys)
  insert_sorted-All x [] h t = (h, tt)
  insert_sorted-All x (y ∷ ys) h t = ground (arith, insert_sorted-All x ys h t.1)

  pub sorted-All : (xs : List A) → All P xs → All P (sorted le xs)
  sorted-All [] h = tt
  sorted-All (x ∷ xs) h = insert_sorted-All x (sorted le xs) h.0 (sorted-All xs h.1)

-- `sorted({…})` of texts: in order, each once.
abbrev pub insert_text : Text → List Text → List Text
insert_text t [] = t ∷ []
insert_text t (u ∷ us) =
    let rest = insert_text t us in
    if t == u then u ∷ us else if text_le t u then t ∷ u ∷ us else u ∷ rest

-- The order of the items `(path, size)` as tuples.
abbrev pub item_le : Text × ℕ → Text × ℕ → Bool
item_le (p, m) (q, n) = if p == q then leb m n else text_le p q
