-- ===== src/Magnet/Hashes.antt =====
-- Which pairs of a query are v1 hashes, said of their text: `xt=urn:btih:…` in any letter case.
use tuntu.Prelude.{
  ℕ, ◌≡◌, refl, sym, ap, ◌∙◌, subst, false, Option, none, some, List, [], ◌∷◌, ◌++◌, Text, All,
  codes, ◌==◌, nat_eq, list_eq, list_beq_iff, arith, Bool-cases, inl, inr,
}
use tuntu.Magnet.{Urls, partition_colon, before_colon, after_urn, after_xt, raw_btih, split_pairs}

abbrev pub NoColon : Text → Type 0
NoColon = All (λ c. (c == b':') ≡ false)

-- The pair is `xt=<urn>:<btih>:<hash>`, where key and prefixes fold to these words.
pub record IsHash (u : Urls) (pair : Text × Text) (hash : Text) : Type 0 where
  pub prefix : Text
  pub kind : Text
  pub value : pair.1 ≡ prefix ++ b':' ∷ (kind ++ b':' ∷ hash)
  pub prefix_ends : NoColon prefix
  pub kind_ends : NoColon kind
  pub xt : u.casefold pair.0 ≡ codes "xt"
  pub urn : u.casefold prefix ≡ codes "urn"
  pub btih : u.casefold kind ≡ codes "btih"

-- The hashes of a query and its other pairs, each in order.
pub data Splits (u : Urls) : List (Text × Text) → List Text → List (Text × Text) → Type 0 where
  at_end : Splits u [] [] []
  a_hash :
      {pair : Text × Text} {hash : Text} {pairs : List (Text × Text)} {hashes : List Text}
      {parameters : List (Text × Text)}
      → IsHash u pair hash
      → Splits u pairs hashes parameters
      → Splits u (pair ∷ pairs) (hash ∷ hashes) parameters
  a_parameter :
      {pair : Text × Text} {pairs : List (Text × Text)} {hashes : List Text}
      {parameters : List (Text × Text)}
      → ¬ ((hash : Text) × IsHash u pair hash)
      → Splits u pairs hashes parameters
      → Splits u (pair ∷ pairs) hashes (pair ∷ parameters)

before_colon-some :
    (c : ℕ) (o : Option (Text × Text)) {a b : Text}
    → before_colon c o ≡ some (a, b)
    → (a' : Text) × (o ≡ some (a', b)) × (a ≡ c ∷ a')
unfolding before_colon
before_colon-some c none h = absurd (cc)
before_colon-some c (some (x, y)) {a = a} {b = b} h =
    let tail : y ≡ b = ap (λ (o : Option (Text × Text)). elim o [ none ↦ y | some p ↦ p.1 ]) h in
    let head : (c ∷ x) ≡ a =
      ap (λ (o : Option (Text × Text)). elim o [ none ↦ c ∷ x | some p ↦ p.0 ]) h in
    (x, ap (λ (t : Text). some (x, t)) tail, sym head)

partition_colon-some :
    (s : Text) {a b : Text} → partition_colon s ≡ some (a, b) → (s ≡ a ++ b':' ∷ b) × NoColon a
unfolding partition_colon
partition_colon-some [] h = absurd (cc)
partition_colon-some (c ∷ s) {a = a} {b = b} h = elim (Bool-cases (c == b':')) [
  | inl colon ↦
      let here : c ≡ b':' = ground (arith, colon) in
      let k : some ([], s) ≡ some (a, b) = rw colon at h in
      let tail : s ≡ b = ap (λ (o : Option (Text × Text)). elim o [ none ↦ s | some p ↦ p.1 ]) k in
      let head : [] ≡ a =
        ap (λ (o : Option (Text × Text)). elim o [ none ↦ [] | some p ↦ p.0 ]) k in
      subst (λ (t : Text). ((c ∷ s) ≡ t ++ b':' ∷ b) × NoColon t) head
        (ap (λ (n : ℕ). n ∷ s) here ∙ ap (λ (t : Text). b':' ∷ t) tail, tt)
  | inr plain ↦
      let (a', there, same) = before_colon-some c (partition_colon s) (rw plain at h) in
      let (whole, ends) = partition_colon-some s there in
      subst (λ (t : Text). ((c ∷ s) ≡ t ++ b':' ∷ b) × NoColon t) (sym same)
        (ap (λ (t : Text). c ∷ t) whole, (plain, ends))
]

partition_colon_at : (a b : Text) → NoColon a → partition_colon (a ++ b':' ∷ b) ≡ some (a, b)
unfolding partition_colon before_colon
partition_colon_at [] b ends = refl
partition_colon_at (c ∷ a) b ends = rw (ends.0, partition_colon_at a b ends.1) refl

module _ (u : Urls) where
  after_urn-some :
      (o : Option (Text × Text)) {hash : Text}
      → after_urn u o ≡ some hash
      → (kind : Text) × (o ≡ some (kind, hash)) × (u.casefold kind ≡ codes "btih")
  unfolding after_urn
  after_urn-some none h = absurd (cc)
  after_urn-some (some (kind, x)) {hash = hash} h =
      elim (Bool-cases (u.casefold kind == codes "btih")) [
        | inl btih ↦
            let k : some x ≡ some hash = rw btih at h in
            let same : x ≡ hash = ap (λ (o : Option Text). elim o [ none ↦ x | some t ↦ t ]) k in
            (
              kind,
              ap (λ (t : Text). some (kind, t)) same,
              (list_beq_iff (u.casefold kind) (codes "btih")).0 btih,
            )
        | inr other ↦ absurd (ground (arith, h, other))
      ]

  after_xt-some :
      (o : Option (Text × Text)) {hash : Text}
      → after_xt u o ≡ some hash
      → (prefix : Text) × (rest : Text) × (o ≡ some (prefix, rest))
        × (u.casefold prefix ≡ codes "urn")
        × (after_urn u (partition_colon rest) ≡ some hash)
  unfolding after_xt
  after_xt-some none h = absurd (cc)
  after_xt-some (some (prefix, rest)) h = elim (Bool-cases (u.casefold prefix == codes "urn")) [
    | inl urn ↦
        (prefix, rest, refl, (list_beq_iff (u.casefold prefix) (codes "urn")).0 urn, rw urn at h)
    | inr other ↦ absurd (ground (arith, h, other))
  ]

  raw_btih-IsHash :
      (pair : Text × Text) {hash : Text} → raw_btih u pair ≡ some hash → IsHash u pair hash
  unfolding raw_btih
  raw_btih-IsHash (key, value) {hash = hash} h = elim (Bool-cases (u.casefold key == codes "xt")) [
    | inl xt ↦
        let (prefix, rest, first, urn, more) = after_xt-some (partition_colon value) (rw xt at h) in
        let (kind, second, btih) = after_urn-some (partition_colon rest) more in
        let (whole, prefix_ends) = partition_colon-some value first in
        let (tail, kind_ends) = partition_colon-some rest second in
        record {
          prefix = prefix;
          kind = kind;
          value = whole ∙ ap (λ (t : Text). prefix ++ b':' ∷ t) tail;
          prefix_ends = prefix_ends;
          kind_ends = kind_ends;
          xt = (list_beq_iff (u.casefold key) (codes "xt")).0 xt;
          urn = urn;
          btih = btih;
        }
    | inr other ↦ absurd (ground (arith, h, other))
  ]

  raw_btih_of_hash :
      (pair : Text × Text) (hash : Text) → IsHash u pair hash → raw_btih u pair ≡ some hash
  unfolding raw_btih after_xt after_urn
  raw_btih_of_hash (key, value) hash p =
      rw
        (
          p.xt,
          p.value,
          partition_colon_at p.prefix (p.kind ++ b':' ∷ hash) p.prefix_ends,
          p.urn,
          partition_colon_at p.kind hash p.kind_ends,
          p.btih,
        )
        refl

  split_step :
      (pair : Text × Text) (pairs : List (Text × Text)) (o : Option Text)
      → raw_btih u pair ≡ o
      → Splits u pairs (split_pairs u pairs).0 (split_pairs u pairs).1
      → Splits u (pair ∷ pairs) (split_pairs u (pair ∷ pairs)).0 (split_pairs u (pair ∷ pairs)).1
  unfolding split_pairs
  split_step pair pairs none e s =
      let plain : ¬ ((hash : Text) × IsHash u pair hash) =
        λ (hash, p). absurd (ground (arith, sym e ∙ raw_btih_of_hash pair hash p)) in
      rw (e, split_pairs) (a_parameter plain s)
  split_step pair pairs (some hash) e s = rw (e, split_pairs) (a_hash (raw_btih-IsHash pair e) s)

  pub split_pairs-Splits :
      (pairs : List (Text × Text)) → Splits u pairs (split_pairs u pairs).0 (split_pairs u pairs).1
  unfolding split_pairs
  split_pairs-Splits [] = at_end
  split_pairs-Splits (pair ∷ pairs) =
      split_step pair pairs (raw_btih u pair) refl (split_pairs-Splits pairs)

  split_parameter :
      (pair : Text × Text) (pairs : List (Text × Text)) {hashes : List Text}
      {parameters : List (Text × Text)}
      → ¬ ((hash : Text) × IsHash u pair hash)
      → split_pairs u pairs ≡ (hashes, parameters)
      → (o : Option Text) → raw_btih u pair ≡ o
      → split_pairs u (pair ∷ pairs) ≡ (hashes, pair ∷ parameters)
  unfolding split_pairs
  split_parameter pair pairs plain rest none e = rw (e, split_pairs, rest) refl
  split_parameter pair pairs plain rest (some hash) e =
      absurd (plain (hash, raw_btih-IsHash pair e))

  -- There is one way to split a query.
  pub split_pairs_of_Splits :
      {pairs : List (Text × Text)} {hashes : List Text} {parameters : List (Text × Text)}
      → Splits u pairs hashes parameters
      → split_pairs u pairs ≡ (hashes, parameters)
  unfolding split_pairs
  split_pairs_of_Splits at_end = refl
  split_pairs_of_Splits (a_hash {pair = pair} {hash = hash} p s) =
      rw (raw_btih_of_hash pair hash p, split_pairs, split_pairs_of_Splits s) refl
  split_pairs_of_Splits (a_parameter {pair = pair} {pairs = pairs} plain s) =
      split_parameter pair pairs plain (split_pairs_of_Splits s) (raw_btih u pair) refl
