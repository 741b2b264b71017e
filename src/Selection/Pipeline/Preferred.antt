-- ===== src/Selection/Pipeline/Preferred.antt =====
-- Which candidates the pipeline prefers, said of their seeders, sizes and texts.
use tuntu.Prelude.{
  ℕ, ◌<◌, ◌≡◌, ◌⊎◌, inl, inr, refl, ap, Bool, true, false, Option, none, some, List, [], ◌∷◌, Text,
  All, All-map, Pairwise, In, leb, text_le, list_le, lex, arith, if◌then◌else◌,
}
use tuntu.Errors.{ok}
use tuntu.Selection.Candidates.{Candidate, seeders, size_mb, candidate_sources}
use tuntu.Selection.Rules.{RuleSet, Evaluation}
use tuntu.Selection.Ranking.{
  absent, or_zero, key_le, candidate_sort_key, evaluation_sort_key, evaluation_le,
}
use tuntu.Selection.Ranking.Best.{NoBetter, IsChoice}
use tuntu.Selection.Pipeline.{ContentResult, DiscoverySource, CandidateSource, discover}
use tuntu.Selection.Pipeline.Results.{IsResult, discover-IsResult}

-- More seeders: a known number before an unknown one.
pub data More : Option ℕ → Option ℕ → Type 0 where
  known_number : (m : ℕ) → More (some m) none
  greater : (m n : ℕ) → n < m → More (some m) (some n)

-- A smaller size, likewise.
pub data Less : Option ℕ → Option ℕ → Type 0 where
  known_size : (m : ℕ) → Less (some m) none
  smaller : (m n : ℕ) → m < n → Less (some m) (some n)

abbrev pub texts_le : Text × List Text → Text × List Text → Bool
texts_le = lex text_le (list_le text_le)

-- First come more seeders, then a smaller size, then the BTIH and the sources in the order of text.
pub data Comes (o p s t : Option ℕ) (x y : Text × List Text) : Type 0 where
  by_seeders : More o p → Comes o p s t x y
  by_size : o ≡ p → Less s t → Comes o p s t x y
  by_texts : o ≡ p → s ≡ t → texts_le x y ≡ true → Comes o p s t x y

size_first :
    (s t : Option ℕ) (x y : Text × List Text)
    → lex leb (lex leb texts_le) (absent s, (or_zero s, x)) (absent t, (or_zero t, y)) ≡ true
    → Less s t ⊎ ((s ≡ t) × (texts_le x y ≡ true))
size_first none none x y h = inr (refl, ground (arith, h))
size_first none (some n) x y h = absurd (ground (arith, h))
size_first (some m) none x y h = inl (known_size m)
size_first (some m) (some n) x y h = elim (leb_cases m n (ground (arith, h))) [
  | inl less ↦ inl (smaller m n less)
  | inr same ↦ inr (ap some same, ground (arith, h, same))
]
  where
    leb_cases : (m n : ℕ) → leb m n ≡ true → (m < n) ⊎ (m ≡ n)
    leb_cases m n h = ground (arith, h)

seeders_first :
    (o p s t : Option ℕ) (x y : Text × List Text)
    → key_le
        (absent o, (or_zero o, (absent s, (or_zero s, x))))
        (absent p, (or_zero p, (absent t, (or_zero t, y))))
      ≡ true
    → More o p
      ⊎ ((o ≡ p)
          × (lex leb (lex leb texts_le) (absent s, (or_zero s, x)) (absent t, (or_zero t, y))
              ≡ true))
seeders_first none none s t x y h = inr (refl, ground (arith, h))
seeders_first none (some n) s t x y h = absurd (ground (arith, h))
seeders_first (some m) none s t x y h = inl (known_number m)
seeders_first (some m) (some n) s t x y h = elim (leb_cases m n (ground (arith, h))) [
  | inl more ↦ inl (greater m n more)
  | inr same ↦ inr (ap some same, ground (arith, h, same))
]
  where
    leb_cases : (m n : ℕ) → leb n m ≡ true → (n < m) ⊎ (m ≡ n)
    leb_cases m n h = ground (arith, h)

key-Comes :
    (o p s t : Option ℕ) (x y : Text × List Text)
    → key_le
        (absent o, (or_zero o, (absent s, (or_zero s, x))))
        (absent p, (or_zero p, (absent t, (or_zero t, y))))
      ≡ true
    → Comes o p s t x y
key-Comes o p s t x y h = elim (seeders_first o p s t x y h) [
  | inl more ↦ by_seeders more
  | inr (same, rest) ↦ elim (size_first s t x y rest) [
    | inl less ↦ by_size same less
    | inr (equal, texts) ↦ by_texts same equal texts
  ]
]

module _ (casefold : Text → Text) where
  abbrev pub Preferred : Candidate → Candidate → Type 0
  Preferred c d =
      Comes (seeders c) (seeders d) (size_mb c) (size_mb d) (c.btih, candidate_sources casefold c)
        (d.btih, candidate_sources casefold d)

  -- Accepted evaluations stand first; among those and among the others, the preferred ones do.
  pub data Before (d e : Evaluation) : Type 0 where
    accepted_first : d.accepted ≡ true → e.accepted ≡ false → Before d e
    preferred : d.accepted ≡ e.accepted → Preferred d.candidate e.candidate → Before d e

  -- Nothing is best where nothing is accepted; otherwise an accepted candidate that is preferred to
  -- each accepted one.
  abbrev pub IsBest : List Evaluation → Option Candidate → Type 0
  IsBest es none = All (λ (e : Evaluation). e.accepted ≡ false) es
  IsBest es (some c) =
      ((e : Evaluation) × In e es × (e.accepted ≡ true) × (e.candidate ≡ c))
      × All (λ (e : Evaluation). (e.accepted ≡ false) ⊎ Preferred c e.candidate) es

  key-Preferred :
      (c d : Candidate)
      → key_le (candidate_sort_key casefold c) (candidate_sort_key casefold d) ≡ true
      → Preferred c d
  unfolding candidate_sort_key
  key-Preferred c d h = key-Comes (seeders c) (seeders d) (size_mb c) (size_mb d) _ _ h

  rank-Before :
      (d e : Evaluation) (a b : Bool)
      → d.accepted ≡ a
      → e.accepted ≡ b
      → lex leb key_le
          ((if a then 0 else 1), candidate_sort_key casefold d.candidate)
          ((if b then 0 else 1), candidate_sort_key casefold e.candidate)
        ≡ true
      → Before d e
  rank-Before d e true true u v h =
      preferred (ground (arith, u, v)) (key-Preferred d.candidate e.candidate (ground (arith, h)))
  rank-Before d e true false u v h = accepted_first u v
  rank-Before d e false true u v h = absurd (ground (arith, h))
  rank-Before d e false false u v h =
      preferred (ground (arith, u, v)) (key-Preferred d.candidate e.candidate (ground (arith, h)))

  evaluation_le-Before : (d e : Evaluation) → evaluation_le casefold d e ≡ true → Before d e
  unfolding evaluation_le evaluation_sort_key
  evaluation_le-Before d e h = rank-Before d e d.accepted e.accepted refl refl h

  all-Before :
      (es : List Evaluation)
      → Pairwise (λ d e. evaluation_le casefold d e ≡ true) es
      → Pairwise Before es
  all-Before [] h = tt
  all-Before (e ∷ es) h = (All-map es (λ d k. evaluation_le-Before e d k) h.0, all-Before es h.1)

  choice-IsBest :
      (es : List Evaluation) (o : Option Candidate) → IsChoice casefold es o → IsBest es o
  choice-IsBest es none h = h
  choice-IsBest es (some c) h = (
    h.0,
    All-map es
        (λ (e : Evaluation) (k : NoBetter casefold c e). elim k [
          | inl bad ↦ inl bad
          | inr le ↦ inr (key-Preferred c e.candidate le)
        ])
        h.1,
  )

  -- Where discover returns, the evaluations of each result stand with the accepted ones first, and
  -- among those with more seeders first, a known number before an unknown one; then with a smaller
  -- size, likewise; then by BTIH and sources. What is selected is an accepted candidate that is
  -- preferred in this way to each accepted one, and nothing exactly where none is accepted.
  pub discover-selects :
      (discovery : List DiscoverySource) (sources : List CandidateSource) (rules : RuleSet)
      (scope : Text) {results : List ContentResult}
      → discover casefold discovery sources rules scope ≡ ok results
      → All
          (λ (r : ContentResult). Pairwise Before r.evaluations × IsBest r.evaluations r.selection)
          results
  discover-selects discovery sources rules scope {results = results} h =
      All-map results
        (λ (r : ContentResult) (k : IsResult casefold r).
          (all-Before r.evaluations k.order, choice-IsBest r.evaluations r.selection k.choice))
        (discover-IsResult casefold discovery sources rules scope h)
