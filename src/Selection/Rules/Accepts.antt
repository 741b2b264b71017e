-- ===== src/Selection/Rules/Accepts.antt =====
-- What a rule set accepts, said without its reasons.
use tuntu.Prelude.{
  ℕ, ◌≡◌, ◌↔◌, inl, inr, refl, Bool, true, false, not, ◌&&◌, Option, none, some, List, [], ◌∷◌,
  ◌++◌, any, first, Text, is_empty, arith, ◌≤◌, All, Bool-cases,
}
use tuntu.Selection.Evidence.{TruthValue, yes_value, no_value, unknown_value}
use tuntu.Selection.Candidates.{
  Candidate, chinese_subtitles, uncensored, uhd, size_mb, seeders, search_text,
}
use tuntu.Selection.Rules.{
  RuleReason, when, excluded, RuleMode, any_mode, only_mode, exclude_mode, RuleSet, evaluate_truth,
  evaluate_size, evaluate_seeders, evaluate_keywords, evaluate, hits, trimmed,
}

-- Only what is known to be so passes `only`; what is not known passes `exclude`.
abbrev pub PassesMode : RuleMode → TruthValue → Type 0
PassesMode any_mode value = Unit
PassesMode only_mode value = value ≡ yes_value
PassesMode exclude_mode yes_value = ⊥
PassesMode exclude_mode value = Unit

-- A bound asks for a size that is known.
abbrev pub AtLeast : Option ℕ → Option ℕ → Type 0
AtLeast none n = Unit
AtLeast (some least) none = ⊥
AtLeast (some least) (some n) = least ≤ n

abbrev pub AtMost : Option ℕ → Option ℕ → Type 0
AtMost none n = Unit
AtMost (some most) none = ⊥
AtMost (some most) (some n) = n ≤ most

-- One of the keywords, if there are any.
abbrev pub AnyOf : List Text → (Text → Bool) → Type 0
AnyOf [] hit = Unit
AnyOf (k ∷ ks) hit = any hit (k ∷ ks) ≡ true

abbrev pub NoneOf : List Text → (Text → Bool) → Type 0
NoneOf ks hit = All (λ k. hit k ≡ false) ks

evaluate_truth_iff :
    (name label : Text) (mode : RuleMode) (value : TruthValue)
    → (is_empty (evaluate_truth name label mode value) ≡ true) ↔ PassesMode mode value
unfolding evaluate_truth
evaluate_truth_iff name label any_mode value = (λ h. tt, λ h. refl)
evaluate_truth_iff name label only_mode yes_value = (λ h. refl, λ h. refl)
evaluate_truth_iff name label only_mode no_value = (λ h. cc, λ h. absurd (ground arith))
evaluate_truth_iff name label only_mode unknown_value = (λ h. cc, λ h. absurd (ground arith))
evaluate_truth_iff name label exclude_mode yes_value = (λ h. cc, λ h. absurd h)
evaluate_truth_iff name label exclude_mode no_value = (λ h. tt, λ h. refl)
evaluate_truth_iff name label exclude_mode unknown_value = (λ h. tt, λ h. refl)

evaluate_size_iff :
    (least most size : Option ℕ)
    → (is_empty (evaluate_size least most size) ≡ true) ↔ (AtLeast least size × AtMost most size)
unfolding evaluate_size
evaluate_size_iff none none size = (λ h. (tt, tt), λ h. refl)
evaluate_size_iff (some l) none none = (λ h. absurd (cc), λ h. absurd h.0)
evaluate_size_iff (some l) none (some n) = (λ h. (ground arith, tt), λ h. ground arith)
evaluate_size_iff none (some m) none = (λ h. absurd (cc), λ h. absurd h.1)
evaluate_size_iff none (some m) (some n) = (λ h. (tt, ground arith), λ h. ground arith)
evaluate_size_iff (some l) (some m) none = (λ h. absurd (cc), λ h. absurd h.0)
evaluate_size_iff (some l) (some m) (some n) =
    (λ h. (ground arith, ground arith), λ h. ground arith)

evaluate_seeders_iff :
    (least n : Option ℕ) → (is_empty (evaluate_seeders least n) ≡ true) ↔ AtLeast least n
unfolding evaluate_seeders
evaluate_seeders_iff none n = (λ h. tt, λ h. refl)
evaluate_seeders_iff (some l) none = (λ h. cc, λ h. absurd h)
evaluate_seeders_iff (some l) (some n) = (λ h. ground arith, λ h. ground arith)

-- No reason in both parts: both conditions hold.
append_iff {ℓ} :
    {A : Type ℓ} {P Q : Type 0} (xs ys : List A)
    → (is_empty xs ≡ true) ↔ P
    → (is_empty ys ≡ true) ↔ Q
    → (is_empty (xs ++ ys) ≡ true) ↔ (P × Q)
append_iff [] ys p q = (λ h. (p.0 refl, q.0 h), λ h. q.1 h.1)
append_iff (x ∷ xs) ys p q = (λ h. absurd (cc), λ h. absurd (cc (p.1 h.0)))

required_iff :
    (inc : List Text) (hit : Text → Bool) (r : RuleReason)
    → (is_empty (when (not (is_empty inc) && not (any hit inc)) r) ≡ true) ↔ AnyOf inc hit
required_iff [] hit r = (λ h. tt, λ h. refl)
required_iff (k ∷ ks) hit r = (λ h. ground arith, λ h. ground arith)

excluded_iff :
    (exc : List Text) (hit : Text → Bool)
    → (is_empty (excluded (first hit exc)) ≡ true) ↔ NoneOf exc hit
excluded_iff [] hit = (λ h. tt, λ h. refl)
excluded_iff (k ∷ ks) hit = elim (Bool-cases (hit k)) [
  | inl e ↦ (λ h. absurd (ground (arith, e, h)), λ h. absurd (cc (e, h.0)))
  | inr e ↦ rw e (λ h. (refl, (excluded_iff ks hit).0 h), λ h. (excluded_iff ks hit).1 h.1)
]

-- The rules as conditions on the candidate, with no word about reasons.
abbrev pub Accepts : (Text → Text) → RuleSet → Candidate → Type 0
Accepts casefold r c =
    let hit = hits casefold (casefold (search_text casefold c)) in
    PassesMode r.chinese_subtitles (chinese_subtitles c)
    × (PassesMode r.uncensored (uncensored c)
        × (PassesMode r.uhd (uhd c)
            × ((AtLeast r.min_size_mb (size_mb c) × AtMost r.max_size_mb (size_mb c))
                × (AtLeast r.min_seeders (seeders c)
                    × (AnyOf (trimmed r.include_keywords) hit
                        × NoneOf (trimmed r.exclude_keywords) hit)))))

module _ (casefold : Text → Text) where
  evaluate_keywords_iff :
      (inc exc : List Text) (text : Text)
      → (is_empty (evaluate_keywords casefold inc exc text) ≡ true)
        ↔ (AnyOf inc (hits casefold text) × NoneOf exc (hits casefold text))
  unfolding evaluate_keywords
  evaluate_keywords_iff inc exc text =
      append_iff (when (not (is_empty inc) && not (any (hits casefold text) inc)) _)
        (excluded (first (hits casefold text) exc)) (required_iff inc (hits casefold text) _)
        (excluded_iff exc (hits casefold text))

  -- A candidate is accepted exactly when it passes every rule: each of the three facts passes its
  -- mode (`only` asks for a known yes, `exclude` refuses a known yes), the size and the number of
  -- seeders are known and within the bounds where there are bounds, some keyword to include is in
  -- the titles if there are such keywords, and none to exclude is.
  pub evaluate_iff :
      (r : RuleSet) (c : Candidate)
      → ((evaluate casefold r c).accepted ≡ true) ↔ Accepts casefold r c
  unfolding evaluate
  evaluate_iff r c =
      append_iff _ _ (evaluate_truth_iff _ _ r.chinese_subtitles (chinese_subtitles c)) (
        append_iff _ _ (evaluate_truth_iff _ _ r.uncensored (uncensored c)) (
          append_iff _ _ (evaluate_truth_iff _ _ r.uhd (uhd c)) (
            append_iff _ _ (evaluate_size_iff r.min_size_mb r.max_size_mb (size_mb c)) (
              append_iff _ _ (evaluate_seeders_iff r.min_seeders (seeders c)) (
                evaluate_keywords_iff (trimmed r.include_keywords) (trimmed r.exclude_keywords)
                  (casefold (search_text casefold c)))))))
