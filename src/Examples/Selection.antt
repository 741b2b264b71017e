-- ===== src/Examples/Selection.antt =====
-- The theorems on rules, ranking and the pipeline at concrete items and candidates.
use tuntu.Prelude.{
  ℕ, list_eq, nat_eq, ◌==◌, ◌≡◌, ◌↔◌, refl, true, false, some, none, List, [], ◌∷◌, map, any, Text,
  codes, sorted, All, Pairwise, pair_eq, Option,
}
use tuntu.Errors.{Result, ok, err}
use tuntu.Magnet.{lower, strip}
use tuntu.Selection.Evidence.{TruthValue, yes_value, no_value, unknown_value, CandidateEvidence}
use tuntu.Selection.Content.{ContentItem, identity, merge_content}
use tuntu.Selection.Candidates.{Candidate, search_text, seeders, size_mb, truth_value}
use tuntu.Selection.Rules.{
  any_mode, only_mode, exclude_mode, RuleSet, Evaluation, evaluate, occurs_in, evaluate_seeders,
  evaluate_size, evaluate_keywords, evaluate_truth,
}
use tuntu.Selection.Rules.Accepts.{Accepts, evaluate_iff}
use tuntu.Selection.Ranking.{
  evaluation_le, select_candidate, evaluation_sort_key, candidate_sort_key,
}
use tuntu.Selection.Pipeline.{
  content_le, merge_items, discover, collect_items, DiscoverySource, CandidateSource, ContentResult,
  check_owner, merge_all, discover_items, merge_candidates,
}
use tuntu.Selection.Pipeline.Results.{IsResult, merge_items-IsSorted, discover-IsResult}
use tuntu.Selection.Pipeline.Preferred.{Before, IsBest, discover-selects}
use tuntu.Selection.Pipeline.Complete.{item_of, discover_total}

abbrev fold : Text → Text
fold = map lower

abbrev film : ContentItem
film = record {
  namespace = codes "Film";
  raw_key = codes "ABC-1";
  normalized_key = codes "abc-1";
  rankings = record { source = codes "top"; rank = 3; raw_key = codes "ABC-1"; scope = [] } ∷ [];
  title = codes "A";
  metadata = [];
}

abbrev same_film : ContentItem
same_film = record film {
  namespace = codes "film ";
  rankings = record { source = codes "new"; rank = 1; raw_key = codes "abc1"; scope = [] } ∷ [];
  title = codes "Longer";
}

abbrev evidence_of : Text → Option ℕ → TruthValue → CandidateEvidence
evidence_of title n subtitles = record {
  source = codes "site";
  magnet_uri = codes "m";
  title = title;
  size = some 700;
  seeders = n;
  chinese_subtitles = subtitles;
  uncensored = unknown_value;
  uhd = no_value;
  notes = [];
}

abbrev candidate_of_film : Text → CandidateEvidence → Candidate
candidate_of_film btih e = record {
  item_identity = (codes "film", codes "abc-1");
  btih = btih;
  evidence = e ∷ [];
}

abbrev good : Candidate
good = candidate_of_film (codes "aa") (evidence_of (codes "ABC-1 C") (some 5) yes_value)

abbrev better : Candidate
better = candidate_of_film (codes "bb") (evidence_of (codes "ABC-1 C HD") (some 9) yes_value)

abbrev plain : Candidate
plain = candidate_of_film (codes "cc") (evidence_of (codes "ABC-1") (some 90) no_value)

abbrev subtitled : RuleSet
subtitled = record {
  chinese_subtitles = only_mode;
  uncensored = any_mode;
  uhd = exclude_mode;
  min_size_mb = some 100;
  max_size_mb = none;
  min_seeders = some 1;
  include_keywords = codes "abc" ∷ [];
  exclude_keywords = codes "trailer" ∷ codes " " ∷ [];
}

abbrev evaluations_of_film : List Evaluation
evaluations_of_film = map (evaluate fold subtitled) (good ∷ better ∷ plain ∷ [])

select_better : select_candidate (sorted (evaluation_le fold) evaluations_of_film) ≡ some better
unfolding select_candidate evaluation_le evaluation_sort_key evaluate evaluate_truth truth_value
    evaluate_size size_mb evaluate_seeders seeders evaluate_keywords strip occurs_in search_text
    candidate_sort_key
select_better = refl

evaluate_iff_example :
    ((evaluate fold subtitled plain).accepted ≡ true) ↔ Accepts fold subtitled plain
evaluate_iff_example = evaluate_iff fold subtitled plain

merge_items-IsSorted_example :
    (items : List ContentItem) × (merge_items fold (film ∷ same_film ∷ []) ≡ ok items)
    × Pairwise (λ a b. content_le fold a b ≡ true) items
    × Pairwise (λ a b. (identity fold a == identity fold b) ≡ false) items
    × ((i : Text × Text)
        → any (λ c. identity fold c == i) items
          ≡ any (λ c. identity fold c == i) (film ∷ same_film ∷ []))
merge_items-IsSorted_example = merge_items-IsSorted fold (film ∷ same_film ∷ [])

abbrev chart : DiscoverySource
chart scope = ok (film ∷ same_film ∷ [])

abbrev owned_by : Text × Text → Candidate → Candidate
owned_by i c = record c { item_identity = i }

abbrev site : CandidateSource
site item = ok (owned_by (identity fold item) good ∷ owned_by (identity fold item) better ∷ [])

discover_total_example :
    (items : List ContentItem) × (results : List ContentResult) × (collect_items fold
        (chart ∷ [])
        (codes "day")
      ≡ ok items)
    × (discover fold (chart ∷ []) (site ∷ site ∷ []) subtitled (codes "day") ≡ ok results)
    × (map item_of results ≡ items)
discover_total_example =
    discover_total fold (chart ∷ []) (site ∷ site ∷ []) subtitled (codes "day")
      ((film ∷ same_film ∷ [], refl, tt), tt)
      (λ item. (_, refl, (refl, (refl, tt))), (λ item. (_, refl, (refl, (refl, tt))), tt))

abbrev returned : {A : Type 0} → Result (List A) → List A
returned (ok values) = values
returned (err raised) = []

-- What the run of a day finds.
abbrev day : Result (List ContentResult)
day = discover fold (chart ∷ []) (site ∷ []) subtitled (codes "day")

discover-IsResult_example : All (IsResult fold) (returned day)
unfolding discover collect_items merge_items merge_all identity strip merge_content discover_items
    check_owner merge_candidates
discover-IsResult_example =
    discover-IsResult fold (chart ∷ []) (site ∷ []) subtitled (codes "day") refl

discover-selects_example :
    All
      (λ (r : ContentResult).
        Pairwise (Before fold) r.evaluations × IsBest fold r.evaluations r.selection)
      (returned day)
unfolding discover collect_items merge_items merge_all identity strip merge_content discover_items
    check_owner merge_candidates
discover-selects_example =
    discover-selects fold (chart ∷ []) (site ∷ []) subtitled (codes "day") refl
