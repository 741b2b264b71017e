-- ===== src/Selection/Pipeline.antt =====
-- src/tuntu/pipeline.py. The sources are functions; what a source raises ends the run.
pub mod Merged
pub mod Results
pub mod Preferred
pub mod Complete
use tuntu.Prelude.{
  ℕ, ◌+◌, Bool, true, false, not, ◌&&◌, Option, none, some, List, [], ◌∷◌, ◌++◌, map, Text,
  is_empty, leb, text_le, lookup, insert, sorted, lex, by, Eq, ◌==◌, nat_eq, list_eq, pair_eq,
  if◌then◌else◌,
}
use tuntu.Errors.{Result, ok, err, value_error, ◌>>=◌}
use tuntu.Selection.Content.{ContentItem, identity, merge_content, best_rank}
use tuntu.Selection.Candidates.{Candidate, merge_candidate}
use tuntu.Selection.Rules.{RuleSet, Evaluation, evaluate}
use tuntu.Selection.Ranking.{evaluation_le, select_candidate}

-- `if key in merged: merged[key].merge_from(x) else: merged[key] = x`
module _ {A K : Type 0} ⦃e : Eq K⦄ (key : A → K) (merge : A → A → Result A) where
  abbrev pub merge_found : List (K × A) → A → Option A → Result (List (K × A))
  merge_found d x none = ok (insert (key x) x d)
  merge_found d x (some old) = do merged ← merge old x; ok (insert (key x) merged d)

  unfoldable pub merge_all : List (K × A) → List A → Result (List (K × A))
  merge_all d [] = ok d
  merge_all d (x ∷ xs) = do d' ← merge_found d x (lookup (key x) d); merge_all d' xs

abbrev pub values : {K A : Type 0} → List (K × A) → List A
values {K = K} {A = A} d = map (λ (p : K × A). p.1) d

pub data ContentResultStatus : Type 0 where
  selected no_candidate filtered : ContentResultStatus

pub record ContentResult : Type 0 where
  pub item : ContentItem
  pub status : ContentResultStatus
  pub evaluations : List Evaluation
  pub selection : Option Candidate

-- The status of an item; the first argument says whether there is an evaluation.
abbrev pub status_for : List Evaluation → Option Candidate → ContentResultStatus
status_for [] chosen = no_candidate
status_for (e ∷ es) none = filtered
status_for (e ∷ es) (some c) = selected

abbrev pub DiscoverySource : Type 0
DiscoverySource = Text → Result (List ContentItem)

abbrev pub CandidateSource : Type 0
CandidateSource = ContentItem → Result (List Candidate)

-- What all sources give, one source after another.
abbrev pub gather : {S A : Type 0} → (S → Result (List A)) → List S → Result (List A)
gather ask [] = ok []
gather ask (s ∷ ss) = do xs ← ask s; ys ← gather ask ss; ok (xs ++ ys)

-- Each BTIH once.
unfoldable pub merge_candidates : List Candidate → Result (List Candidate)
merge_candidates own = do
  d ← merge_all (λ (c : Candidate). c.btih) merge_candidate [] own
  ok (values d)

module _ (casefold : Text → Text) where
  -- `key=lambda item: (item.best_rank, item.identity)`
  abbrev pub content_le : ContentItem → ContentItem → Bool
  content_le =
      by (λ (c : ContentItem). (best_rank c.rankings, identity casefold c))
        (lex leb (lex text_le text_le))

  -- The items of all sources, merged and in order.
  unfoldable pub merge_items : List ContentItem → Result (List ContentItem)
  merge_items found = do
    d ← merge_all (identity casefold) (merge_content casefold) [] found
    ok (sorted content_le (values d))

  -- `collect_items`
  unfoldable pub collect_items : List DiscoverySource → Text → Result (List ContentItem)
  collect_items sources scope = do
    found ← gather (λ (s : DiscoverySource). s scope) sources
    merge_items found

  -- `if candidate.item_identity != item.identity: raise`
  unfoldable pub check_owner : ContentItem → List Candidate → Result (List Candidate)
  check_owner item [] = ok []
  check_owner item (c ∷ cs) =
      if c.item_identity == identity casefold item
      then (do rest ← check_owner item cs; ok (c ∷ rest))
      else err value_error

  -- What one source finds for an item.
  abbrev pub search_own : ContentItem → CandidateSource → Result (List Candidate)
  search_own item source = do found ← source item; check_owner item found

  -- `evaluations.sort(key=evaluation_sort_key)`
  abbrev pub ranked : RuleSet → List Candidate → List Evaluation
  ranked rules cs = sorted (evaluation_le casefold) (map (evaluate casefold rules) cs)

  unfoldable pub content_result : ContentItem → List Evaluation → ContentResult
  content_result item evaluations =
      let chosen = select_candidate evaluations in
      record {
        item = item;
        status = status_for evaluations chosen;
        evaluations = evaluations;
        selection = chosen;
      }

  unfoldable pub discover_items :
      List CandidateSource → RuleSet → List ContentItem → Result (List ContentResult)
  discover_items sources rules [] = ok []
  discover_items sources rules (item ∷ items) = do
    own ← gather (search_own item) sources
    candidates ← merge_candidates own
    rest ← discover_items sources rules items
    ok (content_result item (ranked rules candidates) ∷ rest)

  -- `discover`
  unfoldable pub discover :
      List DiscoverySource → List CandidateSource → RuleSet → Text → Result (List ContentResult)
  discover discovery sources rules scope = do
    items ← collect_items discovery scope
    discover_items sources rules items
