-- ===== src/Runs/Evaluations.antt =====
-- src/tuntu/runs/service.py: the part of `_process_item` that judges what the sources found.
use tuntu.Prelude.{Text, List}
use tuntu.Errors.{Result, ok, ◌>>=◌}
use tuntu.Selection.Content.{ContentItem}
use tuntu.Selection.Candidates.{Candidate}
use tuntu.Selection.Rules.{RuleSet, Evaluation}
use tuntu.Selection.Pipeline.{check_owner, merge_candidates, ranked}

-- The candidates that the sources found for an item, merged, judged and in order. One of another
-- item ends the processing, before or after others were merged.
unfoldable pub evaluations_for :
    (casefold : Text → Text) → RuleSet → ContentItem → List Candidate → Result (List Evaluation)
evaluations_for casefold rules content found = do
  own ← check_owner casefold content found
  merged ← merge_candidates own
  ok (ranked casefold rules merged)
