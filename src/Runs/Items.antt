-- ===== src/Runs/Items.antt =====
-- src/tuntu/runs/service.py: `_process_item`.
use tuntu.Prelude.{
  ℕ, ◌+◌, String, Bool, not, ◌||◌, none, List, [], ◌∷◌, Text, keep, length, is_empty, insert,
  list_eq, nat_eq, if◌then◌else◌,
}
use tuntu.Db.Items.{
  upsert_content, add_run_item, upsert_candidate, add_candidate_evidence, add_evaluation,
}
use tuntu.Selection.Evidence.{CandidateEvidence}
use tuntu.Selection.Content.{ContentItem}
use tuntu.Selection.Candidates.{Candidate}
use tuntu.Selection.Rules.{RuleSet, Evaluation}
use tuntu.Runs.Evaluations.{evaluations_for}
use tuntu.Runs.Stats.{Stats}
use tuntu.Runs.Settings.{Snapshot}
use tuntu.Runs.State.{Environment, Source, RunState, tell, stored, ask_all, note_batch}
use tuntu.Runs.Actions.{Action, pure, lift, ◌>>=◌}
use tuntu.Runs.Submits.{ItemIds, submit_accepted}

abbrev pub accepted_of : List Evaluation → List Evaluation
accepted_of evaluations = keep (λ (e : Evaluation). e.accepted) evaluations

-- `result_status`; the second list is that of the accepted ones.
abbrev pub result_word : List Evaluation → List Evaluation → String
result_word [] accepted = "no_candidate"
result_word (e ∷ es) [] = "filtered"
result_word (e ∷ es) (a ∷ as') = "selected"

-- The count of the item under its result.
abbrev pub count_result : List Evaluation → List Evaluation → Stats → Stats
count_result [] accepted s = record s { items_no_candidate = s.items_no_candidate + 1 }
count_result (e ∷ es) [] s = record s { items_filtered = s.items_filtered + 1 }
count_result (e ∷ es) (a ∷ as') s = record s { items_selected = s.items_selected + 1 }

unfoldable pub save_evidence :
    (run_item_id candidate_id : ℕ) → List CandidateEvidence → Action RunState (Unit {0})
save_evidence run_item_id candidate_id [] = pure tt
save_evidence run_item_id candidate_id (e ∷ es) = do
  _ ← stored (add_candidate_evidence run_item_id candidate_id e)
  save_evidence run_item_id candidate_id es

-- The loop over the evaluations, which gives the ids of the candidates.
unfoldable pub save_evaluations :
    (casefold : Text → Text) (run_item_id : ℕ)
    → List Evaluation
    → List (Text × ℕ)
    → Action RunState (List (Text × ℕ))
save_evaluations casefold run_item_id [] candidate_ids = pure candidate_ids
save_evaluations casefold run_item_id (e ∷ es) candidate_ids = do
  candidate_id ← stored (upsert_candidate casefold e.candidate.btih)
  _ ← save_evidence run_item_id candidate_id e.candidate.evidence
  _ ← stored (add_evaluation run_item_id candidate_id e.accepted e.reasons)
  save_evaluations casefold run_item_id es (insert e.candidate.btih candidate_id candidate_ids)

module _ (env : Environment) (runs : List ℕ) (run_id profile_id : ℕ)
    (sources : List (Source ContentItem Candidate)) (rules : RuleSet) (snapshot : Snapshot) where
  -- From the first `upsert_content` on.
  unfoldable pub save_item : ContentItem → List Evaluation → Action RunState ItemIds
  save_item content evaluations = do
    let accepted = accepted_of evaluations
    _ ← tell (count_result evaluations accepted)
    content_id ← stored (upsert_content env.urls.casefold content)
    run_item_id ←
        stored
          (add_run_item runs run_id content_id (result_word evaluations accepted) content.rankings)
    candidate_ids ← save_evaluations env.urls.casefold run_item_id evaluations []
    _ ← tell λ (s : Stats). record s {
      candidates_found = s.candidates_found + length evaluations;
      candidates_accepted = s.candidates_accepted + length accepted;
    }
    pure (record {
      content_id = content_id;
      run_item_id = run_item_id;
      candidate_ids = candidate_ids;
    })

  -- `_process_item`: whether the item had a partial failure.
  unfoldable pub process_item : ContentItem → Action RunState Bool
  process_item content = do
    batch ← ask_all sources content
    _ ← note_batch batch
    let partial = not (is_empty batch.failures)
    evaluations ← lift (evaluations_for env.urls.casefold rules content batch.values)
    ids ← save_item content evaluations
    if not snapshot.effective_auto_submit || is_empty (accepted_of evaluations)
        then pure partial
        else submit_accepted env profile_id snapshot ids (accepted_of evaluations) partial 0 none
