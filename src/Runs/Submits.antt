-- ===== src/Runs/Submits.antt =====
-- src/tuntu/runs/service.py: the end of `_process_item`, which hands the accepted candidates to the
-- download service, the next one where a client rejects one.
use tuntu.Prelude.{
  ℕ, ◌+◌, String, Bool, true, ◌&&◌, Option, none, some, List, [], ◌∷◌, Text, lookup, ◌==◌, nat_eq,
  string_eq, option_eq, list_eq, if◌then◌else◌,
}
use tuntu.Errors.{
  Result, ok, err, key_error, idempotency_conflict, destination_busy, attribute_error,
}
use tuntu.Downloaders.Client.{Reply}
use tuntu.Downloaders.Paths.{resolve_task_destination}
use tuntu.Downloads.State.{submitting, failed, attention_required, status_eq}
use tuntu.Downloads.Service.{Submission, client_key, submit_candidate}
use tuntu.Db.Tables.{Task}
use tuntu.Db.Session.{read}
use tuntu.Db.Downloads.{
  DownloadTask, get_download_task, find_download_conflict, next_download_generation,
}
use tuntu.Db.Items.{update_run_item_status}
use tuntu.Selection.Candidates.{magnet_uri}
use tuntu.Selection.Rules.{Evaluation}
use tuntu.Runs.Stats.{Stats}
use tuntu.Runs.Settings.{Snapshot, as_result}
use tuntu.Runs.State.{Environment, RunState, next_call, tell, stored, on_core}
use tuntu.Runs.Actions.{Action, pure, lift, attempt, ◌>>=◌}

-- The ids of one item and of its candidates, by BTIH.
pub record ItemIds : Type 0 where
  pub content_id : ℕ
  pub run_item_id : ℕ
  pub candidate_ids : List (Text × ℕ)

-- `candidate_ids[btih]`
abbrev pub or_key_error {ℓ} : {A : Type ℓ} → Option A → Result A
or_key_error none = err key_error
or_key_error (some a) = ok a

unfoldable pub candidate_id_of : ItemIds → Evaluation → Result ℕ
candidate_id_of ids e = or_key_error (lookup e.candidate.btih ids.candidate_ids)

abbrev pub destination_in : Result (Reply Text) → Result Text
destination_in (ok reply) = as_result reply
destination_in (err e) = err e

-- What a submission that returned calls for.
pub data Outcome : Type 0 where
  rejected_candidate submit_failed submit_unknown needs_attention accepted_task : Outcome

unfoldable pub outcome_of : DownloadTask → Outcome
outcome_of task =
    if task.status == failed && task.last_error_code == some "explicit_rejection"
    then rejected_candidate
    else if task.status == failed
    then submit_failed
    else if task.status == submitting
    then submit_unknown
    else if task.status == attention_required
    then needs_attention
    else accepted_task

-- The task that a conflict is with.
abbrev pub id_of : Option Task → Option ℕ
id_of none = none
id_of (some t) = some t.id

module _ (env : Environment) (profile_id : ℕ) (snapshot : Snapshot) (ids : ItemIds) where
  abbrev pub submission_of : ℕ → Text → Evaluation → ℕ → Option ℕ → Submission
  submission_of candidate_id destination e generation supersedes_task_id = record {
    profile_id = profile_id;
    content_item_id = ids.content_id;
    candidate_id = candidate_id;
    magnet_uri = magnet_uri e.candidate;
    destination = some destination;
    run_item_id = some ids.run_item_id;
    generation = generation;
    supersedes_task_id = supersedes_task_id;
  }

  -- The call of `submit_candidate`, with its arguments.
  unfoldable pub submit_one : Evaluation → ℕ → Option ℕ → Action RunState ℕ
  submit_one e generation supersedes_task_id = do
    candidate_id ← lift (candidate_id_of ids e)
    destination ←
        lift (destination_in (resolve_task_destination snapshot.destination e.candidate.btih))
    n ← next_call
    m ← next_call
    on_core (
        submit_candidate env.urls (env.client n) (env.fresh_id n) (env.clock n) (env.clock m)
          (submission_of candidate_id destination e generation supersedes_task_id))

  unfoldable pub end_item : String → Option ℕ → Bool → Action RunState Bool
  end_item status duplicate_task_id partial = do
    _ ← stored (update_run_item_status ids.run_item_id status duplicate_task_id)
    pure partial

  -- `except IdempotencyConflict`
  unfoldable pub end_duplicate : Evaluation → Bool → Action RunState Bool
  end_duplicate e partial = do
    _ ← tell λ (s : Stats). record s { items_deduplicated = s.items_deduplicated + 1 }
    candidate_id ← lift (candidate_id_of ids e)
    conflict ← on_core (read (find_download_conflict client_key ids.content_id candidate_id 0))
    end_item "deduplicated" (id_of conflict) partial

  abbrev pub require : Option DownloadTask → Result DownloadTask
  require none = err attribute_error
  require (some task) = ok task

  -- After an explicit rejection: the next candidate, in the next generation, or the end of the loop.
  unfoldable pub fall_back :
      DownloadTask → List Evaluation → (ℕ → Option ℕ → Action RunState Bool) → Action RunState Bool
  fall_back task [] next = next 0 none
  fall_back task (e ∷ rest) next = do
    _ ← tell λ (s : Stats). record s { candidate_fallbacks = s.candidate_fallbacks + 1 }
    candidate_id ← lift (candidate_id_of ids e)
    generation ←
        on_core (read (next_download_generation task.client_key ids.content_id candidate_id))
    next generation (some task.id)

  -- The branches on the status of the new task.
  unfoldable pub end_submitted :
      DownloadTask
      → Outcome
      → Bool
      → List Evaluation
      → (ℕ → Option ℕ → Action RunState Bool)
      → Action RunState Bool
  end_submitted task rejected_candidate partial rest next = do
    _ ← tell λ (s : Stats). record s { submit_failures = s.submit_failures + 1 }
    fall_back task rest next
  end_submitted task submit_failed partial rest next = do
    _ ← tell λ (s : Stats). record s { submit_failures = s.submit_failures + 1 }
    end_item "submit_failed" none true
  end_submitted task submit_unknown partial rest next = do
    _ ← tell λ (s : Stats). record s { submit_unknown = s.submit_unknown + 1 }
    end_item "submit_unknown" none true
  end_submitted task needs_attention partial rest next = do
    _ ← tell λ (s : Stats). record s { submit_attention_required = s.submit_attention_required + 1 }
    end_item "attention_required" none true
  end_submitted task accepted_task partial rest next = do
    _ ← tell λ (s : Stats). record s { items_submitted = s.items_submitted + 1 }
    end_item "submitted" none partial

  -- What follows the call: its two `except` clauses, or the branches on the task.
  unfoldable pub after_submit :
      Evaluation
      → Bool
      → List Evaluation
      → (ℕ → Option ℕ → Action RunState Bool)
      → Result ℕ
      → Action RunState Bool
  after_submit e partial rest next (ok task_id) = do
    found ← on_core (read (get_download_task task_id))
    task ← lift (require found)
    end_submitted task (outcome_of task) partial rest next
  after_submit e partial rest next (err idempotency_conflict) = end_duplicate e partial
  after_submit e partial rest next (err destination_busy) = do
    _ ← tell λ (s : Stats). record s { submit_failures = s.submit_failures + 1 }
    end_item "submit_failed" none true
  after_submit e partial rest next (err raised) = lift (err raised)

  -- The loop over the accepted candidates. A rejection makes the result partial for the next one.
  unfoldable pub submit_accepted : List Evaluation → Bool → ℕ → Option ℕ → Action RunState Bool
  submit_accepted [] partial generation supersedes_task_id = end_item "submit_failed" none true
  submit_accepted (e ∷ rest) partial generation supersedes_task_id = do
    _ ← tell λ (s : Stats). record s { submit_attempts = s.submit_attempts + 1 }
    outcome ← attempt (submit_one e generation supersedes_task_id)
    after_submit e partial rest (submit_accepted rest true) outcome
