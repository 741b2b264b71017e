-- ===== src/Runs/Kept/Submits.antt =====
-- What the submissions of an item keep, and with them all of `_process_item`.
use tuntu.Prelude.{
  ℕ, ◌≡◌, refl, Bool, true, not, ◌||◌, Option, none, some, List, [], ◌∷◌, String, is_empty, arith,
}
use tuntu.Errors.{Result, ok, err, idempotency_conflict, destination_busy}
use tuntu.Magnet.{Urls}
use tuntu.Downloaders.Client.{Client}
use tuntu.Downloads.Service.{Submission, submit_candidate}
use tuntu.Db.Downloads.{DownloadTask}
use tuntu.Selection.Content.{ContentItem}
use tuntu.Selection.Candidates.{Candidate}
use tuntu.Selection.Rules.{RuleSet, Evaluation}
use tuntu.Runs.Settings.{Snapshot}
use tuntu.Runs.State.{Environment, Source, RunState, on_core}
use tuntu.Runs.Actions.{
  Action, Keeps, >>=-Keeps, pure-Keeps, lift-Keeps, attempt-Keeps, choice-Keeps,
}
use tuntu.Runs.Submits.{
  ItemIds, Outcome, rejected_candidate, submit_failed, submit_unknown, needs_attention,
  accepted_task, outcome_of, submit_one, end_item, end_duplicate, fall_back, end_submitted,
  after_submit, submit_accepted,
}
use tuntu.Runs.Items.{accepted_of, process_item}
use tuntu.Runs.Kept.{update_run_item_status-IsApart}
use tuntu.Runs.Kept.Items.{
  IsKept, stored-Keeps, read-Keeps, tell-Keeps, next_call-Keeps, ask_all-Keeps, note_batch-Keeps,
  save_item-Keeps,
}

-- A property that every call of the download service keeps.
abbrev pub KeptBySubmission : (RunState → Type 0) → Type 0
KeptBySubmission P =
    (urls : Urls) (client : Client) (task_id now claimed_at : ℕ) (s : Submission)
    → Keeps P (on_core (submit_candidate urls client task_id now claimed_at s))

module _ (P : RunState → Type 0) (k : IsKept P) (submission-Keeps : KeptBySubmission P)
    (env : Environment) (profile_id : ℕ) (snapshot : Snapshot) (ids : ItemIds) where
  submit_one-Keeps :
      (e : Evaluation) (generation : ℕ) (supersedes_task_id : Option ℕ)
      → Keeps P (submit_one env profile_id snapshot ids e generation supersedes_task_id)
  unfolding submit_one
  submit_one-Keeps e generation supersedes_task_id =
      >>=-Keeps P _ _ (lift-Keeps P _) λ candidate_id.
        >>=-Keeps P _ _ (lift-Keeps P _) λ destination.
          >>=-Keeps P _ _ (next_call-Keeps P k)
            λ n. >>=-Keeps P _ _ (next_call-Keeps P k) λ m. submission-Keeps _ _ _ _ _ _

  end_item-Keeps :
      (status : String) (duplicate_task_id : Option ℕ) (partial : Bool)
      → Keeps P (end_item env profile_id snapshot ids status duplicate_task_id partial)
  unfolding end_item
  end_item-Keeps status duplicate_task_id partial =
      >>=-Keeps P _ _
        (stored-Keeps P k _
          (update_run_item_status-IsApart ids.run_item_id status duplicate_task_id))
        λ _. pure-Keeps P partial

  end_duplicate-Keeps :
      (e : Evaluation) (partial : Bool)
      → Keeps P (end_duplicate env profile_id snapshot ids e partial)
  unfolding end_duplicate
  end_duplicate-Keeps e partial = >>=-Keeps P _ _ (tell-Keeps P k _ (λ t. (refl, refl, refl))) λ _.
      >>=-Keeps P _ _ (lift-Keeps P _)
        λ candidate_id. >>=-Keeps P _ _ (read-Keeps P k _) λ conflict. end_item-Keeps _ _ partial

  fall_back-Keeps :
      (task : DownloadTask) (rest : List Evaluation) (next : ℕ → Option ℕ → Action RunState Bool)
      → ((n : ℕ) (o : Option ℕ) → Keeps P (next n o))
      → Keeps P (fall_back env profile_id snapshot ids task rest next)
  unfolding fall_back
  fall_back-Keeps task [] next h = h 0 none
  fall_back-Keeps task (e ∷ rest) next h =
      >>=-Keeps P _ _ (tell-Keeps P k _ (λ t. (refl, refl, refl))) λ _.
        >>=-Keeps P _ _ (lift-Keeps P _) λ candidate_id.
          >>=-Keeps P _ _ (read-Keeps P k _) λ generation. h generation (some task.id)

  end_submitted-Keeps :
      (task : DownloadTask) (outcome : Outcome) (partial : Bool) (rest : List Evaluation)
      (next : ℕ → Option ℕ → Action RunState Bool)
      → ((n : ℕ) (o : Option ℕ) → Keeps P (next n o))
      → Keeps P (end_submitted env profile_id snapshot ids task outcome partial rest next)
  unfolding end_submitted
  end_submitted-Keeps task rejected_candidate partial rest next h =
      >>=-Keeps P _ _ (tell-Keeps P k _ (λ t. (refl, refl, refl)))
        λ _. fall_back-Keeps task rest next h
  end_submitted-Keeps task submit_failed partial rest next h =
      >>=-Keeps P _ _ (tell-Keeps P k _ (λ t. (refl, refl, refl))) λ _. end_item-Keeps _ _ _
  end_submitted-Keeps task submit_unknown partial rest next h =
      >>=-Keeps P _ _ (tell-Keeps P k _ (λ t. (refl, refl, refl))) λ _. end_item-Keeps _ _ _
  end_submitted-Keeps task needs_attention partial rest next h =
      >>=-Keeps P _ _ (tell-Keeps P k _ (λ t. (refl, refl, refl))) λ _. end_item-Keeps _ _ _
  end_submitted-Keeps task accepted_task partial rest next h =
      >>=-Keeps P _ _ (tell-Keeps P k _ (λ t. (refl, refl, refl))) λ _. end_item-Keeps _ _ _

  after_submit-Keeps :
      (e : Evaluation) (partial : Bool) (rest : List Evaluation)
      (next : ℕ → Option ℕ → Action RunState Bool) (outcome : Result ℕ)
      → ((n : ℕ) (o : Option ℕ) → Keeps P (next n o))
      → Keeps P (after_submit env profile_id snapshot ids e partial rest next outcome)
  unfolding after_submit
  after_submit-Keeps e partial rest next (ok task_id) h =
      >>=-Keeps P _ _ (read-Keeps P k _) λ found.
        >>=-Keeps P _ _ (lift-Keeps P _)
          λ task. end_submitted-Keeps task (outcome_of task) partial rest next h
  after_submit-Keeps e partial rest next (err idempotency_conflict) h =
      end_duplicate-Keeps e partial
  after_submit-Keeps e partial rest next (err destination_busy) h =
      >>=-Keeps P _ _ (tell-Keeps P k _ (λ t. (refl, refl, refl))) λ _. end_item-Keeps _ _ _
  after_submit-Keeps e partial rest next (err raised) h = lift-Keeps P (err raised)

  submit_accepted-Keeps :
      (es : List Evaluation) (partial : Bool) (generation : ℕ) (supersedes_task_id : Option ℕ)
      → Keeps P
          (submit_accepted env profile_id snapshot ids es partial generation supersedes_task_id)
  unfolding submit_accepted
  submit_accepted-Keeps [] partial generation supersedes_task_id = end_item-Keeps _ _ _
  submit_accepted-Keeps (e ∷ es) partial generation supersedes_task_id =
      >>=-Keeps P _ _ (tell-Keeps P k _ (λ t. (refl, refl, refl))) λ _.
        >>=-Keeps P _ _ (attempt-Keeps P _ (submit_one-Keeps e generation supersedes_task_id))
          λ outcome. after_submit-Keeps e partial es _ outcome (submit_accepted-Keeps es true)

-- The whole processing of an item. Without submissions it needs no more than `IsKept`.
module _ (P : RunState → Type 0) (k : IsKept P) (env : Environment) (runs : List ℕ)
    (run_id profile_id : ℕ) (sources : List (Source ContentItem Candidate)) (rules : RuleSet)
    (snapshot : Snapshot) where
  pub process_item-Keeps :
      (snapshot.effective_auto_submit ≡ true → KeptBySubmission P)
      → (content : ContentItem)
      → Keeps P (process_item env runs run_id profile_id sources rules snapshot content)
  unfolding process_item
  process_item-Keeps submits content = >>=-Keeps P _ _ (ask_all-Keeps P k sources content) λ batch.
      >>=-Keeps P _ _ (note_batch-Keeps P k batch) λ _.
        >>=-Keeps P _ _ (lift-Keeps P _) λ evaluations.
          >>=-Keeps P _ _
            (save_item-Keeps P k env runs run_id profile_id sources rules snapshot content
              evaluations)
            λ ids.
              choice-Keeps P
                (not snapshot.effective_auto_submit || is_empty (accepted_of evaluations)) _ _
                (λ _. pure-Keeps P _)
                λ on.
                  submit_accepted-Keeps P k (submits (ground (arith, on))) env profile_id snapshot
                    ids (accepted_of evaluations) _ 0 none
