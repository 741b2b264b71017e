-- ===== src/Downloads/Service.antt =====
-- src/tuntu/downloads/service.py. Each method is a sequence of sessions; the clock's reading, the
-- UUID of a new task and the client's answers are arguments.
pub mod Polling
pub mod Invariant
pub mod Outcomes
pub mod Completes
pub mod Submits
use tuntu.Prelude.{
  ℕ, ◌+◌, String, Bool, true, false, not, ◌&&◌, ◌||◌, Option, none, some, List, [], ◌∷◌, ◌++◌, Text,
  codes, is_empty, is_some, ltb, ◌==◌, nat_eq, string_eq, list_eq, option_eq, pair_eq,
  if◌then◌else◌,
}
use tuntu.Errors.{Error, Result, ok, err, key_error, value_error, confirmation_required}
use tuntu.Downloaders.Snapshot.{DirectorySnapshot}
use tuntu.Downloaders.Client.{
  ClientError, result_unknown, external_task_already_exists, rejected, other, error_code, Reply,
  answers, raises, SubmitResult, TaskSignal, Client, with_path, and_then,
}
use tuntu.Downloads.State.{
  DownloadStatus, submitting, submitted, completed, failed, attention_required, status_eq,
  is_terminal, transition_status,
}
use tuntu.Downloads.State
use tuntu.Downloads.Completion.{
  CompletionState, CompletionObservation, completion_state, observe_completion, same_state,
}
use tuntu.Magnet.{Urls, Magnet, parse_magnet, canonical_uri}
use tuntu.Db.Tables.{Task, Event, Evidence, Source, system, manual, is_system, Db, Detail, ident}
use tuntu.Db.Session.{Exec, session, read, pure, lift, ◌>>=◌, ◌>>◌}
use tuntu.Db.Downloads.{
  Claim, Update, DownloadTask, claim_download, append_download_event, get_download_task,
  get_candidate_btih, next_download_generation, get_latest_download_event, add_audit_event,
}

abbrev pub client_key : String
client_key = "clouddrive2"

-- An event with nothing but its status, kind and time.
abbrev pub plain : DownloadStatus → String → ℕ → Update
plain status kind now = record {
  status = status;
  evidence = record { kind = kind; changed = none };
  source = system;
  occurred_at = now;
  external_reference = none;
  baseline = none;
  completion_state = none;
  error_code = none;
  ownership_acquired = none;
}

-- The completion state that a submission begins with; `CompletionState` may refuse it.
begin_tracking : Client → DirectorySnapshot → Text → Result CompletionState
begin_tracking client baseline destination =
    completion_state baseline destination client.required_stable_observations

abbrev lift_option : Result CompletionState → Result (Option CompletionState)
lift_option (ok s) = ok (some s)
lift_option (err e) = err e

-- `CompletionState(…) if baseline is not None else None`
track_if_known : Client → Option DirectorySnapshot → Option Text → Result (Option CompletionState)
unfolding begin_tracking
track_if_known client none destination = ok none
track_if_known client (some baseline) none = err value_error
track_if_known client (some baseline) (some destination) =
    lift_option (begin_tracking client baseline destination)

abbrev pub unknown_event :
    ℕ → String → Option DirectorySnapshot → Result (Option CompletionState) → Result Update
unknown_event now code baseline (err e) = err e
unknown_event now code baseline (ok tracking) =
    ok (record (plain submitting "submission_result_unknown" now) {
      baseline = baseline;
      completion_state = tracking;
      error_code = some code;
    })

abbrev pub accepted_event : ℕ → SubmitResult → Result CompletionState → Result Update
accepted_event now r (err e) = err e
accepted_event now r (ok tracking) = ok (record (plain submitted "accepted" now) {
  external_reference = some r.btih;
  baseline = some r.baseline;
  completion_state = some tracking;
})

-- The `except` clauses and the `else` clause of the submission.
unfoldable pub submission_event : Client → ℕ → Option Text → Reply SubmitResult → Result Update
unfolding begin_tracking track_if_known
submission_event client now destination (raises (result_unknown code baseline)) =
    unknown_event now code baseline (track_if_known client baseline destination)
submission_event client now destination (raises (external_task_already_exists code)) =
    ok (record (plain attention_required "external_task_already_exists" now) {
      error_code = some code;
    })
submission_event client now destination (raises (rejected code)) =
    ok (record (plain failed "explicit_rejection" now) { error_code = some code })
submission_event client now destination (raises (other code)) =
    ok (record (plain failed "client_error" now) { error_code = some code })
submission_event client now destination (answers r) =
    accepted_event now r (begin_tracking client r.baseline r.destination)

-- The arguments of `submit_candidate`.
pub record Submission : Type 0 where
  pub profile_id : ℕ
  pub content_item_id : ℕ
  pub candidate_id : ℕ
  pub magnet_uri : Text
  pub destination : Option Text
  pub run_item_id : Option ℕ
  pub generation : ℕ
  pub supersedes_task_id : Option ℕ

abbrev pub claim_of : Client → ℕ → Submission → Claim
claim_of client now s = record {
  client_key = client_key;
  profile_id = s.profile_id;
  content_item_id = s.content_item_id;
  candidate_id = s.candidate_id;
  run_item_id = s.run_item_id;
  generation = s.generation;
  supersedes_task_id = s.supersedes_task_id;
  destination_path = s.destination;
  attention_after_at = some (now + client.attention_after_seconds);
}

-- `ensure_destination`, and `submit` if that did not raise.
abbrev pub submission_reply : Client → Text → Option Text → Reply SubmitResult
submission_reply client uri destination =
    and_then (with_path destination client.ensure_destination)
      (with_path destination (client.submit uri))

-- `if self.repository.get_candidate_btih(candidate_id) != parsed.btih`
abbrev pub matching : Text → Text → Result (Unit {0})
matching stored parsed = if stored == parsed then ok tt else err value_error

-- `now` is the service's clock, `claimed_at` the one that the repository reads for the new row.
unfoldable pub submit_candidate : Urls → Client → (task_id now claimed_at : ℕ) → Submission → Exec ℕ
submit_candidate urls client task_id now claimed_at s = do
  parsed ← lift (parse_magnet urls s.magnet_uri)
  stored ← (λ db. (get_candidate_btih s.candidate_id db, db))
  _ ← lift (matching stored parsed.btih)
  claimed ← claim_download task_id claimed_at (claim_of client now s)
  event ← lift (
      submission_event client now s.destination
        (submission_reply client (canonical_uri urls parsed) s.destination))
  _ ← append_download_event claimed event
  pure claimed

abbrev pub or_missing : Option DownloadTask → Result DownloadTask
or_missing none = err key_error
or_missing (some task) = ok task

-- `_require_task`
unfoldable pub require_task : ℕ → Exec DownloadTask
require_task task_id db = (or_missing (get_download_task task_id db), db)

-- `_transition`: the target is checked, and written as an event.
unfoldable pub move_task :
    DownloadTask → DownloadStatus → String → ℕ → Option Bool → Exec DownloadStatus
move_task task target kind now ownership = do
  status ←
      lift (transition_status task.status (some target) true (some now) task.attention_after_at)
  _ ←
      append_download_event task.id
        (record (plain status kind now) { ownership_acquired = ownership })
  pure status

-- A poll that got an error from the client.
unfoldable pub poll_failed : DownloadTask → String → String → ℕ → Exec DownloadStatus
poll_failed task kind code now = do
  status ← lift (transition_status task.status none false (some now) task.attention_after_at)
  _ ← append_download_event task.id (record (plain status kind now) { error_code = some code })
  pure status

abbrev idle : Result DownloadStatus → Result (DownloadStatus × String)
idle (ok status) = ok (status, "no_reliable_progress")
idle (err e) = err e

-- The status that the observed files call for, and the kind of the event.
unfoldable pub observed_target :
    DownloadTask → ℕ → CompletionObservation → Result (DownloadStatus × String)
observed_target task now o =
    if o.completed
    then ok (completed, "stable_files_completed")
    else if ltb 0 o.changed_file_count && ltb 0 o.changed_total_size
    then ok (State.downloading, "file_changes_observed")
    else idle (transition_status task.status none true (some now) task.attention_after_at)

abbrev same_evidence : Evidence → Evidence → Bool
same_evidence d e = d.kind == e.kind && d.changed == e.changed

abbrev keeps_tracking : CompletionState → Option CompletionState → Bool
keeps_tracking s none = false
keeps_tracking s (some t) = same_state s t

-- The last event says the same already: no event is written.
unfoldable pub is_repeat :
    DownloadTask → DownloadStatus → Evidence → CompletionObservation → Option Event → Bool
is_repeat task status evidence o none = false
is_repeat task status evidence o (some latest) =
    (latest.status == status && is_system latest.source)
    && (same_evidence latest.evidence evidence && keeps_tracking o.state task.completion_state)

abbrev pub observed_event : DownloadStatus → Evidence → ℕ → CompletionObservation → Update
observed_event status evidence now o = record (plain status evidence.kind now) {
  evidence = evidence;
  completion_state = some o.state;
  ownership_acquired = some (not (is_empty o.state.owned_paths));
}

-- The end of `poll`: the observation is written down, unless it repeats an idle one.
unfoldable pub record_observation : DownloadTask → ℕ → CompletionObservation → Exec DownloadStatus
record_observation task now o = do
  (target, kind) ← lift (observed_target task now o)
  status ← lift (transition_status task.status (some target) true none none)
  let evidence : Evidence = record {
    kind = kind;
    changed = some (o.changed_file_count, o.changed_total_size);
  }
  latest ← read (λ db. get_latest_download_event task.id db.events)
  if kind == "no_reliable_progress" && is_repeat task status evidence o latest
      then pure status
      else (append_download_event task.id (observed_event status evidence now o) >> pure status)

-- `if task.completion_state is None or not task.destination_path`
abbrev trackable : Option CompletionState → Option Text → Option (CompletionState × Text)
trackable none destination = none
trackable (some s) none = none
trackable (some s) (some []) = none
trackable (some s) (some (c ∷ path)) = some (s, c ∷ path)

unfoldable pub after_snapshot :
    DownloadTask → CompletionState → ℕ → Reply DirectorySnapshot → Exec DownloadStatus
after_snapshot task s now (raises e) = poll_failed task "snapshot_error" (error_code e) now
after_snapshot task s now (answers current) = do
  o ← lift (observe_completion s current)
  record_observation task now o

unfoldable pub poll_files :
    Client → DownloadTask → ℕ → Option (CompletionState × Text) → Exec DownloadStatus
unfolding after_snapshot
poll_files client task now none = do
  target ← lift (transition_status task.status none true (some now) task.attention_after_at)
  move_task task target "completion_baseline_unavailable" now none
poll_files client task now (some (s, path)) = after_snapshot task s now (client.snapshot path)

-- What `poll` does with the client's answer about the task.
unfoldable pub on_signal : Client → DownloadTask → ℕ → Reply TaskSignal → Exec DownloadStatus
unfolding poll_files
on_signal client task now (raises e) = poll_failed task "poll_error" (error_code e) now
on_signal client task now (answers TaskSignal.finished) =
    move_task task completed "task_api_finished" now (some true)
on_signal client task now (answers TaskSignal.error) =
    move_task task failed "external_task_failed" now none
on_signal client task now (answers TaskSignal.downloading) =
    move_task task State.downloading "task_api_downloading" now (some true)
on_signal client task now (answers TaskSignal.init) =
    move_task task (if task.status == submitting then submitted else task.status) "task_api_init"
      now (some true)
on_signal client task now (answers TaskSignal.unknown) =
    poll_files client task now (trackable task.completion_state task.destination_path)

unfoldable pub poll_task : Client → ℕ → DownloadTask → Exec DownloadStatus
unfolding on_signal
poll_task client now task =
    if is_terminal task.status
    then pure task.status
    else on_signal client task now
        (with_path task.destination_path (client.get_task_signal task.btih))

unfoldable pub poll : Client → (now task_id : ℕ) → Exec DownloadStatus
poll client now task_id = do task ← require_task task_id; poll_task client now task

abbrev pub confirmed_or : Bool → Result (Unit {0})
confirmed_or true = ok tt
confirmed_or false = err confirmation_required

unfoldable pub manual_complete : (now task_id : ℕ) → Bool → Exec (Unit {0})
manual_complete now task_id confirmed = do
  _ ← lift (confirmed_or confirmed)
  task ← require_task task_id
  target ← lift (transition_status task.status (some completed) true none none)
  _ ←
      append_download_event task_id
        (record (plain target "manual_confirmation" now) { source = manual })
  add_audit_event "manual_download_completion" "download_task" task_id [] now

abbrev pub resubmission : DownloadTask → ℕ → Submission
resubmission task generation = record {
  profile_id = task.profile_id;
  content_item_id = task.content_item_id;
  candidate_id = task.candidate_id;
  magnet_uri = codes "magnet:?xt=urn:btih:" ++ task.btih;
  destination = task.destination_path;
  run_item_id = none;
  generation = generation;
  supersedes_task_id = some task.id;
}

-- `retry_id` is the UUID of the new task; `audited_at` the clock after the submission.
unfoldable pub retry :
    Urls → Client → (retry_id now claimed_at audited_at task_id : ℕ) → Bool → Exec ℕ
retry urls client retry_id now claimed_at audited_at task_id confirmed = do
  task ← require_task task_id
  let forced = not (task.status == failed)
  _ ← lift (confirmed_or (confirmed || not forced))
  generation ←
      read (next_download_generation task.client_key task.content_item_id task.candidate_id)
  id ← submit_candidate urls client retry_id now claimed_at (resubmission task generation)
  if forced
      then (add_audit_event "forced_download_retry" "download_task" id
            (("supersedes_task_id", ident task.id) ∷ []) audited_at
          >> pure id)
      else pure id
