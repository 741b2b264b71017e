-- ===== src/Downloads/Service/Outcomes.antt =====
-- What a poll returns and raises.
use tuntu.Prelude.{
  ℕ, ◌≡◌, ◌≢◌, refl, sym, ap, ◌∙◌, subst, String, Bool, true, false, ◌&&◌, Option, none, some,
  first, ◌==◌, nat_eq, string_eq, arith, Bool-cases, inl, inr, if◌then◌else◌, Text,
}
use tuntu.Errors.{Error, Result, ok, err, invalid_transition}
use tuntu.Downloaders.Snapshot.{DirectorySnapshot}
use tuntu.Downloaders.Client.{Client, Reply, answers, raises, TaskSignal, with_path, error_code}
use tuntu.Downloads.State.{
  DownloadStatus, submitting, submitted, completed, failed, attention_required, status_eq,
  is_terminal, transition_status, allowed,
}
use tuntu.Downloads.State
use tuntu.Downloads.State.Graph.{edge, transition_status_without_evidence}
use tuntu.Downloads.Completion.{CompletionState, observe_completion, CompletionObservation}
use tuntu.Downloads.Completion.Refusals.{observe_completion-error}
use tuntu.Db.Tables.{Db, Evidence}
use tuntu.Db.Invariant.{Inv}
use tuntu.Db.Invariant.Latest.{latest_event}
use tuntu.Db.Session.{lift, pure, ◌>>=◌, ◌>>◌}
use tuntu.Db.Session.Rules.{bind-holds, lift-holds}
use tuntu.Db.Downloads.{
  Update, DownloadTask, has_id, get_download_task, append_download_event, get_latest_download_event,
}
use tuntu.Db.Progress.{status_of, status_of-first}
use tuntu.Db.Outcomes.{append-status, append-error}
use tuntu.Downloads.Service.{
  plain, move_task, poll_failed, record_observation, observed_target, is_repeat, observed_event,
  poll_files, after_snapshot, on_signal, poll_task, poll, require_task, trackable, or_missing,
}
use tuntu.Downloads.Service.Polling.{IsCurrent}
use tuntu.Downloads.Service.Invariant.{get_download_task-IsCurrent, or_missing-some}

-- A status that is returned is the one that the row then has; an error is not a refused transition.
abbrev pub Settles : ℕ → Result DownloadStatus × Db → Type 0
Settles i (ok s, db) = status_of i db.tasks ≡ some s
Settles i (err e, db) = e ≢ invalid_transition

module _ (db : Db) (task : DownloadTask) (current : IsCurrent task db)
    (unfinished : is_terminal task.status ≡ false) where
  append-Settles :
      (u : Update)
      → Settles task.id ((append_download_event task.id u >>= λ (_ : Unit {0}). pure u.status) db)
  append-Settles u =
      bind-holds (Settles task.id) (append_download_event task.id u) _ db
        (λ e db' h same. grind (arith, append-error task.id u db db' e h))
        (λ _ db' h. append-status task.id u task.row db db' current h)

  -- A status that the diagram accepts, written as an event.
  accepted-Settles :
      (r : Result DownloadStatus) (event : DownloadStatus → Update)
      → ((e : Error) → r ≡ err e → e ≢ invalid_transition)
      → ((s : DownloadStatus) → (event s).status ≡ s)
      → Settles task.id (
          (lift r >>= λ (s : DownloadStatus).
          append_download_event task.id (event s) >>= λ (_ : Unit {0}). pure s)
            db)
  accepted-Settles r event k same = lift-holds (Settles task.id) r _ db k λ s _.
      bind-holds (Settles task.id) (append_download_event task.id (event s)) _ db
        (λ e db' h at. grind (arith, append-error task.id (event s) db db' e h))
        (λ _ db' h. append-status task.id (event s) task.row db db' current h ∙ ap some (same s))

  move_task-Settles :
      (target : DownloadStatus) (kind : String) (now : ℕ) (ownership : Option Bool)
      → transition_status task.status (some target) true (some now) task.attention_after_at
        ≡ ok target
      → Settles task.id (move_task task target kind now ownership db)
  unfolding move_task
  move_task-Settles target kind now ownership k =
      accepted-Settles
        (transition_status task.status (some target) true (some now) task.attention_after_at)
        (λ s. record (plain s kind now) { ownership_acquired = ownership })
        (λ e h. absurd (cc (k, h))) (λ s. refl)

  poll_failed-Settles :
      (kind code : String) (now : ℕ) → Settles task.id (poll_failed task kind code now db)
  unfolding poll_failed
  poll_failed-Settles kind code now =
      accepted-Settles (transition_status task.status none false (some now) task.attention_after_at)
        (λ s. record (plain s kind now) { error_code = some code })
        (λ e h. absurd (
          cc (
            transition_status_without_evidence task.status none false (some now)
                task.attention_after_at (inl refl),
            h,
          )))
        (λ s. refl)

  record_event-Settles :
      (status : DownloadStatus) (u : Update) (repeat : Bool)
      → u.status ≡ status
      → (repeat ≡ true → status ≡ task.status)
      → Settles task.id
          ((if repeat then pure status else (append_download_event task.id u >> pure status)) db)
  record_event-Settles status u true same old =
      status_of-first task.id db.tasks task.row current ∙ ap some (sym (old refl))
  record_event-Settles status u false same old =
      bind-holds (Settles task.id) (append_download_event task.id u) _ db
        (λ e db' h at. grind (arith, append-error task.id u db db' e h))
        (λ _ db' h. append-status task.id u task.row db db' current h ∙ ap some same)

  -- A poll that repeats an idle observation writes nothing: the row has the status already.
  repeat-status :
      (status : DownloadStatus) (evidence : Evidence) (o : CompletionObservation)
      → Inv db
      → is_repeat task status evidence o (get_latest_download_event task.id db.events) ≡ true
      → status ≡ task.status
  unfolding is_repeat
  repeat-status status evidence o v h =
      let (e, there, same, _) = latest_event task.id task.row db v current in
      let k : is_repeat task status evidence o (some e) ≡ true = rw there at h in
      ground (arith, k, same)

  observed_target-error :
      (now : ℕ) (o : CompletionObservation) (e : Error) → observed_target task now o ≡ err e → ⊥
  unfolding observed_target transition_status
  observed_target-error now o e h = ground (arith, h)

  observed_target-accepted :
      (now : ℕ) (o : CompletionObservation) (target : DownloadStatus × String)
      → observed_target task now o ≡ ok target
      → transition_status task.status (some target.0) true none none ≡ ok target.0
  unfolding observed_target transition_status
  observed_target-accepted now o target h = ground (arith, h, unfinished)

  record_observation-Settles :
      (now : ℕ) (o : CompletionObservation)
      → Inv db
      → Settles task.id (record_observation task now o db)
  unfolding record_observation
  record_observation-Settles now o v =
      lift-holds (Settles task.id) (observed_target task now o) _ db
        (λ e h _. observed_target-error now o e h)
        λ target t.
          lift-holds (Settles task.id)
            (transition_status task.status (some target.0) true none none) _ db
            (λ e h _. absurd (cc (h, observed_target-accepted now o target t)))
            λ status h.
              let evidence : Evidence = record {
                kind = target.1;
                changed = some (o.changed_file_count, o.changed_total_size);
              } in
              record_event-Settles status (observed_event status evidence now o)
                (target.1 == "no_reliable_progress"
                  && is_repeat task status evidence o (get_latest_download_event task.id db.events))
                refl (λ k. repeat-status status evidence o v (ground (arith, k)))

  after_snapshot-Settles :
      (s : CompletionState) (now : ℕ) (answer : Reply DirectorySnapshot)
      → Inv db
      → Settles task.id (after_snapshot task s now answer db)
  unfolding after_snapshot
  after_snapshot-Settles s now (raises e) v =
      poll_failed-Settles "snapshot_error" (error_code e) now
  after_snapshot-Settles s now (answers files) v =
      lift-holds (Settles task.id) (observe_completion s files) _ db
        (λ e h at. absurd (cc (observe_completion-error s files e h, at)))
        λ o _. record_observation-Settles now o v

  idle_accepted :
      (now : ℕ) (target : DownloadStatus)
      → transition_status task.status none true (some now) task.attention_after_at ≡ ok target
      → transition_status task.status (some target) true (some now) task.attention_after_at
        ≡ ok target
  unfolding transition_status
  idle_accepted now target h = ground (arith, h, unfinished)

  target_accepted :
      (now : ℕ) (target : DownloadStatus)
      → edge task.status target ≡ true
      → transition_status task.status (some target) true (some now) task.attention_after_at
        ≡ ok target
  unfolding transition_status
  target_accepted now target h = ground (arith, h)

  poll_files-Settles :
      (client : Client) (now : ℕ) (known : Option (CompletionState × Text))
      → Inv db
      → Settles task.id (poll_files client task now known db)
  unfolding poll_files
  poll_files-Settles client now none v =
      lift-holds (Settles task.id)
        (transition_status task.status none true (some now) task.attention_after_at) _ db
        (λ e h _. absurd (
          cc (
            h,
            transition_status_without_evidence task.status none true (some now)
                task.attention_after_at (inl refl),
          )))
        (λ target h.
          move_task-Settles target "completion_baseline_unavailable" now none
            (idle_accepted now target h))
  poll_files-Settles client now (some (s, path)) v =
      after_snapshot-Settles s now (client.snapshot path) v

  init_accepted :
      (now : ℕ)
      → let target = if task.status == submitting then submitted else task.status in
        transition_status task.status (some target) true (some now) task.attention_after_at
        ≡ ok target
  unfolding transition_status
  init_accepted now = ground (arith, unfinished)

  on_signal-Settles :
      (client : Client) (now : ℕ) (signal : Reply TaskSignal)
      → Inv db
      → Settles task.id (on_signal client task now signal db)
  unfolding on_signal
  on_signal-Settles client now (raises e) v = poll_failed-Settles "poll_error" (error_code e) now
  on_signal-Settles client now (answers TaskSignal.finished) v =
      move_task-Settles completed "task_api_finished" now (some true)
        (target_accepted now completed (ground (arith, unfinished)))
  on_signal-Settles client now (answers TaskSignal.error) v =
      move_task-Settles failed "external_task_failed" now none
        (target_accepted now failed (ground (arith, unfinished)))
  on_signal-Settles client now (answers TaskSignal.downloading) v =
      move_task-Settles State.downloading "task_api_downloading" now (some true)
        (target_accepted now State.downloading (ground (arith, unfinished)))
  on_signal-Settles client now (answers TaskSignal.init) v =
      move_task-Settles (if task.status == submitting then submitted else task.status)
        "task_api_init" now (some true) (init_accepted now)
  on_signal-Settles client now (answers TaskSignal.unknown) v =
      poll_files-Settles client now (trackable task.completion_state task.destination_path) v

missing_key : (o : Option DownloadTask) (e : Error) → or_missing o ≡ err e → e ≢ invalid_transition
missing_key none e h same = absurd (cc)
missing_key (some d) e h same = absurd (cc)

poll_task-Settles :
    (db : Db) (task : DownloadTask) (client : Client) (now : ℕ)
    → Inv db
    → IsCurrent task db
    → Settles task.id (poll_task client now task db)
unfolding poll_task
poll_task-Settles db task client now v current = elim (Bool-cases (is_terminal task.status)) [
  | inl over ↦ rw over (status_of-first task.id db.tasks task.row current)
  | inr going ↦ rw going (
      on_signal-Settles db task current going client now
        (with_path task.destination_path (client.get_task_signal task.btih)) v)
]

-- On tables that are in order, whatever the client answers: a poll that returns a status leaves the
-- task with that status, and a poll that raises does not raise InvalidStatusTransition.
pub poll-Settles :
    (client : Client) (now task_id : ℕ) (db : Db)
    → Inv db
    → Settles task_id (poll client now task_id db)
unfolding poll require_task
poll-Settles client now task_id db v =
    lift-holds (Settles task_id) (or_missing (get_download_task task_id db)) (poll_task client now)
      db (λ e h same. missing_key (get_download_task task_id db) e h same)
      λ task e.
        let (row, same) =
          get_download_task-IsCurrent task_id db task
            (or_missing-some (get_download_task task_id db) e) in
        subst (λ (i : ℕ). Settles i (poll_task client now task db)) same
          (poll_task-Settles db task client now v
            (subst (λ (i : ℕ). first (has_id i) db.tasks ≡ some task.row) (sym same) row))
