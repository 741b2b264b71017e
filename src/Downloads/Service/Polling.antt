-- ===== src/Downloads/Service/Polling.antt =====
-- A poll keeps the tables in order, whatever the client answers.
use tuntu.Prelude.{
  ℕ, ◌≡◌, subst, String, Bool, true, false, ◌&&◌, Option, none, some, first, ◌==◌, nat_eq,
  string_eq, arith, Bool-cases, inl, inr, if◌then◌else◌, Text,
}
use tuntu.Downloaders.Snapshot.{DirectorySnapshot}
use tuntu.Downloaders.Client.{Client, Reply, answers, raises, TaskSignal, with_path, error_code}
use tuntu.Downloads.State.{
  DownloadStatus, submitting, submitted, completed, failed, attention_required, status_eq,
  is_terminal, transition_status,
}
use tuntu.Downloads.State
use tuntu.Downloads.State.Graph.{edge, transition_status-edge}
use tuntu.Downloads.Completion.{CompletionState, observe_completion, CompletionObservation}
use tuntu.Db.Tables.{Db}
use tuntu.Db.Session.{after, pure, ◌>>◌}
use tuntu.Db.Session.Rules.{bind-after, lift-after}
use tuntu.Db.Downloads.{
  Update, DownloadTask, has_id, append_download_event, get_latest_download_event,
}
use tuntu.Db.Invariant.{Inv}
use tuntu.Db.Progress.{status_of-first, Good, Good-refl, append-Good}
use tuntu.Downloads.Service.{
  plain, move_task, poll_failed, record_observation, observed_target, is_repeat, observed_event,
  poll_files, after_snapshot, on_signal, poll_task, trackable,
}

-- The row that the service read is the row of the database.
abbrev pub IsCurrent : DownloadTask → Db → Type 0
IsCurrent task db = first (has_id task.id) db.tasks ≡ some task.row

module _ (db : Db) (v : Inv db) (task : DownloadTask) (current : IsCurrent task db) where
  -- An event on the row that was read, along an edge from its status.
  pub append-current :
      (u : Update)
      → edge task.status u.status ≡ true
      → Good db (after (append_download_event task.id u) db)
  append-current u step = append-Good db db (Good-refl db v) task.id u task.row current step (λ s h.
      subst (λ (q : DownloadStatus). edge q u.status ≡ true)
        (ground (arith, h, status_of-first task.id db.tasks task.row current)) step)

  move_task-Good :
      (target : DownloadStatus) (kind : String) (now : ℕ) (ownership : Option Bool)
      → Good db (after (move_task task target kind now ownership) db)
  unfolding move_task
  move_task-Good target kind now ownership =
      lift-after (Good db)
        (transition_status task.status (some target) true (some now) task.attention_after_at) _ db
        (Good-refl db v)
        λ status h.
          bind-after (Good db)
            (append_download_event task.id
              (record (plain status kind now) { ownership_acquired = ownership }))
            _ db
            (append-current _ (
              transition_status-edge task.status (some target) true (some now)
                task.attention_after_at h))
            (λ _ db' good _. good)

  poll_failed-Good :
      (kind code : String) (now : ℕ) → Good db (after (poll_failed task kind code now) db)
  unfolding poll_failed
  poll_failed-Good kind code now =
      lift-after (Good db)
        (transition_status task.status none false (some now) task.attention_after_at) _ db
        (Good-refl db v)
        λ status h.
          bind-after (Good db)
            (append_download_event task.id
              (record (plain status kind now) { error_code = some code }))
            _ db
            (append-current _
              (transition_status-edge task.status none false (some now) task.attention_after_at h))
            (λ _ db' good _. good)

  -- An event that is only written if it says something new.
  record_event-Good :
      (status : DownloadStatus) (u : Update) (repeat : Bool)
      → edge task.status u.status ≡ true
      → Good db (
          after
            (if repeat then pure status else (append_download_event task.id u >> pure status))
            db)
  record_event-Good status u true step = Good-refl db v
  record_event-Good status u false step =
      bind-after (Good db) (append_download_event task.id u) _ db (append-current u step)
        (λ _ db' good _. good)

  record_observation-Good :
      (now : ℕ) (o : CompletionObservation) → Good db (after (record_observation task now o) db)
  unfolding record_observation
  record_observation-Good now o =
      lift-after (Good db) (observed_target task now o) _ db (Good-refl db v) λ target _.
        lift-after (Good db) (transition_status task.status (some target.0) true none none) _ db
          (Good-refl db v)
          λ status h.
            record_event-Good status
              (observed_event status
                (record {
                  kind = target.1;
                  changed = some (o.changed_file_count, o.changed_total_size);
                })
                now o)
              (target.1 == "no_reliable_progress"
                && is_repeat task status
                    (record {
                      kind = target.1;
                      changed = some (o.changed_file_count, o.changed_total_size);
                    })
                    o (get_latest_download_event task.id db.events))
              (transition_status-edge task.status (some target.0) true none none h)

  after_snapshot-Good :
      (s : CompletionState) (now : ℕ) (answer : Reply DirectorySnapshot)
      → Good db (after (after_snapshot task s now answer) db)
  unfolding after_snapshot
  after_snapshot-Good s now (raises e) = poll_failed-Good "snapshot_error" (error_code e) now
  after_snapshot-Good s now (answers current) =
      lift-after (Good db) (observe_completion s current) _ db (Good-refl db v)
        λ o _. record_observation-Good now o

  poll_files-Good :
      (client : Client) (now : ℕ) (known : Option (CompletionState × Text))
      → Good db (after (poll_files client task now known) db)
  unfolding poll_files
  poll_files-Good client now none =
      lift-after (Good db)
        (transition_status task.status none true (some now) task.attention_after_at) _ db
        (Good-refl db v)
        λ target _. move_task-Good target "completion_baseline_unavailable" now none
  poll_files-Good client now (some (s, path)) = after_snapshot-Good s now (client.snapshot path)

  on_signal-Good :
      (client : Client) (now : ℕ) (signal : Reply TaskSignal)
      → Good db (after (on_signal client task now signal) db)
  unfolding on_signal
  on_signal-Good client now (raises e) = poll_failed-Good "poll_error" (error_code e) now
  on_signal-Good client now (answers TaskSignal.finished) =
      move_task-Good completed "task_api_finished" now (some true)
  on_signal-Good client now (answers TaskSignal.error) =
      move_task-Good failed "external_task_failed" now none
  on_signal-Good client now (answers TaskSignal.downloading) =
      move_task-Good State.downloading "task_api_downloading" now (some true)
  on_signal-Good client now (answers TaskSignal.init) =
      move_task-Good (if task.status == submitting then submitted else task.status) "task_api_init"
        now (some true)
  on_signal-Good client now (answers TaskSignal.unknown) =
      poll_files-Good client now (trackable task.completion_state task.destination_path)

  pub poll_task-Good : (client : Client) (now : ℕ) → Good db (after (poll_task client now task) db)
  unfolding poll_task
  poll_task-Good client now = elim (Bool-cases (is_terminal task.status)) [
    | inl over ↦ rw over (Good-refl db v)
    | inr going ↦ rw going (
        on_signal-Good client now
          (with_path task.destination_path (client.get_task_signal task.btih)))
  ]
