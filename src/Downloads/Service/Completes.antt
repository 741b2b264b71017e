-- ===== src/Downloads/Service/Completes.antt =====
-- When a poll completes a task.
use tuntu.Prelude.{
  ℕ, ◌≡◌, refl, sym, ap, ◌∙◌, String, Bool, true, false, Option, none, some, [], ◌∷◌, ◌==◌, nat_eq,
  string_eq, arith, inl, inr, ◌⊎◌, if◌then◌else◌, Text,
}
use tuntu.Errors.{Result, ok, err}
use tuntu.Downloaders.Snapshot.{DirectorySnapshot}
use tuntu.Downloaders.Client.{Client, Reply, answers, raises, TaskSignal, with_path, error_code}
use tuntu.Downloads.State.{
  DownloadStatus, submitting, submitted, completed, failed, status_eq, is_terminal,
  transition_status,
}
use tuntu.Downloads.State
use tuntu.Downloads.Completion.{CompletionState, observe_completion, CompletionObservation}
use tuntu.Db.Tables.{Db}
use tuntu.Db.Session.{pure, ◌>>=◌, ◌>>◌}
use tuntu.Db.Session.Rules.{bind-eq-ok, lift-eq-ok}
use tuntu.Db.Downloads.{Update, DownloadTask, append_download_event}
use tuntu.Downloads.Service.{
  move_task, poll_failed, record_observation, observed_target, poll_files, after_snapshot,
  on_signal, poll_task, trackable,
}

pure-eq : {s r : DownloadStatus} {db db' : Db} → pure s db ≡ (ok r, db') → s ≡ r
pure-eq {s = s} h = ap (λ (x : Result DownloadStatus × Db). elim x.0 [ ok t ↦ t | err _ ↦ s ]) h

event-eq :
    (i : ℕ) (u : Update) (s : DownloadStatus) (db db' : Db) {r : DownloadStatus}
    → (append_download_event i u >>= λ (_ : Unit {0}). pure s) db ≡ (ok r, db')
    → s ≡ r
event-eq i u s db db' h =
    let (_, mid, _, k) = bind-eq-ok (append_download_event i u) _ db h in pure-eq k

record_event-eq :
    (i : ℕ) (u : Update) (s : DownloadStatus) (repeat : Bool) (db db' : Db) {r : DownloadStatus}
    → (if repeat then pure s else (append_download_event i u >> pure s)) db ≡ (ok r, db')
    → s ≡ r
record_event-eq i u s true db db' h = pure-eq h
record_event-eq i u s false db db' h = event-eq i u s db db' h

-- The files that a completing observation was made of.
abbrev pub FilesSettled : DownloadTask → Client → Type 0
FilesSettled task client =
    (s : CompletionState) × (path : Text) × (files : DirectorySnapshot)
    × (o : CompletionObservation) × (task.completion_state ≡ some s)
    × (task.destination_path ≡ some path)
    × (client.snapshot path ≡ answers files)
    × (observe_completion s files ≡ ok o)
    × (o.completed ≡ true)

module _ (task : DownloadTask) (unfinished : is_terminal task.status ≡ false) (now : ℕ)
    (db db' : Db) where
  -- Without a target, no task is completed.
  idle_is_open :
      (reliable : Bool)
      → transition_status task.status none reliable (some now) task.attention_after_at
        ≡ ok completed
      → ⊥
  unfolding transition_status
  idle_is_open reliable h = ground (arith, h, unfinished)

  poll_failed-open :
      (kind code : String) → poll_failed task kind code now db ≡ (ok completed, db') → ⊥
  unfolding poll_failed
  poll_failed-open kind code h =
      let (s, t, k) =
        lift-eq-ok (transition_status task.status none false (some now) task.attention_after_at) _
          db h in
      idle_is_open false (t ∙ ap ok (event-eq task.id _ s db db' k))

  move_task-target :
      (target : DownloadStatus) (kind : String) (ownership : Option Bool)
      → move_task task target kind now ownership db ≡ (ok completed, db')
      → target ≡ completed
  unfolding move_task transition_status
  move_task-target target kind ownership h =
      let (s, t, k) =
        lift-eq-ok
          (transition_status task.status (some target) true (some now) task.attention_after_at) _ db
          h in
      let e = event-eq task.id _ s db db' k in ground (arith, t, e)

  target_observed :
      (o : CompletionObservation) (target : DownloadStatus × String) (s : DownloadStatus)
      → observed_target task now o ≡ ok target
      → transition_status task.status (some target.0) true none none ≡ ok s
      → s ≡ completed
      → o.completed ≡ true
  unfolding observed_target transition_status
  target_observed o target s t u e = ground (arith, t, u, e, unfinished)

  record_observation-completed :
      (o : CompletionObservation)
      → record_observation task now o db ≡ (ok completed, db')
      → o.completed ≡ true
  unfolding record_observation
  record_observation-completed o h =
      let (target, t, k) = lift-eq-ok (observed_target task now o) _ db h in
      let (s, u, l) =
        lift-eq-ok (transition_status task.status (some target.0) true none none) _ db k in
      target_observed o target s t u (record_event-eq task.id _ s _ db db' l)

  after_snapshot-completed :
      (s : CompletionState) (answer : Reply DirectorySnapshot)
      → after_snapshot task s now answer db ≡ (ok completed, db')
      → (files : DirectorySnapshot) × (o : CompletionObservation) × (answer ≡ answers files)
        × (observe_completion s files ≡ ok o)
        × (o.completed ≡ true)
  unfolding after_snapshot
  after_snapshot-completed s (raises e) h =
      absurd (poll_failed-open "snapshot_error" (error_code e) h)
  after_snapshot-completed s (answers files) h =
      let (o, t, k) = lift-eq-ok (observe_completion s files) _ db h in
      (files, o, refl, t, record_observation-completed o k)

  untracked-open : (client : Client) → poll_files client task now none db ≡ (ok completed, db') → ⊥
  unfolding poll_files transition_status
  untracked-open client h =
      let (target, t, k) =
        lift-eq-ok (transition_status task.status none true (some now) task.attention_after_at)
          (λ x. move_task task x "completion_baseline_unavailable" now none) db h in
      let e = move_task-target target "completion_baseline_unavailable" none k in
      idle_is_open true (cc (t, e))

  poll_files-completed :
      (client : Client) (known : Option CompletionState) (path : Option Text)
      → known ≡ task.completion_state
      → path ≡ task.destination_path
      → poll_files client task now (trackable known path) db ≡ (ok completed, db')
      → FilesSettled task client
  unfolding poll_files
  poll_files-completed client none path a b h = absurd (untracked-open client h)
  poll_files-completed client (some s) none a b h = absurd (untracked-open client h)
  poll_files-completed client (some s) (some []) a b h = absurd (untracked-open client h)
  poll_files-completed client (some s) (some (c ∷ path)) a b h =
      let (files, o, answer, t, k) = after_snapshot-completed s (client.snapshot (c ∷ path)) h in
      (s, c ∷ path, files, o, sym a, sym b, answer, t, k)

  init-open : (if task.status == submitting then submitted else task.status) ≡ completed → ⊥
  init-open h = ground (arith, h, unfinished)

  on_signal-completed :
      (client : Client) (signal : Reply TaskSignal)
      → on_signal client task now signal db ≡ (ok completed, db')
      → (signal ≡ answers TaskSignal.finished)
        ⊎ ((signal ≡ answers TaskSignal.unknown) × FilesSettled task client)
  unfolding on_signal
  on_signal-completed client (raises e) h = absurd (poll_failed-open "poll_error" (error_code e) h)
  on_signal-completed client (answers TaskSignal.finished) h = inl refl
  on_signal-completed client (answers TaskSignal.error) h =
      absurd (cc (move_task-target failed "external_task_failed" none h))
  on_signal-completed client (answers TaskSignal.downloading) h =
      absurd (cc (move_task-target State.downloading "task_api_downloading" (some true) h))
  on_signal-completed client (answers TaskSignal.init) h =
      absurd (init-open (move_task-target _ "task_api_init" (some true) h))
  on_signal-completed client (answers TaskSignal.unknown) h =
      inr
        (refl, poll_files-completed client task.completion_state task.destination_path refl refl h)

-- A poll of an unfinished task returns `completed` only on evidence: the client said that the task
-- is finished, or it knows nothing of the task and the observation of the files under the
-- destination came out as completed.
pub poll_completes :
    (client : Client) (now : ℕ) (task : DownloadTask) (db db' : Db)
    → is_terminal task.status ≡ false
    → poll_task client now task db ≡ (ok completed, db')
    → let signal = with_path task.destination_path (client.get_task_signal task.btih) in
      (signal ≡ answers TaskSignal.finished)
      ⊎ ((signal ≡ answers TaskSignal.unknown) × FilesSettled task client)
unfolding poll_task
poll_completes client now task db db' open_yet h =
    on_signal-completed task open_yet now db db' client
      (with_path task.destination_path (client.get_task_signal task.btih)) (rw open_yet at h)
