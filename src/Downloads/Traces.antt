-- ===== src/Downloads/Traces.antt =====
-- Any number of calls of the download service and its poller, one after another.
use tuntu.Prelude.{
  ℕ, ◌≡◌, refl, sym, ap, ◌∙◌, subst, Bool, true, Option, none, some, List, [], ◌∷◌, ◌++◌, length,
}
use tuntu.Downloaders.Client.{Client}
use tuntu.Downloads.State.{DownloadStatus, is_terminal}
use tuntu.Downloads.State.Graph.{◌⟶*◌, ⟶*_terminal}
use tuntu.Magnet.{Urls}
use tuntu.Db.Tables.{Db, Event}
use tuntu.Db.Session.{after}
use tuntu.Db.Invariant.{Inv}
use tuntu.Db.Progress.{status_of}
use tuntu.Db.Later.{Later, Later-refl, Later-trans, Later-audits, Good→Later}
use tuntu.Db.Downloads.{add_audit_event, list_unfinished_download_task_ids}
use tuntu.Errors.{Result, ok, err}
use tuntu.Downloads.Poller.{Round, Tally, count_poll, poll_each, poll_once}
use tuntu.Downloads.Service.{Submission, submit_candidate, poll, manual_complete, retry}
use tuntu.Downloads.Service.Invariant.{
  submit_candidate-Good, poll-Good, manual_complete-Good, retry-Good,
}

-- One call, with the client as it is then and the readings of the clock.
pub data Call : Type 0 where
  submit : Urls → Client → (task_id now claimed_at : ℕ) → Submission → Call
  poll_one : Client → (now task_id : ℕ) → Call
  poll_all : (ℕ → Round) → Call
  complete : (now task_id : ℕ) → Bool → Call
  try_again : Urls → Client → (retry_id now claimed_at audited_at task_id : ℕ) → Bool → Call

unfoldable pub run_call : Call → Db → Db
run_call (submit urls client task_id now claimed_at s) db =
    after (submit_candidate urls client task_id now claimed_at s) db
run_call (poll_one client now task_id) db = after (poll client now task_id) db
run_call (poll_all rounds) db = (poll_once rounds db).1
run_call (complete now task_id confirmed) db = after (manual_complete now task_id confirmed) db
run_call (try_again urls client retry_id now claimed_at audited_at task_id confirmed) db =
    after (retry urls client retry_id now claimed_at audited_at task_id confirmed) db

count_poll-Later :
    (i audited_at : ℕ) (t : Tally) (before : Db) (outcome : Result DownloadStatus × Db)
    → Later before outcome.1
    → Later before (count_poll i audited_at t outcome).db
unfolding add_audit_event
count_poll-Later i audited_at t before (ok status, db) l = l
count_poll-Later i audited_at t before (err e, db) l = Later-audits _ l

infix 40 ◌⇒◌
pub data ◌⇒◌ : Db → Db → Type 0 where
  stop : {db : Db} → db ⇒ db
  step : {db end : Db} (c : Call) → run_call c db ⇒ end → db ⇒ end

poll_each-Later :
    (rounds : ℕ → Round) (ids : List ℕ) (before : Db) (t : Tally)
    → Later before t.db
    → Later before (poll_each rounds ids t).db
unfolding poll_each
poll_each-Later rounds [] before t l = l
poll_each-Later rounds (i ∷ ids) before t l =
    let round = rounds (length ids) in
    poll_each-Later rounds ids before
      (count_poll i round.audited_at t (poll round.client round.now i t.db))
      (count_poll-Later i round.audited_at t before (poll round.client round.now i t.db)
        (Later-trans l (Good→Later (poll-Good round.client round.now i t.db l.inv))))

run_call-Later : (c : Call) (db : Db) → Inv db → Later db (run_call c db)
unfolding run_call poll_once
run_call-Later (submit urls client task_id now claimed_at s) db v =
    Good→Later (submit_candidate-Good urls client task_id now claimed_at s db v)
run_call-Later (poll_one client now task_id) db v = Good→Later (poll-Good client now task_id db v)
run_call-Later (poll_all rounds) db v =
    poll_each-Later rounds (list_unfinished_download_task_ids db) db
      (record { succeeded = 0; failed = 0; db = db }) (Later-refl db v)
run_call-Later (complete now task_id confirmed) db v =
    Good→Later (manual_complete-Good now task_id confirmed db v)
run_call-Later (try_again urls client retry_id now claimed_at audited_at task_id confirmed) db v =
    Good→Later (retry-Good urls client retry_id now claimed_at audited_at task_id confirmed db v)

calls-Later : {before later : Db} → before ⇒ later → Inv before → Later before later
calls-Later (stop {db = db}) v = Later-refl db v
calls-Later (step {db = db} c steps) v =
    let l = run_call-Later c db v in Later-trans l (calls-Later steps l.inv)

-- What may become of a task's status. A new task may come at any time, and none is lost.
abbrev pub CanBecome : Option DownloadStatus → Option DownloadStatus → Type 0
CanBecome none later = Unit
CanBecome (some s) none = ⊥
CanBecome (some s) (some r) = s ⟶* r

CanBecome-statuses :
    {before later : Db} (i : ℕ) (now : Option DownloadStatus)
    → Later before later
    → status_of i before.tasks ≡ now
    → CanBecome now (status_of i later.tasks)
CanBecome-statuses i none l e = tt
CanBecome-statuses i (some s) l e =
    let (r, last, path) = l.statuses i s e in
    subst (λ (o : Option DownloadStatus). CanBecome (some s) o) (sym last) path

-- Whatever calls are made, in whatever order, with whatever answers of the client: if the tables
-- were in order before, they are in order after. No two tasks have one id, claim one content item
-- or candidate in one generation for one client, or wait for one destination; the events of every
-- task are numbered 1, 2, 3, …, begin with the claim, follow the transition diagram and end in the
-- status of the task; every event belongs to a task. No task is lost, its status has moved along
-- the diagram, and no event is changed or removed.
pub calls_keep_order :
    {before later : Db}
    → before ⇒ later
    → Inv before
    → Inv later
      × ((i : ℕ) → CanBecome (status_of i before.tasks) (status_of i later.tasks))
      × ((new : List Event) × (later.events ≡ new ++ before.events))
calls_keep_order steps v =
    let l = calls-Later steps v in (l.inv, λ i. CanBecome-statuses i _ l refl, l.events)

-- A task that is completed or failed stays so, whatever calls are made.
pub finished_forever :
    {before later : Db} (i : ℕ) (s : DownloadStatus)
    → Inv before
    → before ⇒ later
    → status_of i before.tasks ≡ some s
    → is_terminal s ≡ true
    → status_of i later.tasks ≡ some s
finished_forever i s v steps h over =
    let (r, last, path) = (calls-Later steps v).statuses i s h in
    last ∙ ap some (⟶*_terminal s r over path)
