-- ===== src/Downloads/Service/Invariant.antt =====
-- Every method of the service keeps the tables in order, whatever the client answers.
use tuntu.Prelude.{
  ℕ, ◌≡◌, refl, sym, ap, subst, String, Bool, true, false, not, ◌||◌, Option, none, some, List,
  first, first-test, ◌==◌, nat_eq, arith, beq_self, if◌then◌else◌, list_eq,
}
use tuntu.Errors.{Result, ok, err}
use tuntu.Downloaders.Client.{Client}
use tuntu.Downloads.State.{
  DownloadStatus, submitting, completed, failed, status_eq, transition_status,
}
use tuntu.Downloads.State.Graph.{edge, transition_status-edge}
use tuntu.Magnet.{Urls, parse_magnet, canonical_uri}
use tuntu.Db.Tables.{Task, Candidate, Db, manual, Detail}
use tuntu.Db.Session.{Exec, after, lift, pure, ◌>>=◌, ◌>>◌}
use tuntu.Db.Session.Rules.{bind-after, lift-after, commit-ok}
use tuntu.Db.Downloads.{
  Claim, Update, DownloadTask, has_id, get_download_task, join_task, joined, candidate_of,
  append_download_event, add_audit_event, claim_download, claim_body, new_task, get_candidate_btih,
  next_download_generation,
}
use tuntu.Db.Invariant.{Inv}
use tuntu.Db.Progress.{
  status_of, Good, Good-refl, append-Good, audit-Good, claim-Good, claim_body-ok, status_of-absent,
}
use tuntu.Downloads.Service.{
  or_missing, matching, claim_of, confirmed_or, plain, poll_task, poll, require_task, resubmission,
  manual_complete, submit_candidate, submission_event, submission_reply, retry, Submission,
}
use tuntu.Downloads.Service.Polling.{IsCurrent, append-current, poll_task-Good}

joined-row :
    (t : Task) (c : Option Candidate) (task : DownloadTask) → joined t c ≡ some task → t ≡ task.row
joined-row t none task h = absurd (cc)
joined-row t (some c) task h =
    ap (λ (o : Option DownloadTask). elim o [ none ↦ t | some d ↦ d.row ]) h

join_task-row :
    (found : Option Task) (db : Db) (task : DownloadTask)
    → join_task found db ≡ some task
    → found ≡ some task.row
join_task-row none db task h = absurd (cc)
join_task-row (some t) db task h = ap some (joined-row t (candidate_of t.candidate_id db) task h)

pub get_download_task-IsCurrent :
    (task_id : ℕ) (db : Db) (task : DownloadTask)
    → get_download_task task_id db ≡ some task
    → (first (has_id task_id) db.tasks ≡ some task.row) × (task.id ≡ task_id)
unfolding get_download_task
get_download_task-IsCurrent task_id db task h =
    let there = join_task-row (first (has_id task_id) db.tasks) db task h in
    (there, ground (arith, first-test (has_id task_id) db.tasks there))

pub or_missing-some :
    (o : Option DownloadTask) {task : DownloadTask} → or_missing o ≡ ok task → o ≡ some task
or_missing-some none h = absurd (cc)
or_missing-some (some d) h =
    ap (λ (r : Result DownloadTask). elim r [ ok e ↦ some e | err _ ↦ none ]) h

-- A method that begins by reading the task.
require_task-after {ℓ} :
    {A : Type ℓ} (P : Db → Type 0) (task_id : ℕ) (f : DownloadTask → Exec A) (db : Db)
    → P db
    → ((task : DownloadTask) → IsCurrent task db → task.id ≡ task_id → P (after (f task) db))
    → P (after (require_task task_id >>= f) db)
unfolding require_task
require_task-after P task_id f db h k =
    lift-after P (or_missing (get_download_task task_id db)) f db h λ task e.
      let (row, same) =
        get_download_task-IsCurrent task_id db task
          (or_missing-some (get_download_task task_id db) e) in
      k task (subst (λ (i : ℕ). first (has_id i) db.tasks ≡ some task.row) (sym same) row) same

pub poll-Good :
    (client : Client) (now task_id : ℕ) (db : Db)
    → Inv db
    → Good db (after (poll client now task_id) db)
unfolding poll
poll-Good client now task_id db v =
    require_task-after (Good db) task_id (poll_task client now) db (Good-refl db v)
      λ task current _. poll_task-Good db v task current client now

pub manual_complete-Good :
    (now task_id : ℕ) (confirmed : Bool) (db : Db)
    → Inv db
    → Good db (after (manual_complete now task_id confirmed) db)
unfolding manual_complete add_audit_event
manual_complete-Good now task_id confirmed db v =
    lift-after (Good db) (confirmed_or confirmed) _ db (Good-refl db v) λ _ _.
      require_task-after (Good db) task_id _ db (Good-refl db v) λ task current same.
        lift-after (Good db) (transition_status task.status (some completed) true none none) _ db
          (Good-refl db v)
          λ target h.
            bind-after (Good db) (append_download_event task_id _) _ db
              (subst
                (λ (i : ℕ). Good db (
                  after
                    (append_download_event i
                      (record (plain target "manual_confirmation" now) { source = manual }))
                    db))
                same
                (append-current db v task current _
                  (transition_status-edge task.status (some completed) true none none h)))
              (λ _ db' good _. audit-Good db db' _ good)

from_submitting : (s : DownloadStatus) → edge submitting s ≡ true
from_submitting s = ground arith

-- The rest of a submission, once the claim is in the table.
submitted-Good :
    (task_id claimed_at : ℕ) (c : Claim) (db db' : Db) (claimed : ℕ) (event : Result Update)
    → Good db db'
    → claim_download task_id claimed_at c db ≡ (ok claimed, db')
    → Good db (
        after
          (lift event >>= λ (u : Update). append_download_event claimed u >>= λ _. pure claimed)
          db')
unfolding claim_download
submitted-Good task_id claimed_at c db db' claimed event good done =
    let (same, tasks, _, new_id) =
      claim_body-ok task_id claimed_at c db claimed db'
        (commit-ok (claim_body task_id claimed_at c db) db claimed db' done) in
    lift-after (Good db) event _ db' good λ u _.
      bind-after (Good db) (append_download_event claimed u) _ db'
        (append-Good db db' good claimed u (new_task task_id claimed_at c)
          (rw (tasks, same, beq_self task_id) refl) (from_submitting u.status)
          (λ s h. absurd (
            cc (
              h,
              subst (λ (i : ℕ). status_of i db.tasks ≡ none) (sym same)
                  (status_of-absent task_id db.tasks new_id),
            ))))
        (λ _ _ good _. good)

pub submit_candidate-Good :
    (urls : Urls) (client : Client) (task_id now claimed_at : ℕ) (s : Submission) (db : Db)
    → Inv db
    → Good db (after (submit_candidate urls client task_id now claimed_at s) db)
unfolding submit_candidate
submit_candidate-Good urls client task_id now claimed_at s db v =
    lift-after (Good db) (parse_magnet urls s.magnet_uri) _ db (Good-refl db v) λ parsed _.
      lift-after (Good db) (get_candidate_btih s.candidate_id db) _ db (Good-refl db v) λ stored _.
        lift-after (Good db) (matching stored parsed.btih) _ db (Good-refl db v) λ _ _.
          bind-after (Good db) (claim_download task_id claimed_at (claim_of client now s)) _ db
            (claim-Good db db (Good-refl db v) task_id claimed_at (claim_of client now s))
            λ claimed db' good done.
              submitted-Good task_id claimed_at (claim_of client now s) db db' claimed
                (submission_event client now s.destination
                  (submission_reply client (canonical_uri urls parsed) s.destination))
                good done

-- `if forced: self.repository.add_audit_event(…)`
audited-Good :
    (db db' : Db)
    → Good db db'
    → (id : ℕ) (forced : Bool) (kind : String) (details : List (String × Detail)) (at : ℕ)
    → Good db (
        after
          (if forced
            then (add_audit_event kind "download_task" id details at >> pure id)
            else pure id)
          db')
unfolding add_audit_event
audited-Good db db' good id true kind details at = audit-Good db db' _ good
audited-Good db db' good id false kind details at = good

pub retry-Good :
    (urls : Urls) (client : Client) (retry_id now claimed_at audited_at task_id : ℕ)
    (confirmed : Bool) (db : Db)
    → Inv db
    → Good db (after (retry urls client retry_id now claimed_at audited_at task_id confirmed) db)
unfolding retry
retry-Good urls client retry_id now claimed_at audited_at task_id confirmed db v =
    require_task-after (Good db) task_id _ db (Good-refl db v) λ task current same.
      lift-after (Good db) (confirmed_or (confirmed || not (not (task.status == failed)))) _ db
        (Good-refl db v)
        λ _ _.
          bind-after (Good db)
            (submit_candidate urls client retry_id now claimed_at (
              resubmission task (
                next_download_generation task.client_key task.content_item_id task.candidate_id
                  db)))
            _ db (submit_candidate-Good urls client retry_id now claimed_at _ db v)
            λ id db' good _.
              audited-Good db db' good id (not (task.status == failed)) _ _ audited_at
