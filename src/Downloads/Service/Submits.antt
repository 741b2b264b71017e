-- ===== src/Downloads/Service/Submits.antt =====
-- What a submission and a retry do to the tables.
use tuntu.Prelude.{
  ℕ, ◌≡◌, ◌≢◌, refl, sym, ap, ◌∙◌, subst, true, false, Option, none, some, List, [], ◌∷◌, any, ltb,
  nat_eq, string_eq, list_eq, list_beq_iff, arith, beq_self, beq_comm, Text, String,
}
use tuntu.Errors.{Result, ok, err, idempotency_conflict}
use tuntu.Downloaders.Client.{
  Client, Reply, answers, raises, SubmitResult, result_unknown, external_task_already_exists,
  rejected, other,
}
use tuntu.Downloads.State.{DownloadStatus, submitting, submitted, failed, attention_required}
use tuntu.Downloaders.Snapshot.{DirectorySnapshot}
use tuntu.Downloads.Completion.{CompletionState}
use tuntu.Magnet.{Urls, Magnet, parse_magnet, canonical_uri}
use tuntu.Db.Tables.{Task, Event, Db, claims, same_claim}
use tuntu.Db.Session.{pure}
use tuntu.Db.Session.Rules.{bind-eq-ok, lift-eq-ok, commit-ok}
use tuntu.Db.Downloads.{
  Claim, Update, has_id, new_task, claim_event, Violation, unique_row, unique_destination,
  foreign_key, violation, insert_claim, claim_download, claim_body, append_download_event,
  get_candidate_btih, max_generation, next_download_generation,
}
use tuntu.Db.Progress.{status_of, claim_body-ok}
use tuntu.Db.Outcomes.{append-status}
use tuntu.Downloads.Service.{
  Submission, unknown_event, accepted_event, matching, claim_of, submission_event, submission_reply,
  submit_candidate,
}

-- The status that a new task gets from the client's answer.
abbrev pub answered_status : Reply SubmitResult → DownloadStatus
answered_status (answers r) = submitted
answered_status (raises (result_unknown code baseline)) = submitting
answered_status (raises (external_task_already_exists code)) = attention_required
answered_status (raises (rejected code)) = failed
answered_status (raises (other code)) = failed

unknown_event-status :
    (now : ℕ) (code : String) (baseline : Option DirectorySnapshot)
    (tracking : Result (Option CompletionState)) {u : Update}
    → unknown_event now code baseline tracking ≡ ok u
    → u.status ≡ submitting
unknown_event-status now code baseline (ok t) h =
    sym (ap (λ (r : Result Update). elim r [ ok v ↦ v.status | err _ ↦ submitting ]) h)
unknown_event-status now code baseline (err e) h = absurd (cc)

accepted_event-status :
    (now : ℕ) (r : SubmitResult) (tracking : Result CompletionState) {u : Update}
    → accepted_event now r tracking ≡ ok u
    → u.status ≡ submitted
accepted_event-status now r (ok t) h =
    sym (ap (λ (r : Result Update). elim r [ ok v ↦ v.status | err _ ↦ submitted ]) h)
accepted_event-status now r (err e) h = absurd (cc)

submission_event-status :
    (client : Client) (now : ℕ) (destination : Option Text) (answer : Reply SubmitResult)
    {u : Update}
    → submission_event client now destination answer ≡ ok u
    → u.status ≡ answered_status answer
unfolding submission_event
submission_event-status client now destination (answers r) h = accepted_event-status now r _ h
submission_event-status client now destination (raises (result_unknown code baseline)) h =
    unknown_event-status now code baseline _ h
submission_event-status client now destination (raises (external_task_already_exists code)) h =
    ground (arith, h)
submission_event-status client now destination (raises (rejected code)) h = ground (arith, h)
submission_event-status client now destination (raises (other code)) h = ground (arith, h)

pure-eq : {a b : ℕ} {db db' : Db} → pure a db ≡ (ok b, db') → (a ≡ b) × (db ≡ db')
pure-eq {a = a} h = (
  ap (λ (x : Result ℕ × Db). elim x.0 [ ok n ↦ n | err _ ↦ a ]) h,
  ap (λ (x : Result ℕ × Db). x.1) h,
)

matching-ok :
    (stored parsed : Text) {x : Unit {0}} → matching stored parsed ≡ ok x → stored ≡ parsed
matching-ok stored parsed h = (list_beq_iff stored parsed).0 (ground (arith, h))

-- A submission that returns gives back the id of the new row. The candidate's BTIH was that of the
-- magnet, and the task has the status that the client's answer calls for: submitted where it
-- accepted the magnet, submitting where the result is unknown, attention_required where it has the
-- task already, and failed where it refused or failed.
pub submit_candidate-status :
    (urls : Urls) (client : Client) (task_id now claimed_at : ℕ) (s : Submission) (db db' : Db)
    (id : ℕ)
    → submit_candidate urls client task_id now claimed_at s db ≡ (ok id, db')
    → (m : Magnet) × (parse_magnet urls s.magnet_uri ≡ ok m)
      × (get_candidate_btih s.candidate_id db ≡ ok m.btih)
      × (id ≡ task_id)
      × (status_of id db'.tasks
          ≡ some (answered_status (submission_reply client (canonical_uri urls m) s.destination)))
unfolding submit_candidate claim_download
submit_candidate-status urls client task_id now claimed_at s db db' id h =
    let (m, parsed, h1) = lift-eq-ok (parse_magnet urls s.magnet_uri) _ db h in
    let (stored, found, h2) = lift-eq-ok (get_candidate_btih s.candidate_id db) _ db h1 in
    let (_, match, h3) = lift-eq-ok (matching stored m.btih) _ db h2 in
    let answer = submission_reply client (canonical_uri urls m) s.destination in
    let (claimed, mid, claim, h4) =
      bind-eq-ok (claim_download task_id claimed_at (claim_of client now s)) _ db h3 in
    let (u, event, h5) =
      lift-eq-ok
        (submission_event client now s.destination
          (submission_reply client (canonical_uri urls m) s.destination))
        _ mid h4 in
    let (_, end, append, h6) = bind-eq-ok (append_download_event claimed u) _ mid h5 in
    let (same, tasks, _, _) =
      claim_body-ok task_id claimed_at (claim_of client now s) db claimed mid (
        commit-ok (claim_body task_id claimed_at (claim_of client now s) db) db claimed mid
          claim) in
    let (back, last) = pure-eq h6 in
    let status =
      append-status claimed u (new_task task_id claimed_at (claim_of client now s)) mid end
        (rw (tasks, same, beq_self task_id) refl) append in
    (
      m,
      parsed,
      found ∙ ap ok (matching-ok stored m.btih match),
      sym back ∙ same,
      subst (λ (i : ℕ). status_of i db'.tasks ≡ some (answered_status answer)) back
          (subst (λ (d : Db). status_of claimed d.tasks ≡ some (answered_status answer)) last
            (status
              ∙ ap some (
                  submission_event-status client now s.destination
                    (submission_reply client (canonical_uri urls m) s.destination) event))),
    )

-- A generation above the largest one is taken by no row.
max_generation-bound :
    (client_key : String) (content_item_id candidate_id : ℕ) (generation : ℕ) (tasks : List Task)
    → ltb (max_generation client_key content_item_id candidate_id tasks) generation ≡ true
    → any (claims client_key generation content_item_id candidate_id) tasks ≡ false
unfolding max_generation
max_generation-bound client_key content_item_id candidate_id generation [] h = refl
max_generation-bound client_key content_item_id candidate_id generation (t ∷ ts) h =
    ground (arith, h, max_generation-bound client_key content_item_id candidate_id generation ts)

same_claim-free :
    (t : Task) (tasks : List Task)
    → any (has_id t.id) tasks ≡ false
    → any (claims t.client_key t.generation t.content_item_id t.candidate_id) tasks ≡ false
    → any (same_claim t) tasks ≡ false
unfolding same_claim
same_claim-free t [] new free = refl
same_claim-free t (u ∷ us) new free =
    ground (arith, new, free, beq_comm t.id u.id, same_claim-free t us)

violation-free :
    (t : Task) (db : Db) → any (same_claim t) db.tasks ≡ false → violation db t ≢ some unique_row
unfolding violation
violation-free t db free h = ground (arith, free, h)

insert_claim-conflict :
    (v : Option Violation) (db : Db) (t : Task) (e : Event)
    → v ≢ some unique_row
    → insert_claim v db t e ≢ err idempotency_conflict
unfolding insert_claim
insert_claim-conflict none db t e k h = absurd (cc)
insert_claim-conflict (some unique_row) db t e k h = k refl
insert_claim-conflict (some unique_destination) db t e k h = absurd (cc)
insert_claim-conflict (some foreign_key) db t e k h = absurd (cc)

-- A claim under a fresh id in the generation that `next_download_generation` gives never raises
-- IdempotencyConflict, whatever the tables hold.
pub next_generation_is_free :
    (task_id now : ℕ) (c : Claim) (db : Db)
    → any (has_id task_id) db.tasks ≡ false
    → c.generation ≡ next_download_generation c.client_key c.content_item_id c.candidate_id db
    → claim_body task_id now c db ≢ err idempotency_conflict
unfolding claim_body next_download_generation
next_generation_is_free task_id now c db new e h =
    let free =
      max_generation-bound c.client_key c.content_item_id c.candidate_id c.generation db.tasks
        (ground (arith, e)) in
    let t = new_task task_id now c in
    insert_claim-conflict (violation db t) db t (claim_event task_id now)
      (violation-free t db (same_claim-free t db.tasks new free)) (rw free at h)
