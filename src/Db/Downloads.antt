-- ===== src/Db/Downloads.antt =====
-- src/tuntu/db/repository.py: the methods on download tasks, their events and the audit trail.
-- The clock's reading and the fresh UUID of a new row are arguments.
use tuntu.Prelude.{
  ℕ, ◌+◌, String, Bool, true, false, not, ◌&&◌, ◌||◌, Option, none, some, List, [], ◌∷◌, map, Text,
  any, keep, first, sorted, ltb, leb, ◌==◌, nat_eq, string_eq, option_eq, list_eq, if◌then◌else◌,
}
use tuntu.Errors.{
  Result, ok, err, key_error, idempotency_conflict, destination_busy, integrity_error,
}
use tuntu.Downloaders.Snapshot.{DirectorySnapshot}
use tuntu.Downloads.State.{DownloadStatus, submitting, completed, status_eq, is_terminal}
use tuntu.Downloads.Completion.{CompletionState}
use tuntu.Db.Tables.{
  Candidate, Task, Source, system, is_system, Evidence, Event, Detail, Audit, Db, claims,
  same_destination, same_claim, refers,
}
use tuntu.Db.Session.{Exec, session}

abbrev pub has_id : ℕ → Task → Bool
has_id i t = t.id == i

-- The arguments of `claim_download`; every caller leaves `initial_status` at "submitting".
pub record Claim : Type 0 where
  pub client_key : String
  pub profile_id : ℕ
  pub content_item_id : ℕ
  pub candidate_id : ℕ
  pub run_item_id : Option ℕ
  pub generation : ℕ
  pub supersedes_task_id : Option ℕ
  pub destination_path : Option Text
  pub attention_after_at : Option ℕ

abbrev pub new_task : ℕ → ℕ → Claim → Task
new_task task_id now c = record {
  id = task_id;
  client_key = c.client_key;
  profile_id = c.profile_id;
  run_item_id = c.run_item_id;
  supersedes_task_id = c.supersedes_task_id;
  content_item_id = c.content_item_id;
  candidate_id = c.candidate_id;
  generation = c.generation;
  status = submitting;
  destination_path = c.destination_path;
  ownership_acquired = false;
  external_reference = none;
  baseline = none;
  completion_state = none;
  attention_after_at = c.attention_after_at;
  last_error_code = none;
  last_error_summary = none;
  manual_completed = false;
  created_at = now;
  updated_at = now;
}

abbrev pub claim_event : ℕ → ℕ → Event
claim_event task_id now = record {
  task_id = task_id;
  sequence = 1;
  status = submitting;
  source = system;
  evidence = record { kind = "claim_created"; changed = none };
  occurred_at = now;
}

-- The constraint that the INSERT of a row violates, in the order in which it is reported.
pub data Violation : Type 0 where
  unique_row unique_destination foreign_key : Violation

unfoldable pub violation : Db → Task → Option Violation
violation db t =
    if any (same_claim t) db.tasks
    then some unique_row
    else if any (same_destination t) db.tasks
    then some unique_destination
    else if refers db t
    then none
    else some foreign_key

-- The INSERT statements, and the `except IntegrityError` clause, which tells the constraints apart
-- by the columns in the message.
unfoldable pub insert_claim : Option Violation → Db → Task → Event → Result (ℕ × Db)
insert_claim none db t e = ok (t.id, record db { tasks = t ∷ db.tasks; events = e ∷ db.events })
insert_claim (some unique_destination) db t e = err destination_busy
insert_claim (some unique_row) db t e = err idempotency_conflict
insert_claim (some foreign_key) db t e = err integrity_error

unfoldable pub claim_body : ℕ → ℕ → Claim → Db → Result (ℕ × Db)
unfolding violation insert_claim
claim_body task_id now c db =
    let t = new_task task_id now c in
    if any (claims c.client_key c.generation c.content_item_id c.candidate_id) db.tasks
    then err idempotency_conflict
    else insert_claim (violation db t) db t (claim_event task_id now)

unfoldable pub claim_download : ℕ → ℕ → Claim → Exec ℕ
unfolding claim_body
claim_download task_id now c = session (claim_body task_id now c)

-- The arguments of `append_download_event`.
pub record Update : Type 0 where
  pub status : DownloadStatus
  pub evidence : Evidence
  pub source : Source
  pub occurred_at : ℕ
  pub external_reference : Option Text
  pub baseline : Option DirectorySnapshot
  pub completion_state : Option CompletionState
  pub error_code : Option String
  pub ownership_acquired : Option Bool

-- `if value is not None: row.column = value`
abbrev overwrite {ℓ} : {A : Type ℓ} → A → Option A → A
overwrite old none = old
overwrite old (some new) = new

abbrev overwrite_option {ℓ} : {A : Type ℓ} → Option A → Option A → Option A
overwrite_option old none = old
overwrite_option old (some new) = some new

-- Every caller passes the error code as the summary too.
unfoldable pub updated : Update → Task → Task
updated u t = record t {
  status = u.status;
  updated_at = u.occurred_at;
  external_reference = overwrite_option t.external_reference u.external_reference;
  baseline = overwrite_option t.baseline u.baseline;
  completion_state = overwrite_option t.completion_state u.completion_state;
  last_error_code = u.error_code;
  last_error_summary = u.error_code;
  ownership_acquired = overwrite t.ownership_acquired u.ownership_acquired;
  manual_completed =
      if not (is_system u.source) && u.status == completed then true else t.manual_completed;
}

-- `select(func.max(sequence))`, and 0 for no row
unfoldable pub max_sequence : ℕ → List Event → ℕ
max_sequence task_id [] = 0
max_sequence task_id (e ∷ es) =
    let rest = max_sequence task_id es in
    if e.task_id == task_id then (if ltb rest e.sequence then e.sequence else rest) else rest

-- `UPDATE … WHERE id = …`
unfoldable pub update_task : Task → List Task → List Task
update_task t [] = []
update_task t (u ∷ us) = let rest = update_task t us in if u.id == t.id then t ∷ rest else u ∷ rest

abbrev pub others : ℕ → List Task → List Task
others i tasks = keep (λ (t : Task). not (t.id == i)) tasks

unfoldable pub append_to : Option Task → Update → Db → Result (Unit {0} × Db)
append_to none u db = err key_error
append_to (some t) u db =
    let t' = updated u t in
    let event : Event = record {
      task_id = t.id;
      sequence = max_sequence t.id db.events + 1;
      status = u.status;
      source = u.source;
      evidence = u.evidence;
      occurred_at = u.occurred_at;
    } in
    if any (same_destination t') (others t.id db.tasks)
    then err integrity_error
    else ok (tt, record db { tasks = update_task t' db.tasks; events = event ∷ db.events })

unfoldable pub append_body : ℕ → Update → Db → Result (Unit {0} × Db)
unfolding append_to
append_body task_id u db = append_to (first (has_id task_id) db.tasks) u db

unfoldable pub append_download_event : ℕ → Update → Exec (Unit {0})
unfolding append_body
append_download_event task_id u = session (append_body task_id u)

abbrev pub candidate_of : ℕ → Db → Option Candidate
candidate_of i db = first (λ (c : Candidate). c.id == i) db.candidates

-- `get_download_task`: the row, joined with the BTIH of its candidate.
pub record DownloadTask : Type 0 where
  pub row : Task
  pub open row use *
  pub btih : Text

abbrev pub joined : Task → Option Candidate → Option DownloadTask
joined t none = none
joined t (some c) = some (record { row = t; btih = c.btih })

abbrev pub join_task : Option Task → Db → Option DownloadTask
join_task none db = none
join_task (some t) db = joined t (candidate_of t.candidate_id db)

unfoldable pub get_download_task : ℕ → Db → Option DownloadTask
get_download_task task_id db = join_task (first (has_id task_id) db.tasks) db

unfoldable pub get_candidate_btih : ℕ → Db → Result Text
get_candidate_btih candidate_id db = elim (candidate_of candidate_id db) [
  | none ↦ err key_error
  | some c ↦ ok c.btih
]

-- `select(func.max(idempotency_generation)).where(…)`
unfoldable pub max_generation : String → ℕ → ℕ → List Task → ℕ
max_generation client_key content_item_id candidate_id [] = 0
max_generation client_key content_item_id candidate_id (t ∷ ts) =
    let rest = max_generation client_key content_item_id candidate_id ts in
    if t.client_key == client_key
      && (t.content_item_id == content_item_id || t.candidate_id == candidate_id)
    then (if ltb rest t.generation then t.generation else rest)
    else rest

-- No row counts as generation 0: `(current or 0) + 1`.
unfoldable pub next_download_generation : String → ℕ → ℕ → Db → ℕ
unfolding max_generation
next_download_generation client_key content_item_id candidate_id db =
    max_generation client_key content_item_id candidate_id db.tasks + 1

-- `order_by(created_at, id)`
abbrev created_le : Task → Task → Bool
created_le t u =
    if t.created_at == u.created_at then leb t.id u.id else ltb t.created_at u.created_at

unfoldable pub find_download_conflict : String → ℕ → ℕ → ℕ → Db → Option Task
find_download_conflict client_key content_item_id candidate_id generation db =
    first (λ _. true)
      (sorted created_le
        (keep (claims client_key generation content_item_id candidate_id) db.tasks))

-- `order_by(updated_at, id)`
abbrev pub updated_le : Task → Task → Bool
updated_le t u =
    if t.updated_at == u.updated_at then leb t.id u.id else ltb t.updated_at u.updated_at

unfoldable pub list_unfinished_download_task_ids : Db → List ℕ
list_unfinished_download_task_ids db =
    map (λ (t : Task). t.id)
      (sorted updated_le (keep (λ (t : Task). not (is_terminal t.status)) db.tasks))

abbrev pub newest : Event → Option Event → Event
newest e none = e
newest e (some d) = if ltb d.sequence e.sequence then e else d

-- `order_by(sequence.desc()).limit(1)`
unfoldable pub get_latest_download_event : ℕ → List Event → Option Event
get_latest_download_event task_id [] = none
get_latest_download_event task_id (e ∷ es) =
    let rest = get_latest_download_event task_id es in
    if e.task_id == task_id then some (newest e rest) else rest

unfoldable pub add_audit_event : String → String → ℕ → List (String × Detail) → ℕ → Exec (Unit {0})
add_audit_event event_type entity_type entity_id details occurred_at = session λ db.
    let row : Audit = record {
      event_type = event_type;
      entity_type = entity_type;
      entity_id = entity_id;
      details = details;
      occurred_at = occurred_at;
    } in
    ok (tt, record db { audits = row ∷ db.audits })
