-- ===== src/Db/Tables.antt =====
-- src/tuntu/db/models.py: the rows that download tracking reads and writes. Row ids and task
-- UUIDs are numbers here; times are points on one clock.
use tuntu.Prelude.{
  ℕ, String, Bool, true, false, not, ◌&&◌, ◌||◌, Option, none, some, List, Text, any, map, ◌==◌,
  nat_eq, string_eq, option_eq, list_eq, is_some,
}
use tuntu.Downloaders.Snapshot.{DirectorySnapshot}
use tuntu.Downloads.State.{DownloadStatus, is_terminal}
use tuntu.Downloads.Completion.{CompletionState}

-- `CandidateRow`
pub record Candidate : Type 0 where
  pub id : ℕ
  pub btih : Text

-- `DownloadTaskRow`
pub record Task : Type 0 where
  pub id : ℕ
  pub client_key : String
  pub profile_id : ℕ
  pub run_item_id : Option ℕ
  pub supersedes_task_id : Option ℕ
  pub content_item_id : ℕ
  pub candidate_id : ℕ
  pub generation : ℕ
  pub status : DownloadStatus
  pub destination_path : Option Text
  pub ownership_acquired : Bool
  pub external_reference : Option Text
  pub baseline : Option DirectorySnapshot
  pub completion_state : Option CompletionState
  pub attention_after_at : Option ℕ
  pub last_error_code : Option String
  pub last_error_summary : Option String
  pub manual_completed : Bool
  pub created_at : ℕ
  pub updated_at : ℕ

pub data Source : Type 0 where
  system manual : Source

abbrev pub is_system : Source → Bool
is_system system = true
is_system manual = false

-- The evidence of an event: its kind, and the two counts where it has them.
pub record Evidence : Type 0 where
  pub kind : String
  pub changed : Option (ℕ × ℕ)

-- `DownloadEventRow`
pub record Event : Type 0 where
  pub task_id : ℕ
  pub sequence : ℕ
  pub status : DownloadStatus
  pub source : Source
  pub evidence : Evidence
  pub occurred_at : ℕ

pub data Detail : Type 0 where
  word : String → Detail
  ident : ℕ → Detail

-- `AuditEventRow`
pub record Audit : Type 0 where
  pub event_type : String
  pub entity_type : String
  pub entity_id : ℕ
  pub details : List (String × Detail)
  pub occurred_at : ℕ

-- The tables. Of profiles, content items and run items only the ids are kept, which the foreign
-- keys of a task refer to. New rows stand first.
pub record Db : Type 0 where
  pub profiles : List ℕ
  pub contents : List ℕ
  pub run_items : List ℕ
  pub candidates : List Candidate
  pub tasks : List Task
  pub events : List Event
  pub audits : List Audit

-- The columns of the two unique constraints on claims, for values that a claim would have.
abbrev pub claims : String → ℕ → ℕ → ℕ → Task → Bool
claims client_key generation content_item_id candidate_id t =
    t.client_key == client_key
    && (t.generation == generation
        && (t.content_item_id == content_item_id || t.candidate_id == candidate_id))

-- The condition of the partial index `uq_download_tasks_destination_ownership`.
abbrev pub is_waiting : Task → Bool
is_waiting t =
    is_some t.destination_path && (not t.ownership_acquired && not (is_terminal t.status))

-- Two rows that clash under that index.
unfoldable pub same_destination : Task → Task → Bool
same_destination t u =
    (is_waiting t && is_waiting u)
    && (t.client_key == u.client_key && t.destination_path == u.destination_path)

-- Two rows that clash under a unique constraint or the primary key.
unfoldable pub same_claim : Task → Task → Bool
same_claim t u = t.id == u.id || claims t.client_key t.generation t.content_item_id t.candidate_id u

-- A nullable reference.
abbrev refers_to : Option ℕ → List ℕ → Bool
refers_to none ids = true
refers_to (some i) ids = any (λ (n : ℕ). n == i) ids

-- `PRAGMA foreign_keys = ON`
unfoldable pub refers : Db → Task → Bool
refers db t =
    any (λ (n : ℕ). n == t.profile_id) db.profiles
    && (any (λ (n : ℕ). n == t.content_item_id) db.contents
        && (any (λ (c : Candidate). c.id == t.candidate_id) db.candidates
            && (refers_to t.run_item_id db.run_items
                && refers_to t.supersedes_task_id (map (λ (u : Task). u.id) db.tasks))))
