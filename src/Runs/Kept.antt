-- ===== src/Runs/Kept.antt =====
-- What the processing of an item keeps, whether it returns or raises.
pub mod Items
pub mod Submits
pub mod Perform
pub mod Runs
use tuntu.Prelude.{
  ℕ, suc, ◌≡◌, refl, inl, inr, String, Bool, true, false, not, ◌&&◌, ◌||◌, Option, none, some, List,
  [], ◌∷◌, Text, any, all, first, length, is_empty, nat_eq, list_eq, ◌==◌, if◌then◌else◌,
  Bool-cases, Option-cases,
}
use tuntu.Errors.{
  Result, ok, err, Error, OnOk, key_error, value_error, invalid_transition, confirmation_required,
  idempotency_conflict, destination_busy, integrity_error, run_already_active, invalid_magnet,
  invalid_path, invalid_profile_subdir, cloud_drive_error, attribute_error,
}
use tuntu.Magnet.{strip}
use tuntu.Db.Tables.{Db, Candidate, Task}
use tuntu.Db.Session.{read}
use tuntu.Db.Downloads.{DownloadTask}
use tuntu.Db.Items.{
  Store, ContentRow, RunItem, EvaluationRow, upsert_content, upsert_candidate, add_run_item,
  update_run_item_status, add_candidate_evidence, add_evaluation, candidate_found, is_content,
  upsert_found, refers_to_result, run_item_id_of, has_row,
}
use tuntu.Selection.Evidence.{RankingEvidence, CandidateEvidence}
use tuntu.Selection.Content.{ContentItem}
use tuntu.Selection.Candidates.{is_hex_digit}
use tuntu.Selection.Rules.{RuleReason}
use tuntu.Runs.State.{RunState, stored}
use tuntu.Runs.Actions.{Action, Keeps}

-- The tasks and their events are those of before.
abbrev pub SameDownloads : Store → Store → Type 0
SameDownloads s t = (t.core.tasks ≡ s.core.tasks) × (t.core.events ≡ s.core.events)

-- A method that leaves them alone.
abbrev pub IsApart : {A : Type 0} → (Store → Result (A × Store)) → Type 0
IsApart body = (s : Store) → OnOk (λ r. SameDownloads s r.1) (body s)

pub upsert_content-IsApart :
    (casefold : Text → Text) (c : ContentItem) → IsApart (upsert_content casefold c)
unfolding upsert_content
upsert_content-IsApart casefold c s =
    let namespace = casefold (strip c.namespace) in
    let normalized_key = casefold (strip c.normalized_key) in
    found (first (is_content namespace normalized_key) s.contents)
  where
    found :
        (o : Option ContentRow)
        → SameDownloads s
            (upsert_found casefold
              (casefold (strip c.namespace))
              (casefold (strip c.normalized_key))
              c
              s
              o).1
    found none = (refl, refl)
    found (some r) = (refl, refl)

pub upsert_candidate-IsApart :
    (casefold : Text → Text) (btih : Text) → IsApart (upsert_candidate casefold btih)
unfolding upsert_candidate
upsert_candidate-IsApart casefold btih s =
    let key = casefold (strip btih) in
    found key (first (λ (c : Candidate). c.btih == key) s.core.candidates)
  where
    found :
        (key : Text) (o : Option Candidate)
        → OnOk (λ r. SameDownloads s r.1) (candidate_found casefold key s o)
    found key (some c) = (refl, refl)
    found key none = elim (Bool-cases (length key == 40 && all is_hex_digit key)) [
      | inl valid ↦ rw valid (refl, refl)
      | inr invalid ↦ rw invalid tt
    ]

pub add_run_item-IsApart :
    (runs : List ℕ) (run_id content_item_id : ℕ) (status : String) (rankings : List RankingEvidence)
    → IsApart (add_run_item runs run_id content_item_id status rankings)
unfolding add_run_item
add_run_item-IsApart runs run_id content_item_id status rankings s =
    elim (Bool-cases (
      any (λ (r : RunItem). r.run_id == run_id && r.content_item_id == content_item_id)
        s.run_items)) [
          | inl taken ↦ rw taken tt
          | inr fresh ↦
              elim (Bool-cases (
                any (λ (n : ℕ). n == run_id) runs
                && any (λ (n : ℕ). n == content_item_id) s.core.contents)) [
                  | inl known ↦ rw (fresh, known) (refl, refl)
                  | inr unknown ↦ rw (fresh, unknown) tt
                ]
        ]

pub update_run_item_status-IsApart :
    (run_item_id : ℕ) (status : String) (duplicate_task_id : Option ℕ)
    → IsApart (update_run_item_status run_item_id status duplicate_task_id)
unfolding update_run_item_status
update_run_item_status-IsApart run_item_id status duplicate_task_id s =
    elim (Bool-cases (has_row run_item_id_of run_item_id s.run_items)) [
      | inl there ↦ rw there (refl, refl)
      | inr missing ↦ rw missing tt
    ]

pub add_candidate_evidence-IsApart :
    (run_item_id candidate_id : ℕ) (e : CandidateEvidence)
    → IsApart (add_candidate_evidence run_item_id candidate_id e)
unfolding add_candidate_evidence
add_candidate_evidence-IsApart run_item_id candidate_id e s =
    elim (Bool-cases (refers_to_result run_item_id candidate_id s)) [
      | inl there ↦ rw there (refl, refl)
      | inr missing ↦ rw missing tt
    ]

pub add_evaluation-IsApart :
    (run_item_id candidate_id : ℕ) (accepted : Bool) (reasons : List RuleReason)
    → IsApart (add_evaluation run_item_id candidate_id accepted reasons)
unfolding add_evaluation
add_evaluation-IsApart run_item_id candidate_id accepted reasons s =
    elim (Bool-cases (
      any (λ (r : EvaluationRow). r.run_item_id == run_item_id && r.candidate_id == candidate_id)
        s.evaluations)) [
          | inl taken ↦ rw taken tt
          | inr fresh ↦ elim (Bool-cases (refers_to_result run_item_id candidate_id s)) [
            | inl there ↦ rw (fresh, there) (refl, refl)
            | inr missing ↦ rw (fresh, missing) tt
          ]
        ]
