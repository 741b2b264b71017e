-- ===== src/Db/Runs.antt =====
-- src/tuntu/db/repository.py: the methods on runs, and their row in src/tuntu/db/models.py. A run's
-- UUID is a number; a configuration and statistics are the text of their JSON.
pub mod Traces
pub mod Ended
use tuntu.Prelude.{
  ℕ, Bool, true, false, not, ◌&&◌, ◌||◌, Option, none, some, List, [], ◌∷◌, any, map, count, first,
  Text, codes, length, ◌==◌, nat_eq, if◌then◌else◌,
}
use tuntu.Errors.{Result, ok, err, key_error, value_error, integrity_error, run_already_active}

pub data RunStatus : Type 0 where
  running success partial failed : RunStatus

abbrev pub is_running : RunStatus → Bool
is_running running = true
is_running _ = false

-- `RunRow`
pub record Run : Type 0 where
  pub id : ℕ
  pub profile_id : ℕ
  pub status : RunStatus
  pub trigger : Text
  pub config_snapshot : Text
  pub stats : Text
  pub started_at : ℕ
  pub finished_at : Option ℕ

abbrev pub has_run_id : ℕ → Run → Bool
has_run_id id r = r.id == id

-- A row that the partial index `uq_runs_running_profile` lets stand once.
abbrev pub is_active : ℕ → Run → Bool
is_active profile_id r = r.profile_id == profile_id && is_running r.status

abbrev pub new_run : (run_id profile_id : ℕ) (config_snapshot trigger : Text) (now : ℕ) → Run
new_run run_id profile_id config_snapshot trigger now = record {
  id = run_id;
  profile_id = profile_id;
  status = running;
  trigger = trigger;
  config_snapshot = config_snapshot;
  stats = codes "{}";
  started_at = now;
  finished_at = none;
}

-- `create_run`. The profiles are the ids that the foreign key refers to; SQLite reports a unique
-- column before a foreign key.
unfoldable pub create_run :
    (profiles : List ℕ) (run_id profile_id : ℕ) (config_snapshot trigger : Text) (now : ℕ)
    → List Run
    → Result (ℕ × List Run)
create_run profiles run_id profile_id config_snapshot trigger now runs =
    if any (has_run_id run_id) runs
    then err integrity_error
    else if any (is_active profile_id) runs
    then err run_already_active
    else if not (any (λ (p : ℕ). p == profile_id) profiles)
    then err integrity_error
    else ok (run_id, new_run run_id profile_id config_snapshot trigger now ∷ runs)

abbrev pub ended : RunStatus → Text → ℕ → Run → Run
ended status stats now r = record r { status = status; stats = stats; finished_at = some now }

-- `UPDATE … WHERE id = …`
abbrev pub end_where : (Run → Bool) → RunStatus → Text → ℕ → List Run → List Run
end_where p status stats now runs = map (λ r. if p r then ended status stats now r else r) runs

abbrev pub finish_found : Option Run → RunStatus → Text → ℕ → List Run → Result (List Run)
finish_found none status stats now runs = err key_error
finish_found (some r) status stats now runs =
    if not (is_running r.status)
    then err value_error
    else ok (end_where (has_run_id r.id) status stats now runs)

-- `finish_run`
unfoldable pub finish_run : (run_id : ℕ) → RunStatus → Text → ℕ → List Run → Result (List Run)
finish_run run_id status stats now runs =
    if is_running status
    then err value_error
    else finish_found (first (has_run_id run_id) runs) status stats now runs

-- `fail_interrupted_runs`, at the start of the process: the new rows and how many were changed.
unfoldable pub fail_interrupted_runs : ℕ → List Run → ℕ × List Run
fail_interrupted_runs now runs = (
  count (λ r. is_running r.status) runs,
  end_where (λ r. is_running r.status) failed (codes "{\"error_code\": \"process_interrupted\"}")
      now runs,
)

unfoldable pub get_run : ℕ → List Run → Option Run
get_run run_id runs = first (has_run_id run_id) runs
