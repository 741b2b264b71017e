-- ===== src/Runs/Service.antt =====
-- src/tuntu/runs/service.py: `execute` and `_execute_locked`.
use tuntu.Prelude.{
  ℕ, String, Bool, false, not, Option, none, some, List, [], ◌∷◌, map, is_some, Text, nat_eq,
  string_eq, if◌then◌else◌,
}
use tuntu.Errors.{Result, ok, err, key_error, value_error, run_already_active}
use tuntu.Db.Tables.{word}
use tuntu.Db.Runs.{Run, RunStatus, create_run, finish_run}
use tuntu.Db.Downloads.{add_audit_event}
use tuntu.Db.Items.{Store}
use tuntu.Db.Profiles.{get_profile}
use tuntu.Db.Results.{SourceResult, record_run_source_result}
use tuntu.Runs.Stats.{Stats, empty_stats, Aggregates, SourceAggregate, aggregate_status}
use tuntu.Runs.Settings.{
  Profile, Snapshot, Trigger, scheduled, trigger_word, snapshot_of, with_manual_keys,
  check_arguments,
}
use tuntu.Runs.State.{Environment, RunState}
use tuntu.Runs.Actions.{Action, pure, lift, gets, attempt, ◌>>=◌}
use tuntu.Runs.Perform.{perform}
use tuntu.Runs.Locks.{
  Locks, Admission, admitted, profile_overlap, global_concurrency_limit, acquire, release,
}

-- `RunExecution`
pub record RunExecution : Type 0 where
  pub run_id : Option ℕ
  pub status : String
  pub skipped_reason : Option String

abbrev pub status_word : RunStatus → String
status_word RunStatus.running = "running"
status_word RunStatus.success = "success"
status_word RunStatus.partial = "partial"
status_word RunStatus.failed = "failed"

-- All tables that a run changes.
pub record RunDb : Type 0 where
  pub store : Store
  pub profiles : List Profile
  pub runs : List Run
  pub results : List SourceResult

-- The UUID of the run, and the clock's readings at its beginning, its end and a skip.
pub record Ticket : Type 0 where
  pub run_id : ℕ
  pub started_at : ℕ
  pub finished_at : ℕ
  pub skipped_at : ℕ

-- The arguments of `execute`.
pub record Request : Type 0 where
  pub profile_id : ℕ
  pub trigger : Trigger
  pub force_dry_run : Bool
  pub manual_raw_keys : Option (List Text)
  pub auto_submit_override : Option Bool

-- What is left of the `try` block: `except Exception` makes the run fail.
pub record Ending : Type 0 where
  pub status : RunStatus
  pub stats : Stats
  pub sources : Aggregates

abbrev pub ending_of : Result RunStatus → RunState → Ending
ending_of (ok status) s = record { status = status; stats = s.stats; sources = s.sources }
ending_of (err e) s = record {
  status = RunStatus.failed;
  stats = record s.stats { error_code = some "run_initialization_or_execution_failed" };
  sources = s.sources;
}

-- The `try` block on the tables.
unfoldable pub in_run : Action RunState RunStatus → Action RunDb Ending
in_run m db =
    let (r, s) = m (record { store = db.store; stats = empty_stats; sources = []; calls = 0 }) in
    (ok (ending_of r s), record db { store = s.store })

abbrev pub run_ids : RunDb → List ℕ
run_ids db = map (λ (r : Run). r.id) db.runs

abbrev pub result_row : ℕ → SourceAggregate → SourceResult
result_row run_id a = record {
  run_id = run_id;
  source_kind = a.kind;
  source_name = a.name;
  status = aggregate_status a;
  latency_ms = a.latency_ms;
  result_count = a.result_count;
  error_code = a.error_code;
  error_summary = a.error_code;
}

abbrev pub committed_results :
    RunDb → Result (Unit {0} × List SourceResult) → Result (Unit {0}) × RunDb
committed_results db (ok (_, results)) = (ok tt, record db { results = results })
committed_results db (err e) = (err e, db)

unfoldable pub record_result : ℕ → SourceAggregate → Action RunDb (Unit {0})
record_result run_id a db =
    committed_results db (record_run_source_result (run_ids db) (result_row run_id a) db.results)

-- The loop of the `finally` block.
unfoldable pub record_results : ℕ → Aggregates → Action RunDb (Unit {0})
record_results run_id [] = pure tt
record_results run_id ((key, a) ∷ sources) = do
  _ ← record_result run_id a
  record_results run_id sources

abbrev pub committed_runs : RunDb → Result (List Run) → Result (Unit {0}) × RunDb
committed_runs db (ok runs) = (ok tt, record db { runs = runs })
committed_runs db (err e) = (err e, db)

unfoldable pub end_run : ℕ → RunStatus → Text → ℕ → Action RunDb (Unit {0})
end_run run_id status stats now db = committed_runs db (finish_run run_id status stats now db.runs)

abbrev pub committed_run : RunDb → Result (ℕ × List Run) → Result ℕ × RunDb
committed_run db (ok (run_id, runs)) = (ok run_id, record db { runs = runs })
committed_run db (err e) = (err e, db)

abbrev pub ran : ℕ → RunStatus → RunExecution
ran run_id status = record {
  run_id = some run_id;
  status = status_word status;
  skipped_reason = none;
}

abbrev pub skipped : String → RunExecution
skipped reason = record { run_id = none; status = "skipped"; skipped_reason = some reason }

abbrev pub after_audit : RunExecution → Result (Unit {0}) → Result RunExecution
after_audit x (ok _) = ok x
after_audit x (err e) = err e

-- `_record_skip`, and the value that is returned after it
unfoldable pub skip : ℕ → String → ℕ → Action RunDb RunExecution
skip profile_id reason now db =
    let (r, core) =
      add_audit_event "run_skipped" "profile" profile_id (("reason", word reason) ∷ []) now
        db.store.core in
    (after_audit (skipped reason) r, record db { store = record db.store { core = core } })

abbrev pub may_run : Option Profile → Result Profile
may_run none = err key_error
may_run (some p) = if is_some p.archived_at then err value_error else ok p

abbrev pub is_disabled : Trigger → Profile → Bool
is_disabled scheduled p = not p.enabled
is_disabled _ p = false

module _ (env : Environment) (ticket : Ticket) (request : Request) where
  -- A run whose row is there, to its end.
  unfoldable pub run_created : Snapshot → ℕ → Action RunDb RunExecution
  run_created snapshot run_id = do
    runs ← gets run_ids
    ending ← in_run (perform env runs run_id request.profile_id snapshot)
    _ ← record_results run_id ending.sources
    _ ← end_run run_id ending.status (env.stats_text ending.stats) ticket.finished_at
    pure (ran run_id ending.status)

  unfoldable pub create : Snapshot → Action RunDb ℕ
  create snapshot db = committed_run db (
      create_run db.store.core.profiles ticket.run_id request.profile_id (env.config_text snapshot)
        (trigger_word request.trigger) ticket.started_at db.runs)

  unfoldable pub after_create : Snapshot → Result ℕ → Action RunDb RunExecution
  after_create snapshot (ok run_id) = run_created snapshot run_id
  after_create snapshot (err run_already_active) =
      skip request.profile_id "database_active_run" ticket.skipped_at
  after_create snapshot (err raised) = lift (err raised)

  unfoldable pub start_run : Profile → Action RunDb RunExecution
  start_run profile = do
    configured ← lift (snapshot_of env.root_path profile request.force_dry_run)
    snapshot ← lift (
        with_manual_keys request.trigger request.force_dry_run request.auto_submit_override
          request.manual_raw_keys configured)
    created ← attempt (create snapshot)
    after_create snapshot created

  -- `_execute_locked`
  unfoldable pub execute_locked : Action RunDb RunExecution
  execute_locked = do
    found ← gets λ (db : RunDb). get_profile request.profile_id db.profiles
    profile ← lift (may_run found)
    if is_disabled request.trigger profile
        then skip request.profile_id "profile_disabled" ticket.skipped_at
        else start_run profile

-- The tables, and the locks of the service.
pub record ServiceState : Type 0 where
  pub db : RunDb
  pub locks : Locks

unfoldable pub take_locks : ℕ → Action ServiceState Admission
take_locks profile_id s =
    let (admission, locks) = acquire profile_id s.locks in
    (ok admission, record s { locks = locks })

unfoldable pub on_db : {A : Type 0} → Action RunDb A → Action ServiceState A
on_db m s = let (r, db) = m s.db in (r, record s { db = db })

-- `try: … finally: release`
unfoldable pub releasing : {A : Type 0} → ℕ → Action ServiceState A → Action ServiceState A
releasing profile_id m s =
    let (r, s') = m s in (r, record s' { locks = release profile_id s'.locks })

module _ (env : Environment) (ticket : Ticket) (request : Request) where
  unfoldable pub after_acquire : Admission → Action ServiceState RunExecution
  after_acquire admitted = releasing request.profile_id (on_db (execute_locked env ticket request))
  after_acquire profile_overlap =
      on_db (skip request.profile_id "profile_overlap" ticket.skipped_at)
  after_acquire global_concurrency_limit =
      on_db (skip request.profile_id "global_concurrency_limit" ticket.skipped_at)

  unfoldable pub execute : Action ServiceState RunExecution
  execute = do
    _ ← lift (check_arguments request.trigger request.manual_raw_keys request.auto_submit_override)
    admission ← take_locks request.profile_id
    after_acquire admission
