-- ===== src/Runs/Kept/Runs.antt =====
-- What a whole run keeps of the tables of its items.
use tuntu.Prelude.{ℕ, ◌≡◌, refl, true, List, [], ◌∷◌, String, Text, nat_eq}
use tuntu.Errors.{Result, ok, err, run_already_active}
use tuntu.Db.Runs.{Run, RunStatus, create_run, finish_run}
use tuntu.Db.Downloads.{add_audit_event}
use tuntu.Db.Items.{Store}
use tuntu.Db.Results.{SourceResult, record_run_source_result}
use tuntu.Runs.Stats.{Aggregates, SourceAggregate}
use tuntu.Runs.Settings.{Profile, Snapshot, snapshot_of, with_manual_keys, check_arguments}
use tuntu.Runs.State.{Environment, RunState}
use tuntu.Runs.Actions.{
  Keeps, >>=-Keeps, pure-Keeps, lift-Keeps, gets-Keeps, attempt-Keeps, lift->>=-Keeps, choice-Keeps,
}
use tuntu.Runs.Perform.{perform}
use tuntu.Runs.Locks.{Admission, admitted, profile_overlap, global_concurrency_limit}
use tuntu.Runs.Service.{
  RunDb, Ticket, Request, in_run, run_ids, record_result, record_results, end_run,
  committed_results, committed_runs, committed_run, create, skip, run_created, after_create,
  start_run, execute_locked, ServiceState, take_locks, on_db, releasing, after_acquire, execute,
  is_disabled, result_row,
}
use tuntu.Runs.Kept.{SameDownloads}
use tuntu.Runs.Kept.Items.{IsKept}
use tuntu.Runs.Kept.Submits.{KeptBySubmission}
use tuntu.Runs.Kept.Perform.{perform-Keeps}

-- A property of the tables that depends on the tasks and their events alone.
module _ (Q : Store → Type 0) (same : (s t : Store) → SameDownloads s t → Q s → Q t) where
  abbrev pub OfStore : RunState → Type 0
  OfStore s = Q s.store

  OfStore-IsKept : IsKept OfStore
  OfStore-IsKept = record {
    rows = λ s store d q. same s.store store d q;
    counts = λ s stats _ q. q;
    calls = λ s calls q. q;
    notes = λ s outcomes q. q;
  }

  abbrev pub OfDb : RunDb → Type 0
  OfDb db = Q db.store

  record_result-Keeps : (run_id : ℕ) (a : SourceAggregate) → Keeps OfDb (record_result run_id a)
  unfolding record_result
  record_result-Keeps run_id a db q =
      kept (record_run_source_result (run_ids db) (result_row run_id a) db.results)
    where
      kept : (r : Result (Unit {0} × List SourceResult)) → Q (committed_results db r).1.store
      kept (ok (_, rows)) = q
      kept (err e) = q

  record_results-Keeps :
      (run_id : ℕ) (sources : Aggregates) → Keeps OfDb (record_results run_id sources)
  unfolding record_results
  record_results-Keeps run_id [] = pure-Keeps OfDb tt
  record_results-Keeps run_id ((key, a) ∷ sources) =
      >>=-Keeps OfDb _ _ (record_result-Keeps run_id a) (λ _. record_results-Keeps run_id sources)

  end_run-Keeps :
      (run_id : ℕ) (status : RunStatus) (stats : Text) (now : ℕ)
      → Keeps OfDb (end_run run_id status stats now)
  unfolding end_run
  end_run-Keeps run_id status stats now db q = kept (finish_run run_id status stats now db.runs)
    where
      kept : (r : Result (List Run)) → Q (committed_runs db r).1.store
      kept (ok runs) = q
      kept (err e) = q

  skip-Keeps :
      (profile_id : ℕ) (reason : String) (now : ℕ) → Keeps OfDb (skip profile_id reason now)
  unfolding skip add_audit_event
  skip-Keeps profile_id reason now db q = same db.store _ (refl, refl) q

  module _ (env : Environment) (ticket : Ticket) (request : Request)
      (submits : (profile : Profile) (configured snapshot : Snapshot)
        → snapshot_of env.root_path profile request.force_dry_run ≡ ok configured
        → with_manual_keys request.trigger request.force_dry_run request.auto_submit_override
            request.manual_raw_keys configured
          ≡ ok snapshot
        → snapshot.effective_auto_submit ≡ true
        → KeptBySubmission OfStore) where
    run_created-Keeps :
        (snapshot : Snapshot) (run_id : ℕ)
        → (snapshot.effective_auto_submit ≡ true → KeptBySubmission OfStore)
        → Keeps OfDb (run_created env ticket request snapshot run_id)
    unfolding run_created in_run
    run_created-Keeps snapshot run_id h = >>=-Keeps OfDb _ _ (gets-Keeps OfDb _) λ runs.
        >>=-Keeps OfDb _ _ (performed runs) λ ending.
          >>=-Keeps OfDb _ _ (record_results-Keeps run_id ending.sources)
            λ _. >>=-Keeps OfDb _ _ (end_run-Keeps _ _ _ _) λ _. pure-Keeps OfDb _
      where
        performed :
            (runs : List ℕ)
            → Keeps OfDb (in_run (perform env runs run_id request.profile_id snapshot))
        performed runs db q =
            perform-Keeps OfStore OfStore-IsKept (λ s stats q. q) env runs run_id request.profile_id
              snapshot h _ q

    create-Keeps : (snapshot : Snapshot) → Keeps OfDb (create env ticket request snapshot)
    unfolding create
    create-Keeps snapshot db q = kept (create_run _ _ _ _ _ _ db.runs)
      where
        kept : (r : Result (ℕ × List Run)) → Q (committed_run db r).1.store
        kept (ok (i, runs)) = q
        kept (err e) = q

    after_create-Keeps :
        (snapshot : Snapshot) (r : Result ℕ)
        → (snapshot.effective_auto_submit ≡ true → KeptBySubmission OfStore)
        → Keeps OfDb (after_create env ticket request snapshot r)
    unfolding after_create
    after_create-Keeps snapshot (ok run_id) h = run_created-Keeps snapshot run_id h
    after_create-Keeps snapshot (err run_already_active) h = skip-Keeps _ _ _
    after_create-Keeps snapshot (err raised) h = lift-Keeps OfDb (err raised)

    start_run-Keeps : (profile : Profile) → Keeps OfDb (start_run env ticket request profile)
    unfolding start_run
    start_run-Keeps profile = lift->>=-Keeps OfDb _ _ λ configured e.
        lift->>=-Keeps OfDb _ _ λ snapshot f.
          >>=-Keeps OfDb _ _ (attempt-Keeps OfDb _ (create-Keeps snapshot))
            λ created. after_create-Keeps snapshot created (submits profile configured snapshot e f)

    execute_locked-Keeps : Keeps OfDb (execute_locked env ticket request)
    unfolding execute_locked
    execute_locked-Keeps = >>=-Keeps OfDb _ _ (gets-Keeps OfDb _) λ found.
        >>=-Keeps OfDb _ _ (lift-Keeps OfDb _) λ profile.
          choice-Keeps OfDb (is_disabled request.trigger profile) _ _ (λ _. skip-Keeps _ _ _)
            (λ _. start_run-Keeps profile)

    after_acquire-Keeps :
        (admission : Admission)
        → Keeps (λ (s : ServiceState). Q s.db.store) (after_acquire env ticket request admission)
    unfolding after_acquire on_db releasing
    after_acquire-Keeps admitted s q = execute_locked-Keeps s.db q
    after_acquire-Keeps profile_overlap s q = skip-Keeps _ _ _ s.db q
    after_acquire-Keeps global_concurrency_limit s q = skip-Keeps _ _ _ s.db q

  pub execute-Keeps :
      (env : Environment) (ticket : Ticket) (request : Request)
      → ((x : Unit {0}) (profile : Profile) (configured snapshot : Snapshot)
          → check_arguments request.trigger request.manual_raw_keys request.auto_submit_override
            ≡ ok x
          → snapshot_of env.root_path profile request.force_dry_run ≡ ok configured
          → with_manual_keys request.trigger request.force_dry_run request.auto_submit_override
              request.manual_raw_keys configured
            ≡ ok snapshot
          → snapshot.effective_auto_submit ≡ true
          → KeptBySubmission OfStore)
      → Keeps (λ (s : ServiceState). Q s.db.store) (execute env ticket request)
  unfolding execute take_locks
  execute-Keeps env ticket request submits = lift->>=-Keeps _ _ _ λ x checked.
      >>=-Keeps _ _ _ taken λ admission.
        after_acquire-Keeps env ticket request
          (λ profile configured snapshot. submits x profile configured snapshot checked) admission
    where
      taken : Keeps (λ (s : ServiceState). Q s.db.store) (take_locks request.profile_id)
      taken s q = q
