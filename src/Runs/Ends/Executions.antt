-- ===== src/Runs/Ends/Executions.antt =====
-- Executions of the run service.
use tuntu.Prelude.{
  ℕ, zero, suc, ◌≡◌, inl, inr, refl, false, none, List, [], ◌∷◌, any, Text, String, ◌==◌, nat_eq,
  string_eq, Bool-cases,
}
use tuntu.Errors.{Result, ok, err, OnOk}
use tuntu.Db.Runs.{RunStatus, is_running, has_run_id, is_active, new_run, create_run}
use tuntu.Db.Downloads.{add_audit_event}
use tuntu.Runs.Stats.{empty_stats}
use tuntu.Runs.Settings.{Profile, Snapshot, trigger_word}
use tuntu.Runs.State.{Environment, RunState}
use tuntu.Runs.Actions.{lift, gets, attempt, ◌>>=◌, lift-holds, choice-holds}
use tuntu.Runs.Perform.{perform}
use tuntu.Runs.Locks.{admitted, profile_overlap, global_concurrency_limit, holds}
use tuntu.Runs.Locks.Single.{acquire_overlap, acquire_full, acquire_given, release_own}
use tuntu.Runs.Service.{
  RunDb, RunExecution, Ticket, Request, ending_of, in_run, run_ids, create, skip, run_created,
  after_create, start_run, execute_locked, ServiceState, take_locks, on_db, releasing,
  after_acquire, execute, is_disabled,
}
use tuntu.Runs.Ends.Sources.{IsNoted, perform-IsNoted}
use tuntu.Runs.Ends.Over.{IsOver, perform-IsOver}
use tuntu.Runs.Ends.Created.{IsWhole, Settles, finished}

ending_of-over :
    (r : Result RunStatus) (s : RunState)
    → IsNoted s.sources
    → IsOver (r, s)
    → IsNoted (ending_of r s).sources × (is_running (ending_of r s).status ≡ false)
ending_of-over (ok status) s noted over = (noted, over)
ending_of-over (err e) s noted over = (noted, refl)

module _ (env : Environment) (ticket : Ticket) (request : Request) where
  run_created-Settles :
      (snapshot : Snapshot) (run_id : ℕ) (config trigger : Text) (db : RunDb)
      → any (has_run_id run_id) db.runs ≡ false
      → IsWhole db
      → Settles db ticket.finished_at (
          run_created env ticket request snapshot run_id (record db {
            runs = new_run run_id request.profile_id config trigger ticket.started_at ∷ db.runs;
          }))
  unfolding run_created gets in_run ◌>>=◌
  run_created-Settles snapshot run_id config trigger db new whole =
      let start : RunState = record {
        store = db.store;
        stats = empty_stats;
        sources = [];
        calls = 0;
      } in
      let runs = run_id ∷ run_ids db in
      let x = perform env runs run_id request.profile_id snapshot start in
      let (noted, over) =
        ending_of-over x.0 x.1
          (perform-IsNoted env runs run_id request.profile_id snapshot start (tt, tt))
          (perform-IsOver env runs run_id request.profile_id snapshot start) in
      finished env ticket request run_id config trigger (ending_of x.0 x.1)
        (record db { store = x.1.store }) new whole noted over

  unchanged :
      (db after : RunDb) (r : Result RunExecution)
      → after.runs ≡ db.runs
      → after.results ≡ db.results
      → OnOk (λ (x : RunExecution). x.run_id ≡ none) r
      → IsWhole db
      → Settles db ticket.finished_at (r, after)
  unchanged db after r runs results free whole = (inl (runs, free), rw (runs, results) whole)

  skip-Settles :
      (reason : String) (now : ℕ) (db : RunDb)
      → IsWhole db
      → Settles db ticket.finished_at (skip request.profile_id reason now db)
  unfolding skip add_audit_event
  skip-Settles reason now db whole = (inl (refl, refl), whole)

  -- Creating the row, and what follows.
  created-Settles :
      (snapshot : Snapshot) (db : RunDb)
      → IsWhole db
      → Settles db ticket.finished_at (
          (attempt (create env ticket request snapshot)
              >>= after_create env ticket request snapshot)
            db)
  unfolding create create_run attempt ◌>>=◌ after_create lift
  created-Settles snapshot db whole = elim (Bool-cases (any (has_run_id ticket.run_id) db.runs)) [
    | inl taken ↦ rw taken (inl (refl, tt), whole)
    | inr new ↦ elim (Bool-cases (any (is_active request.profile_id) db.runs)) [
      | inl active ↦
          rw (new, active) (skip-Settles "database_active_run" ticket.skipped_at db whole)
      | inr free ↦
          elim (Bool-cases (any (λ (p : ℕ). p == request.profile_id) db.store.core.profiles)) [
            | inr unknown ↦ rw (new, free, unknown) (inl (refl, tt), whole)
            | inl known ↦
                rw (new, free, known)
                  (run_created-Settles snapshot ticket.run_id (env.config_text snapshot)
                    (trigger_word request.trigger) db new whole)
          ]
    ]
  ]

  start_run-Settles :
      (profile : Profile) (db : RunDb)
      → IsWhole db
      → Settles db ticket.finished_at (start_run env ticket request profile db)
  unfolding start_run
  start_run-Settles profile db whole =
      lift-holds (Settles db ticket.finished_at) _ _ db (λ e. (inl (refl, tt), whole))
        λ configured.
          lift-holds (Settles db ticket.finished_at) _ _ db (λ e. (inl (refl, tt), whole))
            λ snapshot. created-Settles snapshot db whole

  execute_locked-Settles :
      (db : RunDb)
      → IsWhole db
      → Settles db ticket.finished_at (execute_locked env ticket request db)
  unfolding execute_locked gets ◌>>=◌
  execute_locked-Settles db whole =
      lift-holds (Settles db ticket.finished_at) _ _ db (λ e. (inl (refl, tt), whole))
        λ profile.
          choice-holds (Settles db ticket.finished_at) (is_disabled request.trigger profile) _ _ db
            (skip-Settles "profile_disabled" ticket.skipped_at db whole)
            (start_run-Settles profile db whole)

-- The same of the whole service, whose locks are free again.
abbrev pub Rests : ServiceState → ℕ → Result RunExecution × ServiceState → Type 0
Rests before at (r, after) = Settles before.db at (r, after.db) × (after.locks ≡ before.locks)

module _ (env : Environment) (ticket : Ticket) (request : Request) where
  full-Rests :
      (db : RunDb) (held : List ℕ)
      → IsWhole db
      → Rests
          (record { db = db; locks = record { held = held; free = zero } })
          ticket.finished_at
          (after_acquire env ticket request global_concurrency_limit
            (record { db = db; locks = record { held = held; free = zero } }))
  unfolding after_acquire on_db
  full-Rests db held whole =
      (skip-Settles env ticket request "global_concurrency_limit" ticket.skipped_at db whole, refl)

  admitted-Rests :
      (db : RunDb) (held : List ℕ) (free : ℕ)
      → holds request.profile_id held ≡ false
      → IsWhole db
      → Rests
          (record { db = db; locks = record { held = held; free = suc free } })
          ticket.finished_at
          (after_acquire env ticket request admitted
            (record { db = db; locks = record { held = request.profile_id ∷ held; free = free } }))
  unfolding after_acquire releasing on_db
  admitted-Rests db held free h whole = (
    execute_locked-Settles env ticket request db whole,
    release_own request.profile_id held free h,
  )

  overlap-Rests :
      (db : RunDb) (held : List ℕ) (free : ℕ)
      → IsWhole db
      → Rests
          (record { db = db; locks = record { held = held; free = free } })
          ticket.finished_at
          (after_acquire env ticket request profile_overlap
            (record { db = db; locks = record { held = held; free = free } }))
  unfolding after_acquire on_db
  overlap-Rests db held free whole =
      (skip-Settles env ticket request "profile_overlap" ticket.skipped_at db whole, refl)

  idle-Rests :
      (db : RunDb) (held : List ℕ) (free : ℕ)
      → holds request.profile_id held ≡ false
      → IsWhole db
      → Rests
          (record { db = db; locks = record { held = held; free = free } })
          ticket.finished_at
          ((take_locks request.profile_id >>= after_acquire env ticket request)
            (record { db = db; locks = record { held = held; free = free } }))
  unfolding take_locks ◌>>=◌
  idle-Rests db held zero idle whole =
      rw (acquire_full request.profile_id held idle) (full-Rests db held whole)
  idle-Rests db held (suc free) idle whole =
      rw (acquire_given request.profile_id held free idle) (admitted-Rests db held free idle whole)

  acquire-Rests :
      (db : RunDb) (held : List ℕ) (free : ℕ)
      → IsWhole db
      → Rests
          (record { db = db; locks = record { held = held; free = free } })
          ticket.finished_at
          ((take_locks request.profile_id >>= after_acquire env ticket request)
            (record { db = db; locks = record { held = held; free = free } }))
  unfolding take_locks ◌>>=◌
  acquire-Rests db held free whole = elim (Bool-cases (holds request.profile_id held)) [
    | inl busy ↦
        rw (acquire_overlap request.profile_id held free busy) (overlap-Rests db held free whole)
    | inr idle ↦ idle-Rests db held free idle whole
  ]

-- An execution either changes no run and gives back none (it is refused, skipped, or raises before a
-- run is created), or it gives back a run that was not there before and that is now in the table with
-- an end and the status given back, which is not "running". Either way every source result still
-- refers to a run, and the locks are as they were. The condition is that the source results of before
-- refer to runs.
pub execute-Rests :
    (env : Environment) (ticket : Ticket) (request : Request) (s : ServiceState)
    → IsWhole s.db
    → Rests s ticket.finished_at (execute env ticket request s)
unfolding execute
execute-Rests env ticket request s whole =
    lift-holds (Rests s ticket.finished_at) _ _ s (λ e. ((inl (refl, tt), whole), refl))
      λ _. acquire-Rests env ticket request s.db s.locks.held s.locks.free whole
