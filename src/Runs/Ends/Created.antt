-- ===== src/Runs/Ends/Created.antt =====
-- A run that has just been created, to its end.
use tuntu.Prelude.{
  ℕ, ◌≡◌, ◌⊎◌, inl, inr, refl, sym, ap, ◌∙◌, subst, Bool, true, false, ◌||◌, none, some, List, [],
  ◌∷◌, map, any, Text, All, All-map, String, ◌==◌, nat_eq, string_eq, Bool-cases, beq_self,
}
use tuntu.Errors.{Result, ok, OnOk}
use tuntu.Db.Runs.{
  Run, RunStatus, is_running, has_run_id, new_run, ended, end_where, finish_run, get_run,
}
use tuntu.Db.Results.{SourceResult, is_result_of}
use tuntu.Runs.Stats.{Aggregates}
use tuntu.Runs.State.{Environment}
use tuntu.Runs.Actions.{pure, ◌>>=◌}
use tuntu.Runs.Service.{
  RunDb, RunExecution, Ticket, Request, Ending, run_ids, record_results, end_run, ran,
}
use tuntu.Runs.Ends.Sources.{IsNoted, AreOfRuns, IsFree, record_results-ok}

-- An execution either changes no run and gives back none, or gives back a run that is new, and that
-- has ended with the status given back.
abbrev pub IsSettled : RunDb → ℕ → Result RunExecution × RunDb → Type 0
IsSettled before at (r, after) =
    ((after.runs ≡ before.runs) × OnOk (λ (x : RunExecution). x.run_id ≡ none) r)
    ⊎ ((run_id : ℕ) × (status : RunStatus) × (run : Run) × (any (has_run_id run_id) before.runs
          ≡ false)
        × (r ≡ ok (ran run_id status))
        × (get_run run_id after.runs ≡ some run)
        × (run.status ≡ status)
        × (is_running status ≡ false)
        × (run.finished_at ≡ some at))

-- Every source result refers to a run.
abbrev pub IsWhole : RunDb → Type 0
IsWhole db = AreOfRuns (run_ids db) db.results

abbrev pub Settles : RunDb → ℕ → Result RunExecution × RunDb → Type 0
Settles before at x = IsSettled before at x × IsWhole x.1

ids-end_where :
    (p : Run → Bool) (status : RunStatus) (stats : Text) (now : ℕ) (runs : List Run)
    → map (λ (r : Run). r.id) (end_where p status stats now runs) ≡ map (λ (r : Run). r.id) runs
ids-end_where p status stats now [] = refl
ids-end_where p status stats now (r ∷ runs) = elim (Bool-cases (p r)) [
  | inl hit ↦ rw hit (ap (λ ids. r.id ∷ ids) (ids-end_where p status stats now runs))
  | inr miss ↦ rw miss (ap (λ ids. r.id ∷ ids) (ids-end_where p status stats now runs))
]

-- The ids of a new run and of those before it, and what was noted then.
free_of_new :
    (run_id : ℕ) (ids : List ℕ) (rows : List SourceResult) (kind name : String)
    → any (λ (n : ℕ). n == run_id) ids ≡ false
    → AreOfRuns ids rows
    → any (is_result_of run_id kind name) rows ≡ false
free_of_new run_id ids [] kind name new all = refl
free_of_new run_id ids (r ∷ rows) kind name new all = elim (Bool-cases (r.run_id == run_id)) [
  | inr apart ↦ rw apart (free_of_new run_id ids rows kind name new all.1)
  | inl same ↦ absurd (
      cc (
        new,
        all.0,
        ap (λ i. any (λ (n : ℕ). n == i) ids) ((nat_eq.equal_iff r.run_id run_id).0 same),
      ))
]

AreOfRuns-IsFree :
    (run_id : ℕ) (ids : List ℕ) (rows : List SourceResult) (sources : Aggregates)
    → any (λ (n : ℕ). n == run_id) ids ≡ false
    → AreOfRuns ids rows
    → All (IsFree run_id rows) sources
AreOfRuns-IsFree run_id ids rows [] new all = tt
AreOfRuns-IsFree run_id ids rows ((key, a) ∷ sources) new all = (
  free_of_new run_id ids rows a.kind a.name new all,
  AreOfRuns-IsFree run_id ids rows sources new all,
)

still_runs :
    (i : ℕ) (ids : List ℕ) (rows : List SourceResult)
    → AreOfRuns ids rows
    → AreOfRuns (i ∷ ids) rows
still_runs i ids rows all = All-map rows (λ r h. rw h (or_true (i == r.run_id))) all
  where
    or_true : (b : Bool) → (b || true) ≡ true
    or_true true = refl
    or_true false = refl

ids-any :
    (run_id : ℕ) (runs : List Run)
    → any (λ (n : ℕ). n == run_id) (map (λ (r : Run). r.id) runs) ≡ any (has_run_id run_id) runs
ids-any run_id [] = refl
ids-any run_id (r ∷ runs) = ap (λ b. r.id == run_id || b) (ids-any run_id runs)

finish_run-new :
    (run_id profile_id : ℕ) (config trigger : Text) (at : ℕ) (status : RunStatus) (stats : Text)
    (now : ℕ) (runs : List Run)
    → is_running status ≡ false
    → finish_run run_id status stats now (new_run run_id profile_id config trigger at ∷ runs)
      ≡ ok (
          ended status stats now (new_run run_id profile_id config trigger at)
          ∷ end_where (has_run_id run_id) status stats now runs)
unfolding finish_run
finish_run-new run_id profile_id config trigger at status stats now runs over =
    rw (over, beq_self run_id) (rw (beq_self run_id) refl)

module _ (env : Environment) (ticket : Ticket) (request : Request) where
  -- The `finally` block, on the tables of a run that has just been created.
  pub finished :
      (run_id : ℕ) (config trigger : Text) (ending : Ending) (db : RunDb)
      → any (has_run_id run_id) db.runs ≡ false
      → IsWhole db
      → IsNoted ending.sources
      → is_running ending.status ≡ false
      → Settles db ticket.finished_at (
          (record_results run_id ending.sources >>= λ _.
          end_run run_id ending.status (env.stats_text ending.stats) ticket.finished_at >>= λ _.
          pure (ran run_id ending.status))
            (record db {
              runs = new_run run_id request.profile_id config trigger ticket.started_at ∷ db.runs;
            }))
  unfolding ◌>>=◌ pure end_run get_run
  finished run_id config trigger ending db new whole noted over =
      let r = new_run run_id request.profile_id config trigger ticket.started_at in
      let db1 : RunDb = record db { runs = r ∷ db.runs } in
      let absent = ids-any run_id db.runs ∙ new in
      let (rows, stored, kept) =
        record_results-ok run_id ending.sources db1 (rw (beq_self run_id) refl) noted
          (AreOfRuns-IsFree run_id (run_ids db) db.results ending.sources absent whole)
          (still_runs run_id (run_ids db) db.results whole) in
      let end =
        finish_run-new run_id request.profile_id config trigger ticket.started_at ending.status
          (env.stats_text ending.stats) ticket.finished_at db.runs over in
      rw (stored, end)
        (
          inr (
            run_id,
            ending.status,
            ended ending.status (env.stats_text ending.stats) ticket.finished_at r,
            new,
            refl,
            rw (beq_self run_id) refl,
            refl,
            over,
            refl,
          ),
          subst (λ ids. AreOfRuns (run_id ∷ ids) rows)
              (sym (
                ids-end_where (has_run_id run_id) ending.status (env.stats_text ending.stats)
                  ticket.finished_at db.runs))
              kept,
        )
