-- ===== src/Runs/Ends/Sources.antt =====
-- What a run notes of its sources can be stored: one row for each source.
use tuntu.Prelude.{
  ℕ, ◌≡◌, refl, sym, subst, ◌∙◌, inl, inr, String, true, false, List, [], ◌∷◌, any, lookup, insert,
  All, ◌==◌, nat_eq, string_eq, pair_eq, arith, Option-cases,
}
use tuntu.Errors.{Result, ok}
use tuntu.Db.Results.{SourceResult, is_result_of, record_run_source_result}
use tuntu.Selection.Pipeline.Merged.{
  Merges, IsOwn, IsKeyed, insert-IsDistinct, lookup-IsOwn, insert-IsOwn,
}
use tuntu.Providers.Runner.{ProviderOutcome, OutcomeStatus, success, failed}
use tuntu.Runs.Stats.{SourceAggregate, Aggregates, add, aggregate, or_new}
use tuntu.Runs.Settings.{Snapshot}
use tuntu.Runs.State.{Environment, on_core}
use tuntu.Runs.Actions.{pure, ◌>>=◌, Keeps}
use tuntu.Runs.Perform.{perform}
use tuntu.Runs.Service.{RunDb, run_ids, result_row, record_result, record_results}
use tuntu.Runs.Kept.Items.{IsKept}
use tuntu.Runs.Kept.Submits.{KeptBySubmission}
use tuntu.Runs.Kept.Perform.{perform-Keeps}

abbrev pub key_of : SourceAggregate → String × String
key_of a = (a.kind, a.name)

abbrev pub older : SourceAggregate → SourceAggregate → Result SourceAggregate
older a b = ok a

pub older-Merges : Merges (λ a. Unit {0}) key_of older
older-Merges = record { succeeds = λ a b _ _ _. (a, refl, refl, tt) }

-- Each entry has the kind and the name that it stands under, and no two have the same.
abbrev pub IsNoted : Aggregates → Type 0
IsNoted sources = IsKeyed key_of older older-Merges sources

key_of-add : (o : ProviderOutcome) (a : SourceAggregate) → key_of (add o a) ≡ key_of a
unfolding add
key_of-add o a = with_status o.status
  where
    with_status : (s : OutcomeStatus) → key_of (add (record o { status = s }) a) ≡ key_of a
    with_status success = refl
    with_status failed = refl

or_new-own :
    (kind name : String) (d : Aggregates)
    → All (IsOwn key_of older older-Merges) d
    → key_of (or_new kind name (lookup (kind, name) d)) ≡ (kind, name)
or_new-own kind name d own = elim (Option-cases (lookup (kind, name) d)) [
  | inl missing ↦ rw missing refl
  | inr (a, there) ↦ rw there (lookup-IsOwn key_of older older-Merges (kind, name) d own there).0
]

aggregate-IsNoted :
    (os : List ProviderOutcome) (d : Aggregates) → IsNoted d → IsNoted (aggregate os d)
unfolding aggregate
aggregate-IsNoted [] d h = h
aggregate-IsNoted (o ∷ os) d h =
    let a = or_new o.kind o.source (lookup (o.kind, o.source) d) in
    aggregate-IsNoted os (insert (o.kind, o.source) (add o a) d) (
      insert-IsOwn key_of older older-Merges (o.kind, o.source) (add o a) d
          (key_of-add o a ∙ or_new-own o.kind o.source d h.0, tt) h.0,
      insert-IsDistinct (o.kind, o.source) (add o a) d h.1,
    )

IsNoted-IsKept : IsKept (λ s. IsNoted s.sources)
IsNoted-IsKept = record {
  rows = λ s store _ p. p;
  counts = λ s stats _ p. p;
  calls = λ s calls p. p;
  notes = λ s outcomes p. aggregate-IsNoted outcomes s.sources p;
}

IsNoted-KeptBySubmission : KeptBySubmission (λ s. IsNoted s.sources)
unfolding on_core
IsNoted-KeptBySubmission urls client task_id now claimed_at submission s p = p

pub perform-IsNoted :
    (env : Environment) (runs : List ℕ) (run_id profile_id : ℕ) (snapshot : Snapshot)
    → Keeps (λ s. IsNoted s.sources) (perform env runs run_id profile_id snapshot)
perform-IsNoted env runs run_id profile_id snapshot =
    perform-Keeps (λ s. IsNoted s.sources) IsNoted-IsKept (λ s stats p. p) env runs run_id
      profile_id snapshot (λ _. IsNoted-KeptBySubmission)

-- Every row refers to a run.
abbrev pub AreOfRuns : List ℕ → List SourceResult → Type 0
AreOfRuns runs rows = All (λ (r : SourceResult). any (λ (n : ℕ). n == r.run_id) runs ≡ true) rows

-- No row is there for an entry.
abbrev pub IsFree : ℕ → List SourceResult → (String × String) × SourceAggregate → Type 0
IsFree run_id rows (key, a) = any (is_result_of run_id a.kind a.name) rows ≡ false

IsFree-result_row :
    (run_id : ℕ) (a : SourceAggregate) (key : String × String) (rows : List SourceResult)
    (sources : Aggregates)
    → key_of a ≡ key
    → All (λ (q : (String × String) × SourceAggregate). (key == q.0) ≡ false) sources
    → All (IsOwn key_of older older-Merges) sources
    → All (IsFree run_id rows) sources
    → All (IsFree run_id (result_row run_id a ∷ rows)) sources
IsFree-result_row run_id a key rows [] same apart own free = tt
IsFree-result_row run_id a key rows ((k, b) ∷ sources) same apart own free = (
  rw (apart_row, free.0) refl,
  IsFree-result_row run_id a key rows sources same apart.1 own.1 free.1,
)
  where
    apart_row : is_result_of run_id b.kind b.name (result_row run_id a) ≡ false
    apart_row =
        let other_key : (key_of a == key_of b) ≡ false =
          subst (λ (x : String × String). (key_of a == x) ≡ false) (sym own.0.0)
            (subst (λ (x : String × String). (x == k) ≡ false) (sym same) apart.0) in
        ground (arith, other_key)

-- The rows of all sources are stored, next to those of earlier runs.
pub record_results-ok :
    (run_id : ℕ) (sources : Aggregates) (db : RunDb)
    → any (λ (n : ℕ). n == run_id) (run_ids db) ≡ true
    → IsNoted sources
    → All (IsFree run_id db.results) sources
    → AreOfRuns (run_ids db) db.results
    → (rows : List SourceResult) × (record_results run_id sources db
        ≡ (ok tt, record db { results = rows }))
      × AreOfRuns (run_ids db) rows
unfolding record_results record_result record_run_source_result pure ◌>>=◌
record_results-ok run_id [] db known noted free all = (db.results, refl, all)
record_results-ok run_id ((key, a) ∷ sources) db known noted free all =
    let row = result_row run_id a in
    let (rows, done, after) =
      record_results-ok run_id sources (record db { results = row ∷ db.results }) known
        (noted.0.1, noted.1.1)
        (IsFree-result_row run_id a key db.results sources noted.0.0.0 noted.1.0 noted.0.1 free.1)
        (known, all) in
    (rows, rw (free.0, known) done, after)
