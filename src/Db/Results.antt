-- ===== src/Db/Results.antt =====
-- src/tuntu/db/repository.py: the methods on what a run noted of each source, and their row in
-- src/tuntu/db/models.py.
use tuntu.Prelude.{
  ℕ, String, Bool, ◌&&◌, Option, List, ◌∷◌, any, keep, sorted, codes, text_le, lex, by, ◌==◌,
  nat_eq, string_eq, if◌then◌else◌,
}
use tuntu.Errors.{Result, ok, err, integrity_error}

-- `RunSourceResultRow`; every caller passes numbers, and the error code as the summary too.
pub record SourceResult : Type 0 where
  pub run_id : ℕ
  pub source_kind : String
  pub source_name : String
  pub status : String
  pub latency_ms : ℕ
  pub result_count : ℕ
  pub error_code : Option String
  pub error_summary : Option String

abbrev pub is_result_of : ℕ → String → String → SourceResult → Bool
is_result_of run_id kind name r =
    r.run_id == run_id && (r.source_kind == kind && r.source_name == name)

-- `record_run_source_result`: the INSERT of a row. The ids of the runs, which the row refers to, are
-- an argument.
unfoldable pub record_run_source_result :
    (runs : List ℕ) → SourceResult → List SourceResult → Result (Unit {0} × List SourceResult)
record_run_source_result runs row rows =
    if any (is_result_of row.run_id row.source_kind row.source_name) rows
    then err integrity_error
    else if any (λ (n : ℕ). n == row.run_id) runs
    then ok (tt, row ∷ rows)
    else err integrity_error

-- `order_by(source_kind, source_name)`
abbrev source_le : SourceResult → SourceResult → Bool
source_le =
    by (λ (r : SourceResult). (codes r.source_kind, codes r.source_name)) (lex text_le text_le)

-- `list_run_source_results`
unfoldable pub list_run_source_results : ℕ → List SourceResult → List SourceResult
list_run_source_results run_id rows =
    sorted source_le (keep (λ (r : SourceResult). r.run_id == run_id) rows)
