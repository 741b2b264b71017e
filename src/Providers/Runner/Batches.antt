-- ===== src/Providers/Runner/Batches.antt =====
-- What a batch holds, and what the health of the sources says after it.
use tuntu.Prelude.{
  ◌≡◌, refl, sym, ap, ◌∙◌, String, Option, none, some, List, [], ◌∷◌, ◌++◌, append-nil,
  append_assoc, map, length,
}
use tuntu.Db.Sources.Streaks.{Report, reported}
use tuntu.Db.Sources.Streaks
use tuntu.Providers.Runner.{
  Answer, gives, provider_error, unexpected, Provider, Reading, ProviderFailure, ProviderOutcome,
  OutcomeStatus, success, failed, ProviderBatch, noted_failure, noted_success, run_provider, Asked,
  run_loop, run,
}

abbrev pub status_of : Option String → OutcomeStatus
status_of none = success
status_of (some code) = failed

abbrev pub failure_of : Provider → Option String → List ProviderFailure
failure_of p none = []
failure_of p (some code) = record { source = p.name; kind = p.kind; error_code = code } ∷ []

module _ {A : Type 0} where
  abbrev pub values_of : Answer A → List A
  values_of (gives values) = values
  values_of (provider_error code) = []
  values_of unexpected = []

  abbrev pub code_of : Answer A → Option String
  code_of (gives values) = none
  code_of (provider_error code) = some code
  code_of unexpected = some "provider_unexpected_error"

  abbrev pub outcome_of : Asked A → ProviderOutcome
  outcome_of a = record {
    source = a.provider.name;
    kind = a.provider.kind;
    status = status_of (code_of a.answer);
    latency_ms = a.reading.elapsed;
    result_count = length (values_of a.answer);
    error_code = code_of a.answer;
  }

  abbrev pub failures_of : List (Asked A) → List ProviderFailure
  failures_of [] = []
  failures_of (a ∷ as') = failure_of a.provider (code_of a.answer) ++ failures_of as'

  abbrev pub all_values : List (Asked A) → List A
  all_values [] = []
  all_values (a ∷ as') = values_of a.answer ++ all_values as'

  abbrev pub report_of : Provider → Reading → Answer A → Report
  report_of p reading (gives values) =
      Streaks.success p.kind p.name reading.elapsed (length values) reading.now
  report_of p reading (provider_error code) =
      Streaks.failure p.kind p.name code code reading.elapsed reading.now
  report_of p reading unexpected =
      Streaks.failure p.kind p.name "provider_unexpected_error" "provider_unexpected_error"
        reading.elapsed reading.now

  -- The reports of a run, the newest first, before older ones.
  abbrev pub reports_of : List (Asked A) → List Report → List Report
  reports_of [] older = older
  reports_of (a ∷ as') older = reports_of as' (report_of a.provider a.reading a.answer ∷ older)

  -- The batch that the sources call for, after what is there.
  abbrev pub extended : ProviderBatch A → List (Asked A) → ProviderBatch A
  extended b asked = record {
    values = b.values ++ all_values asked;
    failures = b.failures ++ failures_of asked;
    outcomes = b.outcomes ++ map outcome_of asked;
  }

  same_batch :
      (b : ProviderBatch A) {values : List A} {failures : List ProviderFailure}
      {outcomes : List ProviderOutcome}
      → b.values ≡ values
      → b.failures ≡ failures
      → b.outcomes ≡ outcomes
      → b ≡ record { values = values; failures = failures; outcomes = outcomes }
  same_batch b p q r = rw (← p, ← q, ← r) refl

  run_loop-extended :
      (asked : List (Asked A)) (b : ProviderBatch A) (older : List Report)
      → run_loop asked (record { batch = b; health = reported older })
        ≡ record { batch = extended b asked; health = reported (reports_of asked older) }
  unfolding run_loop run_provider reported
  run_loop-extended [] b older =
      ap (λ (c : ProviderBatch A). record { batch = c; health = reported older })
        (same_batch b (sym (append-nil b.values)) (sym (append-nil b.failures))
          (sym (append-nil b.outcomes)))
  run_loop-extended (a ∷ as') b older = with_answer (run_loop-extended as') a.answer
    where
      -- What the loop makes of the batch after this source, and the batch that the sources call for.
      rest :
          ((b1 : ProviderBatch A) (newer : List Report)
            → run_loop as' (record { batch = b1; health = reported newer })
              ≡ record { batch = extended b1 as'; health = reported (reports_of as' newer) })
          → (b1 : ProviderBatch A) (report : Report) {c : ProviderBatch A} → extended b1 as' ≡ c
          → run_loop as' (record { batch = b1; health = reported (report ∷ older) })
            ≡ record { batch = c; health = reported (reports_of as' (report ∷ older)) }
      rest loop b1 report e =
          loop b1 (report ∷ older)
          ∙ ap
              (λ (c : ProviderBatch A). record {
                batch = c;
                health = reported (reports_of as' (report ∷ older));
              })
              e

      with_answer :
          ((b1 : ProviderBatch A) (newer : List Report)
            → run_loop as' (record { batch = b1; health = reported newer })
              ≡ record { batch = extended b1 as'; health = reported (reports_of as' newer) })
          → (answer : Answer A)
          → run_loop as' (
              run_provider a.provider a.reading answer
                (record { batch = b; health = reported older }))
            ≡ record {
              batch = extended b (record a { answer = answer } ∷ as');
              health = reported (reports_of (record a { answer = answer } ∷ as') older);
            }
      with_answer loop (gives values) =
          rest loop
            (noted_success a.provider a.reading values (record { batch = b; health = [] })).batch
            (report_of a.provider a.reading (gives values))
            (same_batch _ (append_assoc b.values values (all_values as')) refl
              (append_assoc b.outcomes _ (map outcome_of as')))
      with_answer loop (provider_error code) =
          rest loop
            (noted_failure a.provider a.reading code (record { batch = b; health = [] })).batch
            (report_of a.provider a.reading (provider_error code))
            (same_batch _ refl (append_assoc b.failures _ (failures_of as'))
              (append_assoc b.outcomes _ (map outcome_of as')))
      with_answer loop unexpected =
          rest loop
            (noted_failure a.provider a.reading "provider_unexpected_error"
              (record { batch = b; health = [] })).batch
            (report_of a.provider a.reading unexpected)
            (same_batch _ refl (append_assoc b.failures _ (failures_of as'))
              (append_assoc b.outcomes _ (map outcome_of as')))

  -- A run has an outcome for each source in their order, a failure for each that raised, and the values
  -- of all the others; the table of health is that of the reports on the sources in that order.
  pub run-batch :
      (asked : List (Asked A)) (older : List Report)
      → run asked (reported older) ≡ record {
        batch = record {
          values = all_values asked;
          failures = failures_of asked;
          outcomes = map outcome_of asked;
        };
        health = reported (reports_of asked older);
      }
  unfolding run
  run-batch asked older = run_loop-extended asked _ older
