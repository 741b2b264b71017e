-- ===== src/Providers/Runner.antt =====
-- src/tuntu/providers/runner.py: the sources are asked one after another, and each call is noted in
-- the table of source health. The clock's readings are an argument.
pub mod Batches
use tuntu.Prelude.{ℕ, ◌+◌, String, Bool, Option, none, some, List, [], ◌∷◌, ◌++◌, length}
use tuntu.Db.Sources.{SourceHealth, record_source_success, record_source_failure}

-- What a source gives: values, a `ProviderError` with its code, or another exception.
pub data Answer (A : Type 0) : Type 0 where
  gives : List A → Answer A
  provider_error : String → Answer A
  unexpected : Answer A

-- What is known of a source before it is asked.
pub record Provider : Type 0 where
  pub kind : String
  pub name : String

-- The elapsed milliseconds of a call, and the time after it.
pub record Reading : Type 0 where
  pub elapsed : ℕ
  pub now : ℕ

pub record ProviderFailure : Type 0 where
  pub source : String
  pub kind : String
  pub error_code : String

pub data OutcomeStatus : Type 0 where
  success failed : OutcomeStatus

pub record ProviderOutcome : Type 0 where
  pub source : String
  pub kind : String
  pub status : OutcomeStatus
  pub latency_ms : ℕ
  pub result_count : ℕ
  pub error_code : Option String

pub record ProviderBatch (A : Type 0) : Type 0 where
  pub values : List A
  pub failures : List ProviderFailure
  pub outcomes : List ProviderOutcome

abbrev pub no_batch : {A : Type 0} → ProviderBatch A
no_batch = record { values = []; failures = []; outcomes = [] }

-- What a run of sources changes: its batch, and the table of health.
pub record Running (A : Type 0) : Type 0 where
  pub batch : ProviderBatch A
  pub health : List SourceHealth

abbrev pub noted_failure : {A : Type 0} → Provider → Reading → String → Running A → Running A
noted_failure p reading code r = record {
  batch = record r.batch {
    failures =
        r.batch.failures ++ record { source = p.name; kind = p.kind; error_code = code } ∷ [];
    outcomes =
        r.batch.outcomes
        ++ record {
          source = p.name;
          kind = p.kind;
          status = failed;
          latency_ms = reading.elapsed;
          result_count = 0;
          error_code = some code;
        }
          ∷ [];
  };
  health = record_source_failure p.kind p.name code code reading.elapsed reading.now r.health;
}

abbrev pub noted_success : {A : Type 0} → Provider → Reading → List A → Running A → Running A
noted_success p reading values r = record {
  batch = record r.batch {
    values = r.batch.values ++ values;
    outcomes =
        r.batch.outcomes
        ++ record {
          source = p.name;
          kind = p.kind;
          status = success;
          latency_ms = reading.elapsed;
          result_count = length values;
          error_code = none;
        }
          ∷ [];
  };
  health = record_source_success p.kind p.name reading.elapsed (length values) reading.now r.health;
}

-- The body of the loop.
unfoldable pub run_provider : {A : Type 0} → Provider → Reading → Answer A → Running A → Running A
run_provider p reading (gives values) r = noted_success p reading values r
run_provider p reading (provider_error code) r = noted_failure p reading code r
run_provider p reading unexpected r = noted_failure p reading "provider_unexpected_error" r

-- One source as it is asked in a run: the source, the readings around its call, and its answer.
pub record Asked (A : Type 0) : Type 0 where
  pub provider : Provider
  pub reading : Reading
  pub answer : Answer A

unfoldable pub run_loop : {A : Type 0} → List (Asked A) → Running A → Running A
run_loop [] r = r
run_loop (a ∷ as') r = run_loop as' (run_provider a.provider a.reading a.answer r)

-- `_run`, which `collect` and `search` call with what they ask of each source.
unfoldable pub run : {A : Type 0} → List (Asked A) → List SourceHealth → Running A
run asked health = run_loop asked (record { batch = no_batch; health = health })
