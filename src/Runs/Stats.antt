-- ===== src/Runs/Stats.antt =====
-- src/tuntu/runs/service.py: the counters of a run and what it notes of each source.
use tuntu.Prelude.{
  ℕ, ◌+◌, String, Option, none, some, List, [], ◌∷◌, lookup, insert, ltb, string_eq, pair_eq,
  if◌then◌else◌,
}
use tuntu.Providers.Runner.{ProviderOutcome, OutcomeStatus, success, failed}

-- `_empty_stats`, and the `error_code` that a failed run gets.
pub record Stats : Type 0 where
  pub items_discovered : ℕ
  pub items_processed : ℕ
  pub items_no_candidate : ℕ
  pub items_filtered : ℕ
  pub items_selected : ℕ
  pub candidates_found : ℕ
  pub candidates_accepted : ℕ
  pub submit_attempts : ℕ
  pub items_submitted : ℕ
  pub items_deduplicated : ℕ
  pub submit_failures : ℕ
  pub submit_unknown : ℕ
  pub submit_attention_required : ℕ
  pub candidate_fallbacks : ℕ
  pub source_failures : ℕ
  pub item_failures : ℕ
  pub error_code : Option String

abbrev pub empty_stats : Stats
empty_stats = record {
  items_discovered = 0;
  items_processed = 0;
  items_no_candidate = 0;
  items_filtered = 0;
  items_selected = 0;
  candidates_found = 0;
  candidates_accepted = 0;
  submit_attempts = 0;
  items_submitted = 0;
  items_deduplicated = 0;
  submit_failures = 0;
  submit_unknown = 0;
  submit_attention_required = 0;
  candidate_fallbacks = 0;
  source_failures = 0;
  item_failures = 0;
  error_code = none;
}

-- `_SourceAggregate`
pub record SourceAggregate : Type 0 where
  pub kind : String
  pub name : String
  pub latency_ms : ℕ
  pub result_count : ℕ
  pub successes : ℕ
  pub failures : ℕ
  pub error_code : Option String

abbrev pub new_aggregate : String → String → SourceAggregate
new_aggregate kind name = record {
  kind = kind;
  name = name;
  latency_ms = 0;
  result_count = 0;
  successes = 0;
  failures = 0;
  error_code = none;
}

abbrev counted : OutcomeStatus → Option String → SourceAggregate → SourceAggregate
counted success code a = record a { successes = a.successes + 1 }
counted failed code a = record a { failures = a.failures + 1; error_code = code }

-- `_SourceAggregate.add`
unfoldable pub add : ProviderOutcome → SourceAggregate → SourceAggregate
add outcome a = counted outcome.status outcome.error_code (record a {
  latency_ms = a.latency_ms + outcome.latency_ms;
  result_count = a.result_count + outcome.result_count;
})

-- `_SourceAggregate.status`
unfoldable pub aggregate_status : SourceAggregate → String
aggregate_status a =
    if ltb 0 a.failures then (if ltb 0 a.successes then "partial" else "failed") else "success"

abbrev pub Aggregates : Type 0
Aggregates = List ((String × String) × SourceAggregate)

-- `target.setdefault(key, …)`
abbrev pub or_new : String → String → Option SourceAggregate → SourceAggregate
or_new kind name none = new_aggregate kind name
or_new kind name (some a) = a

-- `_aggregate`
unfoldable pub aggregate : List ProviderOutcome → Aggregates → Aggregates
aggregate [] target = target
aggregate (o ∷ os) target =
    let key : String × String = (o.kind, o.source) in
    aggregate os (insert key (add o (or_new o.kind o.source (lookup key target))) target)
