-- ===== src/Runs/State.antt =====
-- src/tuntu/runs/service.py: what the processing of a run reads and changes.
use tuntu.Prelude.{
  ℕ, ◌+◌, suc, String, none, some, List, [], ◌∷◌, map, length, Text, lookup, insert, string_eq,
}
use tuntu.Errors.{Result, ok, err}
use tuntu.Magnet.{Urls}
use tuntu.Downloaders.Client.{Client}
use tuntu.Db.Session.{Exec}
use tuntu.Db.Items.{Store}
use tuntu.Selection.Content.{ContentItem}
use tuntu.Selection.Candidates.{Candidate}
use tuntu.Providers.Runner.{Answer, gives, unexpected, Provider, Reading, ProviderBatch, Asked, run}
use tuntu.Providers.Manual.{Codes, collect}
use tuntu.Runs.Stats.{Stats, Aggregates, aggregate}
use tuntu.Runs.Settings.{Snapshot}
use tuntu.Runs.Actions.{Action, change}

-- A source of what a question asks for. The number of a call tells the world's answers apart: the
-- readings of the clock around the call, and what it gives.
pub record Source (Q A : Type 0) : Type 0 where
  pub provider : Provider
  pub ask : ℕ → Q → Reading × Answer A

-- What a run finds outside. The numbers are those of the calls, which a run counts.
pub record Environment : Type 0 where
  pub urls : Urls
  pub codes : Codes
  pub root_path : Text
  pub client : ℕ → Client
  pub fresh_id : ℕ → ℕ
  pub clock : ℕ → ℕ
  pub reading : ℕ → Reading
  pub discovery_providers : List (Source Text ContentItem)
  pub candidate_providers : List (Source ContentItem Candidate)
  -- The JSON of a configuration and of statistics.
  pub config_text : Snapshot → Text
  pub stats_text : Stats → Text

-- `{provider.name: provider for provider in …}`
abbrev registry_from :
    {Q A : Type 0} → List (String × Source Q A) → List (Source Q A) → List (String × Source Q A)
registry_from d [] = d
registry_from d (p ∷ ps) = registry_from (insert p.provider.name p d) ps

abbrev pub registry : {Q A : Type 0} → List (Source Q A) → List (String × Source Q A)
registry ps = registry_from [] ps

-- `_selected`
unfoldable pub selected :
    {Q A : Type 0} → List (String × Source Q A) → List String → List (Source Q A)
selected sources [] = []
selected sources (name ∷ names) =
    let rest = selected sources names in
    elim (lookup name sources) [ none ↦ rest | some p ↦ p ∷ rest ]

abbrev answer_of : {A : Type 0} → Result (List A) → Answer A
answer_of (ok values) = gives values
answer_of (err e) = unexpected

-- `ManualDiscoveryProvider(raw_keys)`
abbrev pub manual_source : Environment → List Text → Source Text ContentItem
manual_source env raw_keys = record {
  provider = record { kind = "discovery"; name = "manual" };
  ask = λ n scope. (env.reading n, answer_of (collect env.codes env.urls.casefold raw_keys scope));
}

-- What a run has at hand: the tables that it changes for an item, its counters and its notes on
-- sources, and the number of calls it has made.
pub record RunState : Type 0 where
  pub store : Store
  pub stats : Stats
  pub sources : Aggregates
  pub calls : ℕ

-- The number of the next call.
unfoldable pub next_call : Action RunState ℕ
next_call s = (ok s.calls, record s { calls = suc s.calls })

abbrev pub tell : (Stats → Stats) → Action RunState (Unit {0})
tell f = change λ s. record s { stats = f s.stats }

abbrev pub committed : {A : Type 0} → RunState → Result (A × Store) → Result A × RunState
committed s (ok (a, store)) = (ok a, record s { store = store })
committed s (err e) = (err e, s)

-- A method of the repository: its session commits, or is rolled back.
unfoldable pub stored : {A : Type 0} → (Store → Result (A × Store)) → Action RunState A
stored body s = committed s (body s.store)

-- Sessions on the tables of downloads.
unfoldable pub on_core : {A : Type 0} → Exec A → Action RunState A
on_core m s =
    let (r, core) = m s.store.core in (r, record s { store = record s.store { core = core } })

abbrev asked_of : {Q A : Type 0} → ℕ → Q → Source Q A → Asked A
asked_of n question p =
    let (reading, answer) = p.ask n question in
    record { provider = p.provider; reading = reading; answer = answer }

-- `provider_runner.collect` and `provider_runner.search`
unfoldable pub ask_all : {Q A : Type 0} → List (Source Q A) → Q → Action RunState (ProviderBatch A)
ask_all sources question s =
    let done = run (map (asked_of s.calls question) sources) s.store.health in
    (
      ok done.batch,
      record s { store = record s.store { health = done.health }; calls = suc s.calls },
    )

-- `self._aggregate(…)`, and the count of the failures
unfoldable pub note_batch : {A : Type 0} → ProviderBatch A → Action RunState (Unit {0})
note_batch batch = change λ s. record s {
  sources = aggregate batch.outcomes s.sources;
  stats = record s.stats { source_failures = s.stats.source_failures + length batch.failures };
}
