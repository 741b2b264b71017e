-- ===== src/Runs/Perform.antt =====
-- src/tuntu/runs/service.py: `_initialize`, and the `try` block of `_execute_locked`.
use tuntu.Prelude.{
  ℕ, ◌+◌, String, Bool, true, false, not, ◌||◌, some, List, [], ◌∷◌, any, take, length, is_empty,
  Text, ◌==◌, string_eq, if◌then◌else◌,
}
use tuntu.Errors.{Result, ok, err, value_error}
use tuntu.Db.Runs.{RunStatus}
use tuntu.Selection.Content.{ContentItem}
use tuntu.Selection.Candidates.{Candidate}
use tuntu.Selection.Rules.{RuleSet}
use tuntu.Selection.Pipeline.{merge_items}
use tuntu.Providers.Runner.{ProviderOutcome, OutcomeStatus}
use tuntu.Runs.Stats.{Stats}
use tuntu.Runs.Settings.{Snapshot, rules_of, or_default}
use tuntu.Runs.State.{
  Environment, Source, RunState, registry, selected, manual_source, tell, ask_all, note_batch,
}
use tuntu.Runs.Actions.{Action, pure, lift, attempt, ◌>>=◌}
use tuntu.Runs.Items.{process_item}

-- What `_initialize` gives.
pub record Plan : Type 0 where
  pub discoveries : List (Source Text ContentItem)
  pub candidates : List (Source ContentItem Candidate)
  pub rules : RuleSet

-- `snapshot["discovery_sources"] == ["manual"]`
abbrev is_manual : List String → Bool
is_manual [] = false
is_manual (name ∷ []) = name == "manual"
is_manual (name ∷ (next ∷ names)) = false

abbrev discoveries_for : Environment → Snapshot → List (Source Text ContentItem)
discoveries_for env snapshot =
    if is_manual snapshot.discovery_sources
    then manual_source env (or_default [] snapshot.manual_raw_keys) ∷ []
    else selected (registry env.discovery_providers) snapshot.discovery_sources

abbrev plan_with :
    List (Source Text ContentItem)
    → List (Source ContentItem Candidate)
    → Result RuleSet
    → Result Plan
plan_with [] candidates rules = err value_error
plan_with (d ∷ ds) [] rules = err value_error
plan_with (d ∷ ds) (c ∷ cs) (err e) = err e
plan_with (d ∷ ds) (c ∷ cs) (ok rules) =
    ok (record { discoveries = d ∷ ds; candidates = c ∷ cs; rules = rules })

-- `_initialize`
unfoldable pub initialize : Environment → Snapshot → Result Plan
initialize env snapshot =
    plan_with (discoveries_for env snapshot)
      (selected (registry env.candidate_providers) snapshot.candidate_sources)
      (rules_of snapshot.rules)

abbrev pub succeeded : ProviderOutcome → Bool
succeeded o = elim o.status [ OutcomeStatus.success ↦ true | OutcomeStatus.failed ↦ false ]

-- The counter of an item, and whether there was a partial failure so far.
unfoldable pub note_item : Bool → Result Bool → Action RunState Bool
note_item had_partial (ok item_partial) = do
  _ ← tell λ (s : Stats). record s { items_processed = s.items_processed + 1 }
  pure (had_partial || item_partial)
note_item had_partial (err e) = do
  _ ← tell λ (s : Stats). record s { item_failures = s.item_failures + 1 }
  pure true

-- The loop over the items, for a way to process one.
unfoldable pub process_items :
    (ContentItem → Action RunState Bool) → List ContentItem → Bool → Action RunState Bool
process_items process [] had_partial = pure had_partial
process_items process (c ∷ cs) had_partial = do
  outcome ← attempt (process c)
  had_partial' ← note_item had_partial outcome
  process_items process cs had_partial'

module _ (env : Environment) (runs : List ℕ) (run_id profile_id : ℕ) (snapshot : Snapshot) where
  -- The items that the sources found, the first `top_n`.
  unfoldable pub process_found : Plan → List ContentItem → Bool → Action RunState RunStatus
  process_found plan found had_failures = do
    all_items ← lift (merge_items env.urls.casefold found)
    let items = take snapshot.top_n all_items
    _ ← tell λ (s : Stats). record s { items_discovered = length items }
    had_partial ←
        process_items (process_item env runs run_id profile_id plan.candidates plan.rules snapshot)
          items had_failures
    pure (if had_partial then RunStatus.partial else RunStatus.success)

  -- The `try` block of `_execute_locked`: the status that the run ends with, unless it raises.
  unfoldable pub perform : Action RunState RunStatus
  perform = do
    plan ← lift (initialize env snapshot)
    batch ← ask_all plan.discoveries snapshot.scope
    _ ← note_batch batch
    if any succeeded batch.outcomes
        then process_found plan batch.values (not (is_empty batch.failures))
        else (do
          _ ← tell λ (s : Stats). record s { error_code = some "all_discovery_sources_failed" }
          pure RunStatus.failed)
