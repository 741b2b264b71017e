-- ===== src/Runs/Kept/Perform.antt =====
-- What the `try` block of a run keeps.
use tuntu.Prelude.{ℕ, ◌≡◌, Bool, true, List, [], ◌∷◌, any, take}
use tuntu.Errors.{Result, ok, err}
use tuntu.Selection.Content.{ContentItem}
use tuntu.Runs.Stats.{Stats}
use tuntu.Runs.Settings.{Snapshot}
use tuntu.Runs.State.{Environment, RunState, tell}
use tuntu.Runs.Actions.{
  Action, Keeps, >>=-Keeps, pure-Keeps, lift-Keeps, change-Keeps, attempt-Keeps, choice-Keeps,
}
use tuntu.Runs.Perform.{Plan, succeeded, note_item, process_items, process_found, perform}
use tuntu.Runs.Kept.Items.{IsKept, ask_all-Keeps, note_batch-Keeps}
use tuntu.Runs.Kept.Submits.{KeptBySubmission, process_item-Keeps}

-- A property that does not depend on the counters.
module _ (P : RunState → Type 0) (k : IsKept P)
    (free : (s : RunState) (stats : Stats) → P s → P (record s { stats = stats })) where
  tell-Keeps : (f : Stats → Stats) → Keeps P (tell f)
  tell-Keeps f = change-Keeps P _ (λ s p. free s _ p)

  note_item-Keeps : (had_partial : Bool) (r : Result Bool) → Keeps P (note_item had_partial r)
  unfolding note_item
  note_item-Keeps had_partial (ok b) = >>=-Keeps P _ _ (tell-Keeps _) (λ _. pure-Keeps P _)
  note_item-Keeps had_partial (err e) = >>=-Keeps P _ _ (tell-Keeps _) (λ _. pure-Keeps P _)

  process_items-Keeps :
      (process : ContentItem → Action RunState Bool) (cs : List ContentItem) (had_partial : Bool)
      → ((c : ContentItem) → Keeps P (process c))
      → Keeps P (process_items process cs had_partial)
  unfolding process_items
  process_items-Keeps process [] had_partial h = pure-Keeps P had_partial
  process_items-Keeps process (c ∷ cs) had_partial h =
      >>=-Keeps P _ _ (attempt-Keeps P _ (h c)) λ outcome.
        >>=-Keeps P _ _ (note_item-Keeps had_partial outcome)
          λ had_partial'. process_items-Keeps process cs had_partial' h

  module _ (env : Environment) (runs : List ℕ) (run_id profile_id : ℕ) (snapshot : Snapshot)
      (submits : snapshot.effective_auto_submit ≡ true → KeptBySubmission P) where
    process_found-Keeps :
        (plan : Plan) (found : List ContentItem) (had_failures : Bool)
        → Keeps P (process_found env runs run_id profile_id snapshot plan found had_failures)
    unfolding process_found
    process_found-Keeps plan found had_failures = >>=-Keeps P _ _ (lift-Keeps P _) λ items.
        >>=-Keeps P _ _ (tell-Keeps _) λ _.
          >>=-Keeps P _ _
            (process_items-Keeps _ (take snapshot.top_n items) had_failures (
              process_item-Keeps P k env runs run_id profile_id plan.candidates plan.rules snapshot
                submits))
            (λ _. pure-Keeps P _)

    pub perform-Keeps : Keeps P (perform env runs run_id profile_id snapshot)
    unfolding perform
    perform-Keeps = >>=-Keeps P _ _ (lift-Keeps P _) λ plan.
        >>=-Keeps P _ _ (ask_all-Keeps P k _ _) λ batch.
          >>=-Keeps P _ _ (note_batch-Keeps P k batch) λ _.
            choice-Keeps P (any succeeded batch.outcomes) _ _
              (λ _. process_found-Keeps plan batch.values _)
              (λ _. >>=-Keeps P _ _ (tell-Keeps _) (λ _. pure-Keeps P _))
