-- ===== src/Runs/Totals.antt =====
-- The counters of a run.
use tuntu.Prelude.{
  ℕ, ◌+◌, ◌≤◌, zero, suc, ◌≡◌, refl, Bool, true, ◌||◌, List, [], ◌∷◌, any, take, length, arith, ◌∙◌,
  if◌then◌else◌,
}
use tuntu.Errors.{Result, ok, err}
use tuntu.Db.Runs.{RunStatus}
use tuntu.Selection.Content.{ContentItem}
use tuntu.Runs.Stats.{Stats, empty_stats}
use tuntu.Runs.Settings.{Snapshot}
use tuntu.Runs.State.{Environment, RunState, on_core, tell}
use tuntu.Runs.Actions.{
  Action, Keeps, pure, change, attempt, resume, ◌>>=◌, lift-Keeps, Leads, >>=-Leads, choice-Leads,
  pure-Leads, change-Keeps,
}
use tuntu.Runs.Perform.{Plan, succeeded, note_item, process_items, process_found, perform}
use tuntu.Runs.Service.{RunDb, Ending, ending_of, in_run}
use tuntu.Runs.Kept.Items.{IsKept, ask_all-Keeps, note_batch-Keeps}
use tuntu.Runs.Kept.Submits.{KeptBySubmission, process_item-Keeps}

-- So many items were found, and so many of them are done.
abbrev IsCounted : ℕ → ℕ → RunState → Type 0
IsCounted found n s =
    (s.stats.items_discovered ≡ found) × (s.stats.items_processed + s.stats.item_failures ≡ n)

-- Each item was processed or failed, and there are at most so many.
abbrev pub IsComplete : ℕ → Stats → Type 0
IsComplete limit t =
    (t.items_processed + t.item_failures ≡ t.items_discovered) × (t.items_discovered ≤ limit)

IsCounted-IsKept : (found n : ℕ) → IsKept (IsCounted found n)
IsCounted-IsKept found n = record {
  rows = λ s store d p. p;
  counts = λ s stats (d, p, f) (h, k). (d ∙ h, rw (p, f) k);
  calls = λ s calls p. p;
  notes = λ s outcomes p. p;
}

IsCounted-KeptBySubmission : (found n : ℕ) → KeptBySubmission (IsCounted found n)
unfolding on_core
IsCounted-KeptBySubmission found n urls client task_id now claimed_at submission s p = p

carried :
    (found n m : ℕ) (s : RunState) → IsCounted found (suc n + m) s → IsCounted found (n + suc m) s
carried found n m s p = (p.0, omega (arith, p.1))

-- The loop counts each item once.
process_items-IsCounted :
    (process : ContentItem → Action RunState Bool)
    → ((found n : ℕ) (c : ContentItem) → Keeps (IsCounted found n) (process c))
    → (cs : List ContentItem) (had_partial : Bool) (found n : ℕ) (s : RunState)
    → IsCounted found n s
    → IsCounted found (n + length cs) (process_items process cs had_partial s).1
unfolding process_items note_item pure change attempt ◌>>=◌
process_items-IsCounted process h [] had_partial found n s p = (p.0, omega (arith, p.1))
process_items-IsCounted process h (c ∷ cs) had_partial found n s p =
    noted (process_items-IsCounted process h cs) (process c s).0 (process c s).1 (h found n c s p)
  where
    noted :
        ((b : Bool) (found n : ℕ) (t : RunState)
          → IsCounted found n t
          → IsCounted found (n + length cs) (process_items process cs b t).1)
        → (r : Result Bool) (t : RunState) → IsCounted found n t
        → IsCounted found
            (n + suc (length cs))
            ((note_item had_partial r >>= λ b. process_items process cs b) t).1
    noted again (ok b) t q =
        let t' : RunState = record t {
          stats = record t.stats { items_processed = t.stats.items_processed + 1 };
        } in
        carried found n (length cs) (process_items process cs (had_partial || b) t').1
          (again (had_partial || b) found (suc n) t' (q.0, omega (arith, q.1)))
    noted again (err e) t q =
        let t' : RunState = record t {
          stats = record t.stats { item_failures = t.stats.item_failures + 1 };
        } in
        carried found n (length cs) (process_items process cs true t').1
          (again true found (suc n) t' (q.0, omega (arith, q.1)))

length-take : {A : Type 0} (n : ℕ) (xs : List A) → length (take n xs) ≤ n
length-take zero xs = omega arith
length-take (suc n) [] = omega arith
length-take (suc n) (x ∷ xs) = omega (arith, length-take n xs)

module _ (env : Environment) (runs : List ℕ) (run_id profile_id : ℕ) (snapshot : Snapshot) where
  abbrev Counted : RunState → Type 0
  Counted = IsCounted 0 0

  abbrev Complete : RunState → Type 0
  Complete s = IsComplete snapshot.top_n s.stats

  complete : (s : RunState) → Counted s → Complete s
  complete s p = (omega (arith, p.0, p.1), omega (arith, p.0))

  then_pure :
      {A B : Type 0} (x : Result A × RunState) (f : A → B)
      → Complete x.1
      → Complete (resume x (λ a. pure (f a))).1
  unfolding pure
  then_pure (ok a, s) f h = h
  then_pure (err e, s) f h = h

  process_items-Complete :
      (process : ContentItem → Action RunState Bool)
      → ((found n : ℕ) (c : ContentItem) → Keeps (IsCounted found n) (process c))
      → (items : List ContentItem) (had_failures : Bool) → length items ≤ snapshot.top_n
      → Leads Counted Complete complete (
          tell (λ (s : Stats). record s { items_discovered = length items }) >>= λ _.
          process_items process items had_failures >>= λ b.
          pure (if b then RunStatus.partial else RunStatus.success))
  unfolding change ◌>>=◌
  process_items-Complete process h items had_failures few s p =
      let s' : RunState = record s { stats = record s.stats { items_discovered = length items } } in
      let done =
        process_items-IsCounted process h items had_failures (length items) 0 s' (refl, p.1) in
      then_pure (process_items process items had_failures s') _
        (omega (arith, done.0, done.1), omega (arith, done.0, few))

  process_found-Complete :
      (plan : Plan) (found : List ContentItem) (had_failures : Bool)
      → Leads Counted Complete complete
          (process_found env runs run_id profile_id snapshot plan found had_failures)
  unfolding process_found
  process_found-Complete plan found had_failures =
      >>=-Leads Counted Complete complete _ _ (lift-Keeps Counted _) λ all_items.
        process_items-Complete _
          (λ found n.
            process_item-Keeps (IsCounted found n) (IsCounted-IsKept found n) env runs run_id
              profile_id plan.candidates plan.rules snapshot
              (λ _. IsCounted-KeptBySubmission found n))
          (take snapshot.top_n all_items) had_failures (length-take snapshot.top_n all_items)

  perform-Complete : Leads Counted Complete complete (perform env runs run_id profile_id snapshot)
  unfolding perform
  perform-Complete = >>=-Leads Counted Complete complete _ _ (lift-Keeps Counted _) λ plan.
      >>=-Leads Counted Complete complete _ _ (ask_all-Keeps Counted (IsCounted-IsKept 0 0) _ _)
        λ batch.
          >>=-Leads Counted Complete complete _ _
            (note_batch-Keeps Counted (IsCounted-IsKept 0 0) batch)
            λ _.
              choice-Leads Counted Complete complete (any succeeded batch.outcomes) _ _
                (process_found-Complete plan batch.values _)
                (>>=-Leads Counted Complete complete _ _ (change-Keeps Counted _ (λ s p. p))
                  λ _. pure-Leads Counted Complete complete _)

-- In the statistics of a run, however it ends, the items that were processed and those that failed are
-- together those that were found, and these are no more than the limit of the configuration.
pub run-IsComplete :
    (env : Environment) (runs : List ℕ) (run_id profile_id : ℕ) (snapshot : Snapshot) (db : RunDb)
    → (ending : Ending) × ((in_run (perform env runs run_id profile_id snapshot) db).0 ≡ ok ending)
      × IsComplete snapshot.top_n ending.stats
unfolding in_run
run-IsComplete env runs run_id profile_id snapshot db =
    let start : RunState = record {
      store = db.store;
      stats = empty_stats;
      sources = [];
      calls = 0;
    } in
    let x = perform env runs run_id profile_id snapshot start in
    (
      ending_of x.0 x.1,
      refl,
      ended x.0 x.1 (perform-Complete env runs run_id profile_id snapshot start (refl, refl)),
    )
  where
    ended :
        (r : Result RunStatus) (s : RunState)
        → IsComplete snapshot.top_n s.stats
        → IsComplete snapshot.top_n (ending_of r s).stats
    ended (ok status) s c = c
    ended (err f) s c = c
