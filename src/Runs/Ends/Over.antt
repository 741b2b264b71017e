-- ===== src/Runs/Ends/Over.antt =====
-- The `try` block of a run ends with a status of a run that is over.
use tuntu.Prelude.{ℕ, ◌≡◌, refl, Bool, true, false, List, any, nat_eq, string_eq, if◌then◌else◌}
use tuntu.Errors.{Result, ok, err, OnOk}
use tuntu.Db.Runs.{RunStatus, is_running}
use tuntu.Selection.Content.{ContentItem}
use tuntu.Runs.Settings.{Snapshot}
use tuntu.Runs.State.{Environment, RunState}
use tuntu.Runs.Actions.{Action, pure, resume, ◌>>=◌}
use tuntu.Runs.Perform.{Plan, process_found, perform, succeeded}

-- What a `try` block that returned says of the run: it is over.
abbrev pub IsOver : Result RunStatus × RunState → Type 0
IsOver x = OnOk (λ status. is_running status ≡ false) x.0

end_choice : (b : Bool) → is_running (if b then RunStatus.partial else RunStatus.success) ≡ false
end_choice true = refl
end_choice false = refl

then-IsOver :
    {A : Type 0} (x : Result A × RunState) (next : A → Action RunState RunStatus)
    → ((a : A) (s : RunState) → IsOver (next a s))
    → IsOver (resume x next)
then-IsOver (ok a, s) next h = h a s
then-IsOver (err e, s) next h = tt

>>=-IsOver :
    {A : Type 0} (m : Action RunState A) (next : A → Action RunState RunStatus)
    → ((a : A) (s : RunState) → IsOver (next a s))
    → (s : RunState) → IsOver ((m >>= next) s)
unfolding ◌>>=◌
>>=-IsOver m next h s = then-IsOver (m s) next h

pure-IsOver :
    (status : RunStatus) → is_running status ≡ false → (s : RunState) → IsOver (pure status s)
unfolding pure
pure-IsOver status h s = h

choice-IsOver :
    (b : Bool) (m n : Action RunState RunStatus)
    → ((s : RunState) → IsOver (m s))
    → ((s : RunState) → IsOver (n s))
    → (s : RunState) → IsOver ((if b then m else n) s)
choice-IsOver true m n h g s = h s
choice-IsOver false m n h g s = g s

module _ (env : Environment) (runs : List ℕ) (run_id profile_id : ℕ) (snapshot : Snapshot) where
  process_found-IsOver :
      (plan : Plan) (found : List ContentItem) (had_failures : Bool) (s : RunState)
      → IsOver (process_found env runs run_id profile_id snapshot plan found had_failures s)
  unfolding process_found
  process_found-IsOver plan found had_failures =
      >>=-IsOver _ _ λ _. >>=-IsOver _ _ λ _. >>=-IsOver _ _ λ b. pure-IsOver _ (end_choice b)

  pub perform-IsOver : (s : RunState) → IsOver (perform env runs run_id profile_id snapshot s)
  unfolding perform
  perform-IsOver = >>=-IsOver _ _ λ plan. >>=-IsOver _ _ λ batch. >>=-IsOver _ _ λ _.
      choice-IsOver (any succeeded batch.outcomes) _ _ (process_found-IsOver plan batch.values _)
        (>>=-IsOver _ _ λ _. pure-IsOver _ refl)
