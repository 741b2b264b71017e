-- ===== src/Examples/Runs.antt =====
-- The theorems on runs at concrete calls.
use tuntu.Prelude.{◌≡◌, refl, some, List, [], ◌∷◌, ◌++◌, codes, nat_eq}
use tuntu.Db.Runs.{success, Run, create_run, finish_run, get_run, ended, new_run}
use tuntu.Db.Runs.Ended.{ended_forever}
use tuntu.Db.Runs.Traces.{
  RunCall, create, finish, fail_interrupted, step, InOrder, runs_after, runs_after-InOrder,
}

-- A run, one that overlaps it and is refused, its end, and the next one.
abbrev first_calls : List RunCall
first_calls =
    finish 7 success (codes "{}") 30
    ∷ create 8 1 (codes "{}") (codes "manual") 20
    ∷ create 7 1 (codes "{}") (codes "scheduled") 10
    ∷ []

abbrev more_calls : List RunCall
more_calls =
    fail_interrupted 50
    ∷ finish 7 success (codes "{}") 45
    ∷ create 9 1 (codes "{}") (codes "manual") 40
    ∷ []

runs_after-InOrder_example : InOrder (runs_after (1 ∷ []) first_calls)
runs_after-InOrder_example = runs_after-InOrder (1 ∷ []) first_calls

abbrev ended_run : Run
ended_run = ended success (codes "{}") 30 (new_run 7 1 (codes "{}") (codes "scheduled") 10)

ended_forever_example : get_run 7 (runs_after (1 ∷ []) (more_calls ++ first_calls)) ≡ some ended_run
unfolding get_run runs_after step create_run finish_run
ended_forever_example = ended_forever (1 ∷ []) more_calls first_calls 7 refl refl
