-- ===== src/Db/Runs/Traces.antt =====
-- Any calls on runs, one after another.
use tuntu.Prelude.{
  ℕ, ◌≡◌, inl, inr, refl, sym, Bool, true, false, ◌&&◌, Option, none, some, List, [], ◌∷◌, any,
  first, Text, All, Pairwise, ◌==◌, nat_eq, arith, Bool-cases,
}
use tuntu.Errors.{Result, ok, err}
use tuntu.Db.Runs.{
  RunStatus, failed, is_running, Run, has_run_id, is_active, new_run, create_run, ended, end_where,
  finish_found, finish_run, fail_interrupted_runs,
}

pub data RunCall : Type 0 where
  create : (run_id profile_id : ℕ) (config_snapshot trigger : Text) (now : ℕ) → RunCall
  finish : (run_id : ℕ) (status : RunStatus) (stats : Text) (now : ℕ) → RunCall
  fail_interrupted : ℕ → RunCall

abbrev pub created_or : List Run → Result (ℕ × List Run) → List Run
created_or runs (ok (run_id, runs')) = runs'
created_or runs (err e) = runs

abbrev pub ended_or : List Run → Result (List Run) → List Run
ended_or runs (ok runs') = runs'
ended_or runs (err e) = runs

-- The table after a call; one that raises leaves it as it is.
unfoldable pub step : List ℕ → RunCall → List Run → List Run
step profiles (create run_id profile_id config_snapshot trigger now) runs =
    created_or runs (create_run profiles run_id profile_id config_snapshot trigger now runs)
step profiles (finish run_id status stats now) runs =
    ended_or runs (finish_run run_id status stats now runs)
step profiles (fail_interrupted now) runs = (fail_interrupted_runs now runs).1

-- The calls, the newest first.
unfoldable pub runs_after : List ℕ → List RunCall → List Run
runs_after profiles [] = []
runs_after profiles (c ∷ older) = step profiles c (runs_after profiles older)

-- Different ids, and not both running for one profile.
abbrev pub NoClash : Run → Run → Type 0
NoClash r s =
    ((r.id == s.id) ≡ false)
    × (((r.profile_id == s.profile_id) && (is_running r.status && is_running s.status)) ≡ false)

-- A run has an end exactly when it is not running.
abbrev pub HasEnd : Run → Type 0
HasEnd r = (elim r.finished_at [ none ↦ true | some t ↦ false ]) ≡ is_running r.status

abbrev pub InOrder : List Run → Type 0
InOrder runs = Pairwise NoClash runs × All HasEnd runs

no_clash :
    (r r' s : Run)
    → r'.profile_id ≡ r.profile_id
    → (is_running r'.status ≡ true → is_running r.status ≡ true)
    → ((r.profile_id == s.profile_id) && (is_running r.status && is_running s.status)) ≡ false
    → ((r'.profile_id == s.profile_id) && (is_running r'.status && is_running s.status)) ≡ false
no_clash r r' s j k h = elim (Bool-cases (is_running r'.status)) [
  | inl e ↦ ground (arith, j, e, k e, h)
  | inr e ↦ ground (arith, e)
]

-- Ending runs that match makes no clash.
end_apart :
    (p : Run → Bool) (status : RunStatus) (stats : Text) (now : ℕ) (r r' : Run) (runs : List Run)
    → is_running status ≡ false
    → r'.id ≡ r.id
    → r'.profile_id ≡ r.profile_id
    → (is_running r'.status ≡ true → is_running r.status ≡ true)
    → All (NoClash r) runs
    → All (NoClash r') (end_where p status stats now runs)
end_apart p status stats now r r' [] e i j k h = tt
end_apart p status stats now r r' (s ∷ runs) e i j k h = elim (Bool-cases (p s)) [
  | inl hit ↦ rw hit (
    (ground (arith, i, h.0.0), ground (arith, e)),
    end_apart p status stats now r r' runs e i j k h.1,
  )
  | inr miss ↦ rw miss (
    (ground (arith, i, h.0.0), no_clash r r' s j k h.0.1),
    end_apart p status stats now r r' runs e i j k h.1,
  )
]

end_where-InOrder :
    (p : Run → Bool) (status : RunStatus) (stats : Text) (now : ℕ) (runs : List Run)
    → is_running status ≡ false
    → InOrder runs
    → InOrder (end_where p status stats now runs)
end_where-InOrder p status stats now [] e h = h
end_where-InOrder p status stats now (r ∷ runs) e ((apart, rest), (end_r, ends)) =
    let (order, all_ends) = end_where-InOrder p status stats now runs e (rest, ends) in
    elim (Bool-cases (p r)) [
      | inl hit ↦ rw hit (
        (
          end_apart p status stats now r (ended status stats now r) runs e refl refl
              (λ a. absurd (cc (a, e))) apart,
          order,
        ),
        (sym e, all_ends),
      )
      | inr miss ↦ rw miss (
        (end_apart p status stats now r r runs e refl refl (λ a. a) apart, order),
        (end_r, all_ends),
      )
    ]

created_apart :
    (runs : List Run) (r : Run)
    → any (has_run_id r.id) runs ≡ false
    → any (is_active r.profile_id) runs ≡ false
    → All (NoClash r) runs
created_apart [] r h k = tt
created_apart (s ∷ runs) r h k = (
  (ground (arith, h), ground (arith, k)),
  created_apart runs r (ground (arith, h)) (ground (arith, k)),
)

finish_run-InOrder :
    (run_id : ℕ) (status : RunStatus) (stats : Text) (now : ℕ) (runs : List Run)
    → InOrder runs
    → InOrder (ended_or runs (finish_run run_id status stats now runs))
unfolding finish_run
finish_run-InOrder run_id status stats now runs h = elim (Bool-cases (is_running status)) [
  | inl bad ↦ rw bad h
  | inr good ↦ rw good (found (first (has_run_id run_id) runs) good)
]
  where
    found :
        (o : Option Run)
        → is_running status ≡ false
        → InOrder (ended_or runs (finish_found o status stats now runs))
    found none good = h
    found (some r) good = elim (Bool-cases (is_running r.status)) [
      | inl active ↦ rw active (end_where-InOrder (has_run_id r.id) status stats now runs good h)
      | inr over ↦ rw over h
    ]

create_run-InOrder :
    (profiles : List ℕ) (run_id profile_id : ℕ) (config_snapshot trigger : Text) (now : ℕ)
    (runs : List Run)
    → InOrder runs
    → InOrder
        (created_or runs (create_run profiles run_id profile_id config_snapshot trigger now runs))
unfolding create_run
create_run-InOrder profiles run_id profile_id config_snapshot trigger now runs h =
    elim (Bool-cases (any (has_run_id run_id) runs)) [
      | inl taken ↦ rw taken h
      | inr fresh ↦ elim (Bool-cases (any (is_active profile_id) runs)) [
        | inl active ↦ rw (fresh, active) h
        | inr free ↦ elim (Bool-cases (any (λ (p : ℕ). p == profile_id) profiles)) [
          | inl known ↦
              rw (fresh, free, known)
                (
                  (
                    created_apart runs (new_run run_id profile_id config_snapshot trigger now) fresh
                        free,
                    h.0,
                  ),
                  (refl, h.1),
                )
          | inr unknown ↦ rw (fresh, free, unknown) h
        ]
      ]
    ]

-- After any calls of create_run, finish_run and fail_interrupted_runs, of which any may raise: no two
-- runs have one id, no profile has two running runs, and a run has an end exactly if it is not running.
pub runs_after-InOrder :
    (profiles : List ℕ) (calls : List RunCall) → InOrder (runs_after profiles calls)
unfolding runs_after step fail_interrupted_runs
runs_after-InOrder profiles [] = (tt, tt)
runs_after-InOrder profiles (create run_id profile_id config_snapshot trigger now ∷ older) =
    create_run-InOrder profiles run_id profile_id config_snapshot trigger now _
      (runs_after-InOrder profiles older)
runs_after-InOrder profiles (finish run_id status stats now ∷ older) =
    finish_run-InOrder run_id status stats now _ (runs_after-InOrder profiles older)
runs_after-InOrder profiles (fail_interrupted now ∷ older) =
    end_where-InOrder (λ r. is_running r.status) failed _ now _ refl
      (runs_after-InOrder profiles older)
