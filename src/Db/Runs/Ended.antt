-- ===== src/Db/Runs/Ended.antt =====
-- A run that has ended.
use tuntu.Prelude.{
  ℕ, ◌≡◌, inl, inr, refl, sym, ap, ◌∙◌, subst, Bool, true, false, some, List, [], ◌∷◌, ◌++◌, any,
  first-test, first, Text, ◌==◌, nat_eq, arith, Bool-cases, Option-cases,
}
use tuntu.Db.Runs.{
  RunStatus, failed, is_running, Run, has_run_id, is_active, create_run, end_where, finish_run,
  fail_interrupted_runs, get_run,
}
use tuntu.Db.Runs.Traces.{RunCall, create, finish, fail_interrupted, ended_or, step, runs_after}

first-any :
    (i : ℕ) (runs : List Run) {r : Run}
    → first (has_run_id i) runs ≡ some r
    → any (has_run_id i) runs ≡ true
first-any i [] h = absurd (cc)
first-any i (s ∷ runs) h = elim (Bool-cases (has_run_id i s)) [
  | inl hit ↦ rw hit refl
  | inr miss ↦ rw miss (first-any i runs (rw miss at h))
]

-- A run that is not among those that are ended is found as it was.
first-end_where :
    (i : ℕ) (p : Run → Bool) (status : RunStatus) (stats : Text) (now : ℕ) (runs : List Run)
    (r : Run)
    → first (has_run_id i) runs ≡ some r
    → p r ≡ false
    → first (has_run_id i) (end_where p status stats now runs) ≡ some r
first-end_where i p status stats now [] r h k = absurd (cc)
first-end_where i p status stats now (s ∷ runs) r h k = elim (Bool-cases (has_run_id i s)) [
  | inl hit ↦
      let same : some s ≡ some r = rw hit at h in
      let spared : p s ≡ false = subst (λ (t : Run). p t ≡ false) (ground (arith, same)) k in
      rw (spared, hit) same
  | inr miss ↦ elim (Bool-cases (p s)) [
    | inl marked ↦ rw (marked, miss) (first-end_where i p status stats now runs r (rw miss at h) k)
    | inr spared ↦ rw (spared, miss) (first-end_where i p status stats now runs r (rw miss at h) k)
  ]
]

finish_run-ended :
    (i run_id : ℕ) (status : RunStatus) (stats : Text) (now : ℕ) (runs : List Run) (r : Run)
    → first (has_run_id i) runs ≡ some r
    → is_running r.status ≡ false
    → first (has_run_id i) (ended_or runs (finish_run run_id status stats now runs)) ≡ some r
unfolding finish_run
finish_run-ended i run_id status stats now runs r h k = elim (Bool-cases (is_running status)) [
  | inl bad ↦ rw bad h
  | inr good ↦ rw good (elim (Option-cases (first (has_run_id run_id) runs)) [
    | inl missing ↦ rw missing h
    | inr (q, there) ↦ rw there (elim (Bool-cases (is_running q.status)) [
      | inr over ↦ rw over h
      | inl active ↦
          rw active (
            first-end_where i (has_run_id q.id) status stats now runs r h
              (other_run q there active))
    ])
  ])
]
  where
    other_run :
        (q : Run)
        → first (has_run_id run_id) runs ≡ some q
        → is_running q.status ≡ true
        → has_run_id q.id r ≡ false
    other_run q there active = elim (Bool-cases (has_run_id q.id r)) [
      | inr apart ↦ apart
      | inl same ↦
          let one : r.id ≡ i = (nat_eq.equal_iff r.id i).0 (first-test (has_run_id i) runs h) in
          let two : q.id ≡ run_id =
            (nat_eq.equal_iff q.id run_id).0 (first-test (has_run_id run_id) runs there) in
          let both : run_id ≡ i = sym two ∙ (sym ((nat_eq.equal_iff r.id q.id).0 same) ∙ one) in
          let equal : some q ≡ some r =
            sym there ∙ (ap (λ j. first (has_run_id j) runs) both ∙ h) in
          absurd (cc (equal, active, k))
    ]

step-ended :
    (profiles : List ℕ) (c : RunCall) (i : ℕ) (runs : List Run) (r : Run)
    → first (has_run_id i) runs ≡ some r
    → is_running r.status ≡ false
    → first (has_run_id i) (step profiles c runs) ≡ some r
unfolding step fail_interrupted_runs create_run
step-ended profiles (create run_id profile_id config_snapshot trigger now) i runs r h k =
    elim (Bool-cases (any (has_run_id run_id) runs)) [
      | inl taken ↦ rw taken h
      | inr fresh ↦ elim (Bool-cases (any (is_active profile_id) runs)) [
        | inl active ↦ rw (fresh, active) h
        | inr free ↦ elim (Bool-cases (any (λ (p : ℕ). p == profile_id) profiles)) [
          | inr unknown ↦ rw (fresh, free, unknown) h
          | inl known ↦
              rw (fresh, free, known)
                (elim (Bool-cases (run_id == i)) [
                  | inr apart ↦ rw apart h
                  | inl same ↦ absurd (
                      cc (
                        fresh,
                        first-any i runs h,
                        ap (λ j. any (has_run_id j) runs) ((nat_eq.equal_iff run_id i).0 same),
                      ))
                ])
        ]
      ]
    ]
step-ended profiles (finish run_id status stats now) i runs r h k =
    finish_run-ended i run_id status stats now runs r h k
step-ended profiles (fail_interrupted now) i runs r h k =
    first-end_where i (λ s. is_running s.status) failed _ now runs r h k

-- A run that has ended is found unchanged after any further calls.
pub ended_forever :
    (profiles : List ℕ) (newer older : List RunCall) (run_id : ℕ) {r : Run}
    → get_run run_id (runs_after profiles older) ≡ some r
    → is_running r.status ≡ false
    → get_run run_id (runs_after profiles (newer ++ older)) ≡ some r
unfolding runs_after get_run
ended_forever profiles [] older run_id h k = h
ended_forever profiles (c ∷ newer) older run_id {r = r} h k =
    step-ended profiles c run_id (runs_after profiles (newer ++ older)) r
      (ended_forever profiles newer older run_id h k) k
