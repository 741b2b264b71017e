-- ===== src/Scheduler/Jobs/Passes.antt =====
-- What the loops over the rows and over the jobs to remove do to the jobs of a kind.
use tuntu.Prelude.{
  ℕ, ◌≡◌, refl, sym, ap, ◌∙◌, subst, inl, inr, Bool, true, false, ◌||◌, Option, none, List, [], ◌∷◌,
  ◌++◌, contains, is_some, Text, ◌==◌, nat_eq, string_eq, pair_eq, Bool-cases, Option-cases,
  beq_self, if◌then◌else◌,
}
use tuntu.Errors.{Result, ok, err}
use tuntu.Scheduler.Times.{Digits, Time, parse_daily_time}
use tuntu.Scheduler.Jobs.{
  JobId, Trigger, daily, Backend, IsBackend, Kind, Pass, audit_invalid, schedule_one, schedule_each,
  removed_or, remove_each,
}
use tuntu.Scheduler.Jobs.Expected.{
  or_else, or_else_assoc, is_some-or_else, asked, expected, contains-add_id,
}

module _ {W : Type 0} (backend : Backend W) (job : JobId → W → Option Trigger)
    (law : IsBackend backend job) (digits : Digits) (timezone : Text) (now : ℕ) (kind : Kind) where
  audit_invalid-world :
      (id : ℕ) (p : Pass W)
      → ((audit_invalid backend digits timezone now kind id p).world ≡ p.world)
        × ((audit_invalid backend digits timezone now kind id p).desired ≡ p.desired)
  audit_invalid-world id p = elim (Bool-cases (contains id p.audited)) [
    | inl there ↦ rw there (refl, refl)
    | inr new ↦ rw new (refl, refl)
  ]

  schedule_one-job :
      (i j : ℕ) (r : Result Time) (p : Pass W)
      → job (kind.entity, i) (schedule_one backend digits timezone now kind j r p).world
        ≡ or_else (asked digits timezone j r i) (job (kind.entity, i) p.world)
  unfolding schedule_one
  schedule_one-job i j (err e) p =
      ap (job (kind.entity, i))
        (audit_invalid-world j (record p { invalid = p.invalid ++ j ∷ [] })).0
  schedule_one-job i j (ok time) p =
      law.added (kind.entity, i) (kind.entity, j) (daily time timezone) p.world
      ∙ rw (beq_self kind.entity)
          (elim (Bool-cases (j == i)) [ inl same ↦ rw same refl | inr apart ↦ rw apart refl ])

  schedule_one-desired :
      (i j : ℕ) (r : Result Time) (p : Pass W)
      → contains i (schedule_one backend digits timezone now kind j r p).desired
        ≡ (is_some (asked digits timezone j r i) || contains i p.desired)
  unfolding schedule_one
  schedule_one-desired i j (err e) p =
      ap (contains i) (audit_invalid-world j (record p { invalid = p.invalid ++ j ∷ [] })).1
  schedule_one-desired i j (ok time) p =
      contains-add_id i j p.desired
      ∙ elim (Bool-cases (j == i)) [ inl same ↦ rw same refl | inr apart ↦ rw apart refl ]

  schedule_one-others :
      (k : JobId) (j : ℕ) (r : Result Time) (p : Pass W)
      → (kind.entity == k.0) ≡ false
      → job k (schedule_one backend digits timezone now kind j r p).world ≡ job k p.world
  unfolding schedule_one
  schedule_one-others k j (err e) p h =
      ap (job k) (audit_invalid-world j (record p { invalid = p.invalid ++ j ∷ [] })).0
  schedule_one-others k j (ok time) p h =
      law.added k (kind.entity, j) (daily time timezone) p.world ∙ rw h refl

  pub schedule_each-job :
      (i : ℕ) (rows : List (ℕ × Option Text)) (p : Pass W)
      → (job (kind.entity, i) (schedule_each backend digits timezone now kind rows p).world
          ≡ or_else (expected digits timezone rows i) (job (kind.entity, i) p.world))
        × (contains i (schedule_each backend digits timezone now kind rows p).desired
            ≡ (is_some (expected digits timezone rows i) || contains i p.desired))
  unfolding schedule_each expected
  schedule_each-job i [] p = (refl, refl)
  schedule_each-job i ((j, time) ∷ rows) p =
      let r = parse_daily_time digits time in
      let p' = schedule_one backend digits timezone now kind j r p in
      let (jobs, ids) = schedule_each-job i rows p' in
      let later = expected digits timezone rows i in
      let here = asked digits timezone j r i in
      (
        jobs
            ∙ (ap (or_else later) (schedule_one-job i j r p)
                ∙ or_else_assoc later here (job (kind.entity, i) p.world)),
        ids
            ∙ (ap (λ b. is_some later || b) (schedule_one-desired i j r p)
                ∙ (or_assoc (is_some later) (is_some here) (contains i p.desired)
                    ∙ ap (λ b. b || contains i p.desired) (sym (is_some-or_else later here)))),
      )
    where
      or_assoc : (a b c : Bool) → (a || (b || c)) ≡ ((a || b) || c)
      or_assoc true b c = refl
      or_assoc false b c = refl

  pub schedule_each-others :
      (k : JobId) (rows : List (ℕ × Option Text)) (p : Pass W)
      → (kind.entity == k.0) ≡ false
      → job k (schedule_each backend digits timezone now kind rows p).world ≡ job k p.world
  unfolding schedule_each
  schedule_each-others k [] p h = refl
  schedule_each-others k ((j, time) ∷ rows) p h =
      schedule_each-others k rows _ h ∙ schedule_one-others k j (parse_daily_time digits time) p h

  -- A job that is removed, and any other.
  removed-job :
      (k : JobId) (id : ℕ) (w : W)
      → job k
          (removed_or backend digits timezone now kind w (backend.remove_job (kind.entity, id) w))
        ≡ (if (kind.entity, id) == k then none else job k w)
  removed-job k id w = elim (Option-cases (backend.remove_job (kind.entity, id) w)) [
    | inr (w', done) ↦ rw done (law.removed k (kind.entity, id) w w' done)
    | inl lacking ↦
        let gone = law.missing (kind.entity, id) w lacking in
        rw lacking (elim (Bool-cases ((kind.entity, id) == k)) [
          | inr apart ↦ rw apart refl
          | inl same ↦
              let equal : (kind.entity, id) ≡ k = (pair_eq.equal_iff (kind.entity, id) k).0 same in
              rw same (subst (λ (x : JobId). job x w ≡ none) equal gone)
        ])
  ]

  pub remove_each-job :
      (i : ℕ) (ids : List ℕ) (w : W)
      → job (kind.entity, i) (remove_each backend digits timezone now kind ids w)
        ≡ (if contains i ids then none else job (kind.entity, i) w)
  unfolding remove_each
  remove_each-job i [] w = refl
  remove_each-job i (id ∷ ids) w =
      remove_each-job i ids _
      ∙ (ap (λ o. if contains i ids then none else o) (removed-job (kind.entity, i) id w)
          ∙ rw (beq_self kind.entity) (either (id == i) (contains i ids) _))
    where
      either :
          (a b : Bool) (o : Option Trigger)
          → (if b then none else (if a then none else o)) ≡ (if a || b then none else o)
      either true true o = refl
      either true false o = refl
      either false b o = refl

  pub remove_each-others :
      (k : JobId) (ids : List ℕ) (w : W)
      → (kind.entity == k.0) ≡ false
      → job k (remove_each backend digits timezone now kind ids w) ≡ job k w
  unfolding remove_each
  remove_each-others k [] w h = refl
  remove_each-others k (id ∷ ids) w h =
      remove_each-others k ids _ h ∙ (removed-job k id w ∙ rw h refl)
