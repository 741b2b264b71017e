-- ===== src/Scheduler/Synced.antt =====
-- The jobs that a sync leaves in the backend.
use tuntu.Prelude.{
  ℕ, ◌≡◌, refl, sym, ◌∙◌, Bool, true, false, not, ◌&&◌, ◌||◌, Option, none, some, List, [],
  contains, is_some, Text, ◌==◌, nat_eq, string_eq, pair_eq, if◌then◌else◌,
}
use tuntu.Db.Tables.{Db}
use tuntu.Scheduler.Times.{Digits}
use tuntu.Scheduler.Jobs.{
  JobId, Trigger, every, Backend, IsBackend, Kind, profiles, watchlists, Pass, difference,
  schedule_each, sync_kind,
}
use tuntu.Scheduler.Jobs.Expected.{or_else, expected, contains-difference}
use tuntu.Scheduler.Jobs.Passes.{
  schedule_each-job, schedule_each-others, remove_each-job, remove_each-others,
}
use tuntu.Scheduler.{Scheduler, Schedulable, or_no_rows, poll_job, of_profiles, of_watchlists, sync}

module _ {W : Type 0} (backend : Backend W) (job : JobId → W → Option Trigger)
    (law : IsBackend backend job) (digits : Digits) (timezone : Text) (now : ℕ) (kind : Kind) where
  -- Of the jobs of a kind, those that are there are known.
  abbrev pub AreKnown : List ℕ → W → Type 0
  AreKnown ids w = (i : ℕ) → contains i ids ≡ false → job (kind.entity, i) w ≡ none

  pub sync_kind-job :
      (old audited : List ℕ) (rows : List (ℕ × Option Text)) (w : W) (db : Db)
      → AreKnown old w
      → (i : ℕ)
      → (job
            (kind.entity, i)
            (sync_kind backend digits timezone now kind old audited rows w db).world
          ≡ expected digits timezone rows i)
        × (contains i (sync_kind backend digits timezone now kind old audited rows w db).desired
            ≡ is_some (expected digits timezone rows i))
  unfolding sync_kind
  sync_kind-job old audited rows w db known i =
      let start : Pass W = record {
        desired = [];
        invalid = [];
        audited = audited;
        world = w;
        db = db;
      } in
      let p = schedule_each backend digits timezone now kind rows start in
      let (jobs, ids) = schedule_each-job backend job law digits timezone now kind i rows start in
      let wanted = ids ∙ or_false (is_some (expected digits timezone rows i)) in
      (
        remove_each-job backend job law digits timezone now kind i (difference old p.desired)
              p.world
            ∙ rw (contains-difference i old p.desired, wanted, jobs)
                (left (expected digits timezone rows i) (contains i old) _ (known i)),
        wanted,
      )
    where
      or_false : (b : Bool) → (b || false) ≡ b
      or_false true = refl
      or_false false = refl

      left :
          (o : Option Trigger) (b : Bool) (before : Option Trigger)
          → (b ≡ false → before ≡ none)
          → (if b && not (is_some o) then none else or_else o before) ≡ o
      left (some t) true before h = refl
      left (some t) false before h = refl
      left none true before h = refl
      left none false before h = h refl

  pub sync_kind-others :
      (k : JobId) (old audited : List ℕ) (rows : List (ℕ × Option Text)) (w : W) (db : Db)
      → (kind.entity == k.0) ≡ false
      → job k (sync_kind backend digits timezone now kind old audited rows w db).world ≡ job k w
  unfolding sync_kind
  sync_kind-others k old audited rows w db h =
      let start : Pass W = record {
        desired = [];
        invalid = [];
        audited = audited;
        world = w;
        db = db;
      } in
      let p = schedule_each backend digits timezone now kind rows start in
      remove_each-others backend job law digits timezone now kind k (difference old p.desired)
        p.world h
      ∙ schedule_each-others backend job law digits timezone now kind k rows start h

module _ {W : Type 0} (job : JobId → W → Option Trigger) where
  -- The scheduler knows every job of a profile or a watchlist.
  abbrev pub IsTracked : Scheduler W → Type 0
  IsTracked s =
      ((i : ℕ) → contains i s.profile_jobs ≡ false → job ("profile", i) s.world ≡ none)
      × ((i : ℕ) → contains i s.watchlist_jobs ≡ false → job ("watchlist", i) s.world ≡ none)

  -- The jobs that the rows ask for, and the job of the poller.
  abbrev pub IsSynced : Digits → Schedulable → Scheduler W → Type 0
  IsSynced digits rows s =
      ((i : ℕ) → job ("profile", i) s.world ≡ expected digits s.timezone rows.profiles i)
      × ((i : ℕ)
          → job ("watchlist", i) s.world
            ≡ expected digits s.timezone (or_no_rows rows.watchlists) i)
      × (job poll_job s.world ≡ some (every s.poll_interval_seconds s.timezone))

-- After a sync, where the scheduler knew every job of a profile or a watchlist: each profile and each
-- watchlist has exactly the job that the rows ask for (none if it has no row or an invalid time), the
-- poller has its job, and the scheduler knows every job again. The backend is any that adds, replaces
-- and removes jobs as documented.
pub sync-IsSynced :
    {W : Type 0} (backend : Backend W) (job : JobId → W → Option Trigger)
    (law : IsBackend backend job) (digits : Digits) (rows : Schedulable) (now : ℕ) (s : Scheduler W)
    → IsTracked job s
    → IsSynced job digits rows (sync backend digits rows now s).1
      × IsTracked job (sync backend digits rows now s).1
unfolding sync
sync-IsSynced backend job law digits rows now s (known_profiles, known_watchlists) =
    let zone = s.timezone in
    let p = of_profiles backend digits rows now s in
    let q = of_watchlists backend digits rows now s p in
    let watched = or_no_rows rows.watchlists in
    let of_profile =
      sync_kind-job backend job law digits zone now profiles s.profile_jobs s.audited_profiles
        rows.profiles s.world s.db known_profiles in
    let still_known : (i : ℕ)
        → contains i s.watchlist_jobs ≡ false
        → job ("watchlist", i) p.world ≡ none =
      λ i h.
        sync_kind-others backend job law digits zone now profiles ("watchlist", i) s.profile_jobs
          s.audited_profiles rows.profiles s.world s.db refl
        ∙ known_watchlists i h in
    let of_watchlist =
      sync_kind-job backend job law digits zone now watchlists s.watchlist_jobs s.audited_watchlists
        watched p.world p.db still_known in
    let profile_job : (i : ℕ)
        → job ("profile", i) (backend.add_job poll_job (every s.poll_interval_seconds zone) q.world)
          ≡ expected digits zone rows.profiles i =
      λ i.
        law.added ("profile", i) poll_job (every s.poll_interval_seconds zone) q.world
        ∙ (sync_kind-others backend job law digits zone now watchlists ("profile", i)
              s.watchlist_jobs s.audited_watchlists watched p.world p.db refl
            ∙ (of_profile i).0) in
    let watchlist_job : (i : ℕ)
        → job ("watchlist", i)
            (backend.add_job poll_job (every s.poll_interval_seconds zone) q.world)
          ≡ expected digits zone watched i =
      λ i.
        law.added ("watchlist", i) poll_job (every s.poll_interval_seconds zone) q.world
        ∙ (of_watchlist i).0 in
    (
      (
        profile_job,
        watchlist_job,
        law.added poll_job poll_job (every s.poll_interval_seconds zone) q.world,
      ),
      (
        λ i h. profile_job i ∙ asked_for_none _ (sym (of_profile i).1 ∙ h),
        λ i h. watchlist_job i ∙ asked_for_none _ (sym (of_watchlist i).1 ∙ h),
      ),
    )
  where
    asked_for_none : (o : Option Trigger) → is_some o ≡ false → o ≡ none
    asked_for_none none h = refl
    asked_for_none (some t) h = absurd (cc)
