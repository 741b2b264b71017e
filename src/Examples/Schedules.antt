-- ===== src/Examples/Schedules.antt =====
-- The theorem on the scheduler at a concrete backend, which is a function from ids to triggers.
use tuntu.Prelude.{
  Text, ℕ, true, ◌-◌, ◌≡◌, refl, ap, sym, false, Option, none, some, [], ◌∷◌, codes, map, ◌==◌,
  nat_eq, string_eq, pair_eq, if◌then◌else◌,
}
use tuntu.Magnet.{between}
use tuntu.Scheduler.Times.{Digits, parse_daily_time}
use tuntu.Db.Profiles.{list_schedulable_profiles}
use tuntu.Scheduler.Jobs.{
  daily, sync_kind, schedule_each, schedule_one, remove_each, JobId, Trigger, Backend, IsBackend,
}
use tuntu.Runs.Settings.{Profile}
use tuntu.Scheduler.{Scheduler, Schedulable, schedulable, sync}
use tuntu.Scheduler.Synced.{IsTracked, IsSynced, sync-IsSynced}
use tuntu.Examples.{empty_tables}

abbrev Table : Type 0
Table = JobId → Option Trigger

abbrev drop_job : JobId → Table → Option Trigger → Option Table
drop_job j w none = none
drop_job j w (some t) = some (λ i. if j == i then none else w i)

abbrev table_backend : Backend Table
table_backend = record {
  add_job = λ j t w i. if j == i then some t else w i;
  remove_job = λ j w. drop_job j w (w j);
  start = λ w. w;
  shutdown = λ w. w;
}

abbrev job_of : JobId → Table → Option Trigger
job_of i w = w i

drop_job-removed :
    (i j : JobId) (w w' : Table) (o : Option Trigger)
    → drop_job j w o ≡ some w'
    → w' i ≡ (if j == i then none else w i)
drop_job-removed i j w w' none h = absurd (cc)
drop_job-removed i j w w' (some t) h =
    sym (ap (λ (x : Option Table). elim x [ none ↦ none | some v ↦ v i ]) h)

drop_job-missing : (j : JobId) (w : Table) (o : Option Trigger) → drop_job j w o ≡ none → o ≡ none
drop_job-missing j w none h = refl
drop_job-missing j w (some t) h = absurd (cc)

table_backend-IsBackend : IsBackend table_backend job_of
table_backend-IsBackend = record {
  added = λ i j t w. refl;
  removed = λ i j w w' h. drop_job-removed i j w w' (w j) h;
  missing = λ j w h. drop_job-missing j w (w j) h;
}

abbrev ascii : Digits
ascii c = if between b'0' b'9' c then some (c - b'0') else none

abbrev profile_at : ℕ → Option Text → Option ℕ → Profile
profile_at id time archived_at = record {
  id = id;
  name = codes "films";
  settings = record {
    scope = none;
    discovery_sources = none;
    candidate_sources = none;
    rules = none;
    auto_submit = none;
  };
  destination_subdir = codes "films";
  top_n = 20;
  daily_time = time;
  enabled = true;
  archived_at = archived_at;
}

-- A profile with a time, one with an invalid time, and one that is archived by now.
abbrev rows : Schedulable
rows =
    schedulable
      (profile_at 3 (some (codes "08:00")) (some 40)
        ∷ profile_at 2 (some (codes "24:00")) none
        ∷ profile_at 1 (some (codes "07:30:05")) none
        ∷ [])
      (some ((5, none) ∷ []))

abbrev scheduler : Scheduler Table
scheduler = record {
  timezone = codes "Asia/Tokyo";
  poll_interval_seconds = 300;
  profile_jobs = 3 ∷ [];
  watchlist_jobs = [];
  audited_profiles = [];
  audited_watchlists = [];
  started = false;
  world = λ i. none;
  db = empty_tables;
  runs = [];
}

sync-IsSynced_example :
    IsSynced job_of ascii rows (sync table_backend ascii rows 50 scheduler).1
    × IsTracked job_of (sync table_backend ascii rows 50 scheduler).1
sync-IsSynced_example =
    sync-IsSynced table_backend job_of table_backend-IsBackend ascii rows 50 scheduler
      (λ i h. refl, λ i h. refl)

-- The profile with a time has a job, and the others have none.
jobs_of_profiles :
    map (λ i. (sync table_backend ascii rows 50 scheduler).1.world ("profile", i)) (1 ∷ 2 ∷ 3 ∷ [])
    ≡ some (daily (record { hour = 7; minute = 30; second = 5 }) (codes "Asia/Tokyo"))
      ∷ none
      ∷ none
      ∷ []
unfolding sync sync_kind schedule_each schedule_one remove_each parse_daily_time
    list_schedulable_profiles
jobs_of_profiles = refl
