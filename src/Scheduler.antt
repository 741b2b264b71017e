-- ===== src/Scheduler.antt =====
-- src/tuntu/scheduler.py. The backend, APScheduler, is a parameter with a state of its own; so are the
-- names of time zones and what Unicode counts as a digit.
pub mod Times
pub mod Jobs
pub mod Synced
use tuntu.Prelude.{
  ℕ, Bool, true, false, ◌||◌, Option, none, some, List, [], map, Text, length, ◌==◌, nat_eq,
  if◌then◌else◌,
}
use tuntu.Errors.{Result, ok, err, value_error, key_error}
use tuntu.Db.Tables.{Db}
use tuntu.Db.Runs.{Run, fail_interrupted_runs}
use tuntu.Db.Profiles.{list_schedulable_profiles}
use tuntu.Runs.Settings.{Profile}
use tuntu.Scheduler.Times.{Digits}
use tuntu.Scheduler.Jobs.{Backend, JobId, every, Pass, profiles, watchlists, sync_kind}

-- `ScheduleSyncResult`
pub record ScheduleSyncResult : Type 0 where
  pub profile_jobs : ℕ
  pub invalid_profiles : List ℕ
  pub watchlist_jobs : ℕ
  pub invalid_watchlists : List ℕ

-- The fields of `TuntuScheduler`, its backend, and the tables that it writes to.
pub record Scheduler (W : Type 0) : Type 0 where
  pub timezone : Text
  pub poll_interval_seconds : ℕ
  pub profile_jobs : List ℕ
  pub watchlist_jobs : List ℕ
  pub audited_profiles : List ℕ
  pub audited_watchlists : List ℕ
  pub started : Bool
  pub world : W
  pub db : Db
  pub runs : List Run

-- What `sync` reads: the ids and daily times of the schedulable profiles, and those of the watchlists
-- where there is a runner for them.
pub record Schedulable : Type 0 where
  pub profiles : List (ℕ × Option Text)
  pub watchlists : Option (List (ℕ × Option Text))

-- The rows that the repository's two methods list.
abbrev pub schedulable : List Profile → Option (List (ℕ × Option Text)) → Schedulable
schedulable rows watchlists = record {
  profiles = map (λ (p : Profile). (p.id, p.daily_time)) (list_schedulable_profiles rows);
  watchlists = watchlists;
}

abbrev pub or_no_rows : Option (List (ℕ × Option Text)) → List (ℕ × Option Text)
or_no_rows none = []
or_no_rows (some rows) = rows

-- `__init__`, with the time zone that `ZoneInfo` finds.
unfoldable pub make_scheduler :
    {W : Type 0} (zone_info : Text → Option Text) (timezone_name : Text)
    (poll_interval_seconds max_workers : ℕ) (w : W) (db : Db) (runs : List Run)
    → Result (Scheduler W)
make_scheduler zone_info timezone_name poll_interval_seconds max_workers w db runs =
    if poll_interval_seconds == 0 || max_workers == 0
    then err value_error
    else elim (zone_info timezone_name) [
      | none ↦ err key_error
      | some zone ↦ ok (record {
        timezone = zone;
        poll_interval_seconds = poll_interval_seconds;
        profile_jobs = [];
        watchlist_jobs = [];
        audited_profiles = [];
        audited_watchlists = [];
        started = false;
        world = w;
        db = db;
        runs = runs;
      })
    ]

abbrev pub poll_job : JobId
poll_job = ("downloads:poll", 0)

module _ {W : Type 0} (backend : Backend W) (digits : Digits) (rows : Schedulable) (now : ℕ) where
  -- The first loop of `sync`, and the second one after it.
  abbrev pub of_profiles : Scheduler W → Pass W
  of_profiles s =
      sync_kind backend digits s.timezone now profiles s.profile_jobs s.audited_profiles
        rows.profiles s.world s.db

  abbrev pub of_watchlists : Scheduler W → Pass W → Pass W
  of_watchlists s p =
      sync_kind backend digits s.timezone now watchlists s.watchlist_jobs s.audited_watchlists
        (or_no_rows rows.watchlists) p.world p.db

  unfoldable pub sync : Scheduler W → ScheduleSyncResult × Scheduler W
  sync s =
      let p = of_profiles s in
      let q = of_watchlists s p in
      (
        record {
          profile_jobs = length p.desired;
          invalid_profiles = p.invalid;
          watchlist_jobs = length q.desired;
          invalid_watchlists = q.invalid;
        },
        record s {
          profile_jobs = p.desired;
          watchlist_jobs = q.desired;
          audited_profiles = p.audited;
          audited_watchlists = q.audited;
          world = backend.add_job poll_job (every s.poll_interval_seconds s.timezone) q.world;
          db = q.db;
        },
      )

  -- `start`: how many interrupted runs were failed.
  unfoldable pub start : Scheduler W → ℕ × Scheduler W
  start s =
      let (recovered, runs) = fail_interrupted_runs now s.runs in
      let s' = (sync (record s { runs = runs })).1 in
      if s.started
      then (0, s)
      else (recovered, record s' { world = backend.start s'.world; started = true })

  unfoldable pub reconfigure_timezone :
      (zone_info : Text → Option Text)
      → Text
      → Scheduler W
      → Result (ScheduleSyncResult × Scheduler W)
  reconfigure_timezone zone_info timezone_name s = elim (zone_info timezone_name) [
    | none ↦ err key_error
    | some zone ↦ ok (sync (record s { timezone = zone }))
  ]

unfoldable pub shutdown : {W : Type 0} → Backend W → Scheduler W → Scheduler W
shutdown backend s =
    if s.started then record s { world = backend.shutdown s.world; started = false } else s
