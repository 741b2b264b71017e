-- ===== src/Scheduler/Jobs.antt =====
-- src/tuntu/scheduler.py: the loops of `sync` over profiles and over watchlists, which are the same.
pub mod Expected
pub mod Passes
use tuntu.Prelude.{
  ℕ, String, Bool, true, false, not, Option, none, some, List, [], ◌∷◌, ◌++◌, keep, contains, Text,
  ◌==◌, ◌≡◌, nat_eq, string_eq, pair_eq, if◌then◌else◌,
}
use tuntu.Errors.{Result, ok, err}
use tuntu.Db.Tables.{Db, word}
use tuntu.Db.Session.{after}
use tuntu.Db.Downloads.{add_audit_event}
use tuntu.Scheduler.Times.{Digits, Time, parse_daily_time}

-- "profile:1", "watchlist:1" and "downloads:poll", as the kind and the number. The id tells the
-- function and the arguments of a job; every job coalesces and has one instance at most.
abbrev pub JobId : Type 0
JobId = String × ℕ

-- `CronTrigger` and `IntervalTrigger`, with their time zone.
pub data Trigger : Type 0 where
  daily : Time → Text → Trigger
  every : ℕ → Text → Trigger

-- What the scheduler calls of its backend.
pub record Backend (W : Type 0) : Type 0 where
  -- `add_job(…, replace_existing=True)`
  pub add_job : JobId → Trigger → W → W
  -- `none` is `JobLookupError`, a KeyError.
  pub remove_job : JobId → W → Option W
  pub start : W → W
  pub shutdown : W → W

-- The documented behaviour of the backend: the jobs that it has.
pub record IsBackend {W : Type 0} (backend : Backend W) (job : JobId → W → Option Trigger)
    : Type 0 where
  pub added :
      (i j : JobId) (t : Trigger) (w : W)
      → job i (backend.add_job j t w) ≡ (if j == i then some t else job i w)
  pub removed :
      (i j : JobId) (w w' : W)
      → backend.remove_job j w ≡ some w'
      → job i w' ≡ (if j == i then none else job i w)
  pub missing : (j : JobId) (w : W) → backend.remove_job j w ≡ none → job j w ≡ none

-- The two loops differ in these words.
pub record Kind : Type 0 where
  pub entity : String
  pub event_type : String

abbrev pub profiles : Kind
profiles = record { entity = "profile"; event_type = "profile_schedule_invalid" }

abbrev pub watchlists : Kind
watchlists = record { entity = "watchlist"; event_type = "watchlist_schedule_invalid" }

-- What a loop works on: the ids with a job, those whose time is invalid, and those that an audit event
-- was written for.
pub record Pass (W : Type 0) : Type 0 where
  pub desired : List ℕ
  pub invalid : List ℕ
  pub audited : List ℕ
  pub world : W
  pub db : Db

-- `set.add`
abbrev pub add_id : ℕ → List ℕ → List ℕ
add_id id ids = if contains id ids then ids else id ∷ ids

-- The ids of a set that are not in another one.
abbrev pub difference : List ℕ → List ℕ → List ℕ
difference ids others = keep (λ (id : ℕ). not (contains id others)) ids

module _ {W : Type 0} (backend : Backend W) (digits : Digits) (timezone : Text) (now : ℕ)
    (kind : Kind) where
  -- `if profile.id not in self._audited_invalid_profiles: …`
  abbrev pub audit_invalid : ℕ → Pass W → Pass W
  audit_invalid id p = if contains id p.audited then p else record p {
    audited = id ∷ p.audited;
    db =
        after
          (add_audit_event kind.event_type kind.entity id
            (("error_code", word "invalid_daily_time") ∷ []) now)
          p.db;
  }

  -- The body of the loop.
  unfoldable pub schedule_one : ℕ → Result Time → Pass W → Pass W
  schedule_one id (err e) p = audit_invalid id (record p { invalid = p.invalid ++ id ∷ [] })
  schedule_one id (ok time) p = record p {
    desired = add_id id p.desired;
    world = backend.add_job (kind.entity, id) (daily time timezone) p.world;
  }

  unfoldable pub schedule_each : List (ℕ × Option Text) → Pass W → Pass W
  schedule_each [] p = p
  schedule_each ((id, daily_time) ∷ rows) p =
      schedule_each rows (schedule_one id (parse_daily_time digits daily_time) p)

  abbrev pub removed_or : W → Option W → W
  removed_or w none = w
  removed_or w (some w') = w'

  -- `for job_id in …: try: remove_job except KeyError: pass`
  unfoldable pub remove_each : List ℕ → W → W
  remove_each [] w = w
  remove_each (id ∷ ids) w = remove_each ids (removed_or w (backend.remove_job (kind.entity, id) w))

  -- A loop, and the removal of the jobs that are not wanted any more.
  unfoldable pub sync_kind : (old audited : List ℕ) → List (ℕ × Option Text) → W → Db → Pass W
  sync_kind old audited rows w db =
      let p : Pass W =
        schedule_each rows
          (record { desired = []; invalid = []; audited = audited; world = w; db = db }) in
      record p { world = remove_each (difference old p.desired) p.world }
