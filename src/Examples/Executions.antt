-- ===== src/Examples/Executions.antt =====
-- The theorems on the run service at a concrete service, with a client that rejects the first of two
-- candidates.
use tuntu.Prelude.{
  ℕ, ◌+◌, ◌≡◌, ◌↔◌, refl, inl, true, false, Option, some, none, [], ◌∷◌, map, ltb, Text, codes,
  nat_eq, if◌then◌else◌,
}
use tuntu.Errors.{ok}
use tuntu.Magnet.{lower}
use tuntu.Downloaders.Client.{Client, raises, rejected, TaskSignal}
use tuntu.Db.Invariant.{Inv}
use tuntu.Db.Later.{Later}
use tuntu.Db.Items.{Store}
use tuntu.Selection.Evidence.{CandidateEvidence, yes_value, unknown_value, no_value}
use tuntu.Selection.Content.{ContentItem, identity}
use tuntu.Selection.Candidates.{Candidate}
use tuntu.Providers.Runner.{gives, provider_error}
use tuntu.Runs.Settings.{Profile, Settings, no_rules, Snapshot, scheduled}
use tuntu.Runs.State.{Environment, Source}
use tuntu.Runs.Perform.{perform}
use tuntu.Runs.Locks.{Locks, acquire_profile, acquire_slot, holds}
use tuntu.Runs.Locks.Threads.{
  Phase, asking, refused, running, Thread, here, profiles_of, in_progress,
}
use tuntu.Runs.Locks.Traces.{
  Pool, locks_profile, overlaps, takes_slot, finds_none, ◌⟶*◌, done, onward, IsFair, locks-IsFair,
}
use tuntu.Runs.Service.{Ticket, Request, ServiceState, Ending, in_run, execute}
use tuntu.Runs.Kept.{SameDownloads}
use tuntu.Runs.Quiet.{execute-Later, execute-quiet}
use tuntu.Runs.Totals.{IsComplete, run-IsComplete}
use tuntu.Runs.Ends.Executions.{Rests, execute-Rests}
use tuntu.Examples.{client, links}

abbrev film : ContentItem
film = record {
  namespace = codes "film";
  raw_key = codes "ABC-1";
  normalized_key = codes "abc-1";
  rankings = record { source = codes "top"; rank = 3; raw_key = codes "ABC-1"; scope = [] } ∷ [];
  title = codes "A";
  metadata = [];
}

abbrev told : Option ℕ → CandidateEvidence
told seeders = record {
  source = codes "site";
  magnet_uri = codes "magnet:";
  title = codes "ABC-1";
  size = some 700;
  seeders = seeders;
  chinese_subtitles = yes_value;
  uncensored = unknown_value;
  uhd = no_value;
  notes = [];
}

abbrev candidate : Text → Option ℕ → Candidate
candidate btih seeders = record {
  item_identity = identity lower_text film;
  btih = btih;
  evidence = told seeders ∷ [];
}
  where
    lower_text : Text → Text
    lower_text = map lower

abbrev first_btih : Text
first_btih = codes "0123456789abcdef0123456789abcdef01234567"

abbrev second_btih : Text
second_btih = codes "1123456789abcdef0123456789abcdef01234567"

abbrev chart : Source Text ContentItem
chart = record {
  provider = record { kind = "discovery"; name = "top" };
  ask = λ n scope. (record { elapsed = 5; now = 11 }, gives (film ∷ []));
}

abbrev site : Source ContentItem Candidate
site = record {
  provider = record { kind = "candidate"; name = "site" };
  ask = λ n item. (
    record { elapsed = 7; now = 12 },
    gives (candidate second_btih (some 3) ∷ candidate first_btih (some 5) ∷ []),
  );
}

-- A site that is down.
abbrev broken_site : Source ContentItem Candidate
broken_site = record {
  provider = record { kind = "candidate"; name = "other" };
  ask = λ n item. (record { elapsed = 9; now = 13 }, provider_error "http_error");
}

abbrev rejecting_client : Client
rejecting_client = record (client TaskSignal.unknown) {
  submit = λ uri path. raises (rejected "explicit_rejection");
}

abbrev environment : Environment
environment = record {
  urls = links;
  codes = record { nfkc = λ s. s; fc2_code = λ s. none; standard_code = λ s. none; upper = λ s. s };
  root_path = codes "/Downloads";
  client = λ n. if ltb n 4 then rejecting_client else client TaskSignal.unknown;
  fresh_id = λ n. 100 + n;
  clock = λ n. 1000 + n;
  reading = λ n. record { elapsed = 1; now = 10 };
  discovery_providers = chart ∷ [];
  candidate_providers = site ∷ broken_site ∷ [];
  config_text = λ snapshot. [];
  stats_text =
      λ stats. stats.items_submitted ∷ stats.candidate_fallbacks ∷ stats.submit_failures ∷ [];
}

abbrev settings : Settings
settings = record {
  scope = none;
  discovery_sources = some ("top" ∷ []);
  candidate_sources = some ("site" ∷ "other" ∷ "unknown" ∷ []);
  rules = some no_rules;
  auto_submit = some true;
}

abbrev profile : Profile
profile = record {
  id = 1;
  name = codes "films";
  settings = settings;
  destination_subdir = codes "films";
  top_n = 20;
  daily_time = none;
  enabled = true;
  archived_at = none;
}

abbrev no_store : Store
no_store = record {
  core = record {
    profiles = 1 ∷ [];
    contents = [];
    run_items = [];
    candidates = [];
    tasks = [];
    events = [];
    audits = [];
  };
  contents = [];
  run_items = [];
  evidence = [];
  evaluations = [];
  health = [];
}

abbrev before : ServiceState
before = record {
  db = record { store = no_store; profiles = profile ∷ []; runs = []; results = [] };
  locks = record { held = 4 ∷ []; free = 1 };
}

abbrev ticket : Ticket
ticket = record { run_id = 7; started_at = 10; finished_at = 30; skipped_at = 20 }

abbrev request : Request
request = record {
  profile_id = 1;
  trigger = scheduled;
  force_dry_run = false;
  manual_raw_keys = none;
  auto_submit_override = none;
}

execute-Rests_example : Rests before 30 (execute environment ticket request before)
execute-Rests_example = execute-Rests environment ticket request before tt

no_store-Inv : Inv no_store.core
no_store-Inv = record { distinct = tt; logged = tt; no_strays = tt }

execute-Later_example :
    Later no_store.core (execute environment ticket request before).1.db.store.core
execute-Later_example = execute-Later environment ticket request before no_store-Inv

abbrev dry_request : Request
dry_request = record request { force_dry_run = true }

execute-quiet_example :
    SameDownloads no_store (execute environment ticket dry_request before).1.db.store
execute-quiet_example = execute-quiet environment ticket dry_request before (inl refl)

abbrev configuration : Snapshot
configuration = record {
  profile_id = 1;
  profile_name = codes "films";
  scope = codes "weekly";
  discovery_sources = "top" ∷ [];
  candidate_sources = "site" ∷ "other" ∷ [];
  rules = no_rules;
  top_n = 20;
  destination = codes "/Downloads/films";
  configured_auto_submit = true;
  effective_auto_submit = true;
  manual_raw_keys = none;
}

run-IsComplete_example :
    (ending : Ending) × ((in_run (perform environment (7 ∷ []) 7 1 configuration) before.db).0
      ≡ ok ending)
    × IsComplete 20 ending.stats
run-IsComplete_example = run-IsComplete environment (7 ∷ []) 7 1 configuration before.db

-- With one slot: a call for profile 1 runs; one for profile 2 takes the lock of its profile, so that
-- another one for 2 is refused; then the first call for 2 finds no slot.
abbrev at_phase : ℕ → Phase → Thread
at_phase p phase = record { profile = p; phase = phase }

abbrev some_pool : Pool
some_pool = record {
  locks = record { held = 2 ∷ 1 ∷ []; free = 0 };
  threads = at_phase 2 refused ∷ at_phase 1 running ∷ [];
}

some_pool_reached : record { locks = record { held = []; free = 1 }; threads = [] } ⟶* some_pool
unfolding acquire_profile acquire_slot
some_pool_reached =
    let l : Locks = record { held = []; free = 1 } in
    let one : Locks = record { held = 1 ∷ []; free = 1 } in
    let taken : Locks = record { held = 1 ∷ []; free = 0 } in
    let two : Locks = record { held = 2 ∷ 1 ∷ []; free = 0 } in
    onward
      (onward
        (onward
          (onward (onward done (locks_profile 1 l [] refl))
            (takes_slot 1 one (at_phase 1 asking ∷ []) (at_phase 1 running ∷ []) refl (here [])))
          (locks_profile 2 taken (at_phase 1 running ∷ []) refl))
        (overlaps 2 two (at_phase 2 asking ∷ at_phase 1 running ∷ []) refl))
      (finds_none 2 two (at_phase 2 asking ∷ at_phase 1 running ∷ [])
        (at_phase 2 refused ∷ at_phase 1 running ∷ []) refl (here (at_phase 1 running ∷ [])))

locks-IsFair_example :
    IsFair 1 some_pool
    × (((acquire_profile 3 some_pool.locks).0 ≡ true)
        ↔ (holds 3 (profiles_of some_pool.threads) ≡ false))
    × (((acquire_slot some_pool.locks).0 ≡ true) ↔ (ltb (in_progress some_pool.threads) 1 ≡ true))
locks-IsFair_example = locks-IsFair 1 some_pool 3 some_pool_reached
