-- ===== src/Runs/Settings.antt =====
-- src/tuntu/runs/service.py: the configuration of a run. Of a profile's settings, a JSON object, these
-- are the entries that a run reads; any of them may be missing.
use tuntu.Prelude.{
  ℕ, String, Bool, true, false, not, ◌&&◌, Option, none, some, List, [], ◌∷◌, Text, codes, length,
  ltb, ◌==◌, string_eq, if◌then◌else◌,
}
use tuntu.Errors.{Result, ok, err, value_error, cloud_drive_error, ◌>>=◌}
use tuntu.Selection.Rules.{RuleMode, any_mode, only_mode, exclude_mode, RuleSet, rule_set}
use tuntu.Downloaders.Client.{Reply, answers, raises}
use tuntu.Downloaders.Paths.{resolve_destination}

-- The rules as JSON: a mode is its word.
pub record RawRules : Type 0 where
  pub chinese_subtitles : Option String
  pub uncensored : Option String
  pub uhd : Option String
  pub min_size_mb : Option ℕ
  pub max_size_mb : Option ℕ
  pub min_seeders : Option ℕ
  pub include_keywords : Option (List Text)
  pub exclude_keywords : Option (List Text)

-- `{}`
abbrev pub no_rules : RawRules
no_rules = record {
  chinese_subtitles = none;
  uncensored = none;
  uhd = none;
  min_size_mb = none;
  max_size_mb = none;
  min_seeders = none;
  include_keywords = none;
  exclude_keywords = none;
}

pub record Settings : Type 0 where
  pub scope : Option Text
  pub discovery_sources : Option (List String)
  pub candidate_sources : Option (List String)
  pub rules : Option RawRules
  pub auto_submit : Option Bool

-- `ProfileRow`, as `get_profile` gives it.
pub record Profile : Type 0 where
  pub id : ℕ
  pub name : Text
  pub settings : Settings
  pub destination_subdir : Text
  pub top_n : ℕ
  pub daily_time : Option Text
  pub enabled : Bool
  pub archived_at : Option ℕ

-- What starts a run.
pub data Trigger : Type 0 where
  manual scheduled manual_number watchlist : Trigger

abbrev pub trigger_word : Trigger → Text
trigger_word manual = codes "manual"
trigger_word scheduled = codes "scheduled"
trigger_word manual_number = codes "manual_number"
trigger_word watchlist = codes "watchlist"

pub record Snapshot : Type 0 where
  pub profile_id : ℕ
  pub profile_name : Text
  pub scope : Text
  pub discovery_sources : List String
  pub candidate_sources : List String
  pub rules : RawRules
  pub top_n : ℕ
  pub destination : Text
  pub configured_auto_submit : Bool
  pub effective_auto_submit : Bool
  pub manual_raw_keys : Option (List Text)

-- `settings.get(key, default)`
abbrev pub or_default {ℓ} : {A : Type ℓ} → A → Option A → A
or_default default none = default
or_default default (some a) = a

-- A client's error leaves the run service as an exception.
abbrev pub as_result {ℓ} : {A : Type ℓ} → Reply A → Result A
as_result (answers a) = ok a
as_result (raises e) = err cloud_drive_error

-- `_snapshot`
unfoldable pub snapshot_of : (root_path : Text) → Profile → (force_dry_run : Bool) → Result Snapshot
snapshot_of root_path profile force_dry_run = do
  destination ← as_result (resolve_destination root_path profile.destination_subdir)
  ok (record {
    profile_id = profile.id;
    profile_name = profile.name;
    scope = or_default (codes "weekly") profile.settings.scope;
    discovery_sources = or_default [] profile.settings.discovery_sources;
    candidate_sources = or_default [] profile.settings.candidate_sources;
    rules = or_default no_rules profile.settings.rules;
    top_n = profile.top_n;
    destination = destination;
    configured_auto_submit = or_default false profile.settings.auto_submit;
    effective_auto_submit = or_default false profile.settings.auto_submit && not force_dry_run;
    manual_raw_keys = none;
  })

abbrev least_of : ℕ → ℕ → ℕ
least_of m n = if ltb n m then n else m

-- `bool(auto_submit_override)`
abbrev truth_of_override : Option Bool → Bool
truth_of_override = or_default false

abbrev with_keys : Text → List Text → Snapshot → Snapshot
with_keys scope keys s = record s {
  scope = scope;
  discovery_sources = "manual" ∷ [];
  manual_raw_keys = some keys;
  top_n = least_of (length keys) 100;
}

-- The changes to the snapshot of a run of given keys; any other trigger than `manual_number` that
-- comes here is `watchlist`.
abbrev of_keys : Trigger → Bool → Option Bool → List Text → Snapshot → Snapshot
of_keys manual_number force_dry_run auto_submit keys s =
    record (with_keys (codes "manual") keys s) {
      configured_auto_submit = false;
      effective_auto_submit = false;
    }
of_keys _ force_dry_run auto_submit keys s = record (with_keys (codes "watchlist") keys s) {
  configured_auto_submit = truth_of_override auto_submit;
  effective_auto_submit = truth_of_override auto_submit && not force_dry_run;
}

unfoldable pub with_manual_keys :
    Trigger
    → (force_dry_run : Bool) (auto_submit_override : Option Bool) → Option (List Text)
    → Snapshot
    → Result Snapshot
with_manual_keys trigger force_dry_run auto_submit none s = ok s
with_manual_keys trigger force_dry_run auto_submit (some []) s = err value_error
with_manual_keys trigger force_dry_run auto_submit (some (k ∷ ks)) s =
    ok (of_keys trigger force_dry_run auto_submit (k ∷ ks) s)

-- `RuleMode(…)`
abbrev mode_of_word : String → Result RuleMode
mode_of_word word =
    if word == "any"
    then ok any_mode
    else if word == "only"
    then ok only_mode
    else if word == "exclude"
    then ok exclude_mode
    else err value_error

abbrev mode_of : Option String → Result RuleMode
mode_of none = ok any_mode
mode_of (some word) = mode_of_word word

-- The rules that `_initialize` makes of the snapshot's.
unfoldable pub rules_of : RawRules → Result RuleSet
rules_of raw = do
  subtitles ← mode_of raw.chinese_subtitles
  censoring ← mode_of raw.uncensored
  resolution ← mode_of raw.uhd
  rule_set (record {
    chinese_subtitles = subtitles;
    uncensored = censoring;
    uhd = resolution;
    min_size_mb = raw.min_size_mb;
    max_size_mb = raw.max_size_mb;
    min_seeders = raw.min_seeders;
    include_keywords = or_default [] raw.include_keywords;
    exclude_keywords = or_default [] raw.exclude_keywords;
  })

-- The checks of the arguments at the beginning of `execute`.
abbrev takes_keys : Trigger → Bool
takes_keys manual_number = true
takes_keys watchlist = true
takes_keys _ = false

abbrev is_given {ℓ} : {A : Type ℓ} → Option A → Bool
is_given none = false
is_given (some a) = true

abbrev pub is_watchlist : Trigger → Bool
is_watchlist watchlist = true
is_watchlist _ = false

abbrev same_truth : Bool → Bool → Bool
same_truth true b = b
same_truth false b = not b

unfoldable pub check_arguments : Trigger → Option (List Text) → Option Bool → Result (Unit {0})
check_arguments trigger keys auto_submit =
    if not (same_truth (is_given keys) (takes_keys trigger))
    then err value_error
    else if not (same_truth (is_given auto_submit) (is_watchlist trigger))
    then err value_error
    else ok tt
