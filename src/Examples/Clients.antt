-- ===== src/Examples/Clients.antt =====
-- The theorems on paths, folder walks and runs of sources at concrete inputs.
use tuntu.Prelude.{
  ℕ, list_eq, nat_eq, ◌==◌, ◌≡◌, refl, Bool, true, false, some, none, List, [], ◌∷◌, map, Text,
  codes, pair_eq, if◌then◌else◌,
}
use tuntu.Magnet.{
  lower, strip, normalize_btih, parse_magnet, one_btih, split_pairs, raw_btih, partition_colon,
  agree,
}
use tuntu.Downloaders.Client.{Reply, answers, rejected}
use tuntu.Downloaders.Snapshot.{DirectorySnapshot, directory_snapshot}
use tuntu.Downloaders.Paths.{
  normalize_absolute_path, resolve_destination, resolve_task_destination, is_bad_subdir, is_within,
}
use tuntu.Downloaders.Paths.Normal.{IsPath, normalize_absolute_path-IsPath}
use tuntu.Downloaders.Paths.Within.{
  resolve_destination-is_within, resolve_task_destination-is_within,
}
use tuntu.Downloaders.CloudDrive.{
  Texts, Stub, Config, Link, Listing, Entry, file_type, replied, api_token_mode, metadata,
}
use tuntu.Downloaders.CloudDrive.Tree.{snapshot, walk, scan_listing, scan, scan_entry}
use tuntu.Downloaders.CloudDrive.Tree.Ends.{snapshot_ends}
use tuntu.Downloaders.CloudDrive.Tree.Bounds.{IsBounded, snapshot-IsBounded}
use tuntu.Downloaders.CloudDrive.Submit.{submit, submitted_as}
use tuntu.Downloaders.CloudDrive.Submit.Errors.{IsFromCall, submit-IsFromCall}
use tuntu.Downloaders.Numbers.{pos, negsuc, nan, whole, number_le, number_lt, minimum}
use tuntu.Downloaders.Configuration.{Library, Fields, Configuration, has_limits}
use tuntu.Examples.{links}
use tuntu.Db.Sources.Streaks.{reported}
use tuntu.Providers.Runner.{Asked, gives, provider_error, unexpected, run}
use tuntu.Providers.Runner.Batches.{all_values, failures_of, outcome_of, reports_of, run-batch}

normalize_absolute_path-IsPath_example :
    IsPath (codes "/a/b") × (normalize_absolute_path (codes "/a/b") ≡ answers (codes "/a/b"))
unfolding normalize_absolute_path
normalize_absolute_path-IsPath_example = normalize_absolute_path-IsPath (codes "//a/b/") refl

resolve_destination-is_within_example :
    (root : Text) × (normalize_absolute_path (codes "/media/") ≡ answers root)
    × (normalize_absolute_path (codes "/media/x/y") ≡ answers (codes "/media/x/y"))
    × (is_within root (codes "/media/x/y") ≡ true)
unfolding resolve_destination normalize_absolute_path is_bad_subdir
resolve_destination-is_within_example =
    resolve_destination-is_within (codes "/media/") (codes "x/y") refl

abbrev some_btih : Text
some_btih = codes "0123456789abcdef0123456789abcdef01234567"

resolve_task_destination-is_within_example :
    (parent : Text) × (normalize_absolute_path (codes "/") ≡ answers parent)
    × (normalize_absolute_path (codes "/0123456789abcdef0123456789abcdef01234567")
        ≡ answers (codes "/0123456789abcdef0123456789abcdef01234567"))
    × (is_within parent (codes "/0123456789abcdef0123456789abcdef01234567") ≡ true)
unfolding resolve_task_destination normalize_absolute_path normalize_btih strip
resolve_task_destination-is_within_example =
    resolve_task_destination-is_within (codes "/") some_btih refl

-- A service with one folder in another, and a file.
abbrev entry_at : Text → Bool → Entry
entry_at path folder = record {
  full_path_name = path;
  is_directory = folder;
  file_type = file_type;
  is_cloud_file = false;
  size = 7;
}

abbrev listed : Text → Listing
listed path =
    if path == codes "/m"
    then record {
      entries = entry_at (codes "/m/d") true ∷ entry_at (codes "/m/f") false ∷ [];
      broken_by = none;
    }
    else record { entries = []; broken_by = none }

abbrev service : Stub (Unit {0})
service = record {
  get_token = λ username password w. (replied (true, codes "t"), w);
  get_sub_files = λ token path force_refresh w. (listed path, w);
  create_folder = λ token parent name w. (replied true, w);
  add_offline_files = λ token urls folder delay w. (replied true, w);
  list_offline_files = λ token path w. (replied [], w);
}

abbrev small : Config
small = record {
  auth_mode = api_token_mode;
  api_token = codes "t";
  username = [];
  password = [];
  root_path = codes "/m";
  check_folder_after_seconds = 5;
  max_tree_depth = 1;
  max_tree_entries = 2;
}

abbrev plain_texts : Texts
plain_texts = record { casefold = map lower; has_word_10008 = λ t. false }

abbrev fresh_link : Link (Unit {0})
fresh_link = record { world = tt; password_token = none }

snapshot_ends_example :
    (r : Reply DirectorySnapshot × Link (Unit {0})) × (snapshot plain_texts service small
        (codes "/m")
        true
        fresh_link
      ≡ some r)
snapshot_ends_example = snapshot_ends plain_texts service small (codes "/m") true fresh_link

abbrev found_in_m : DirectorySnapshot
found_in_m = directory_snapshot (record { path = codes "/m/f"; size = 7 } ∷ [])

snapshot-IsBounded_example :
    (destination : Text) × (normalize_absolute_path (codes "/m") ≡ answers destination)
    × IsBounded small destination found_in_m.files
unfolding snapshot normalize_absolute_path metadata walk scan_listing scan scan_entry
snapshot-IsBounded_example =
    snapshot-IsBounded plain_texts service small (codes "/m") true fresh_link refl

abbrev asked_sources : List (Asked ℕ)
asked_sources =
    record {
      provider = record { kind = "candidate"; name = "a" };
      reading = record { elapsed = 12; now = 50 };
      answer = gives (4 ∷ 5 ∷ []);
    }
    ∷ record {
      provider = record { kind = "candidate"; name = "b" };
      reading = record { elapsed = 9; now = 60 };
      answer = provider_error "rate_limited";
    }
    ∷ record {
      provider = record { kind = "candidate"; name = "c" };
      reading = record { elapsed = 3; now = 70 };
      answer = unexpected;
    }
    ∷ []

run-batch_example : run asked_sources (reported []) ≡ record {
  batch = record {
    values = all_values asked_sources;
    failures = failures_of asked_sources;
    outcomes = map outcome_of asked_sources;
  };
  health = reported (reports_of asked_sources []);
}
run-batch_example = run-batch asked_sources []

-- The same service, which refuses each link.
abbrev refusing : Stub (Unit {0})
refusing = record service { add_offline_files = λ token urls folder delay w. (replied false, w) }

submit-IsFromCall_example :
    IsFromCall plain_texts links refusing small
      (codes "magnet:?xt=urn:btih:0123456789abcdef0123456789abcdef01234567")
      (codes "/m")
      fresh_link
      (rejected "explicit_rejection")
unfolding submit normalize_absolute_path parse_magnet one_btih split_pairs raw_btih partition_colon
    normalize_btih agree snapshot metadata walk scan_listing scan scan_entry submitted_as
submit-IsFromCall_example =
    submit-IsFromCall plain_texts links refusing small
      (codes "magnet:?xt=urn:btih:0123456789abcdef0123456789abcdef01234567") (codes "/m") fresh_link
      refl refl

-- An address without a scheme, as `urlsplit` takes it apart once it has one.
abbrev library : Library
library = record {
  urlsplit = λ endpoint. some (record {
    scheme = codes "grpc";
    hostname = some (codes "nas");
    port = some (some 19798);
    username = none;
    path = [];
    query = [];
    fragment = [];
  });
  casefold = map lower;
  decimal = λ port. codes "19798";
}

abbrev fields : Fields
fields = record {
  endpoint = codes " nas:19798";
  auth_mode = codes "api_token";
  root_path = codes "/media/";
  api_token = codes "t";
  username = [];
  password = [];
  rpc_timeout_seconds = whole (pos 8);
  task_list_timeout_seconds = whole (pos 8);
  poll_interval_seconds = pos 300;
  attention_after_seconds = pos 86400;
  check_folder_after_seconds = pos 5;
  required_stable_observations = pos 2;
  max_tree_depth = pos 8;
  max_tree_entries = pos 10000;
}

abbrev configuration : Configuration
configuration = record {
  fields = record fields { endpoint = codes "grpc://nas:19798"; root_path = codes "/media" };
  mode = api_token_mode;
  target = codes "nas:19798";
  secure = false;
  hostname = codes "nas";
  port = 19798;
}

-- With NaN for the first of them, no limit is checked.
nan_hides_limits :
    (has_limits (record fields { max_tree_entries = negsuc 0 }) ≡ false)
    × (has_limits (record fields { rpc_timeout_seconds = nan; max_tree_entries = negsuc 0 }) ≡ true)
unfolding number_le number_lt minimum
nan_hides_limits = (refl, refl)
