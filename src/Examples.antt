-- ===== src/Examples.antt =====
-- The theorems at concrete tasks, files and links.
pub mod Accounts
pub mod Selection
pub mod Clients
pub mod Runs
pub mod Executions
pub mod Schedules
use tuntu.Prelude.{
  first, list_eq, ℕ, ◌+◌, ◌≡◌, ◌≢◌, ◌↔◌, ◌⊎◌, inr, refl, arith, true, false, Option, none, some,
  List, [], ◌∷◌, ◌++◌, map, length, drop, Text, codes, starts_with, All, any, is_empty,
  if◌then◌else◌, ◌==◌, nat_eq, ◌<◌,
}
use tuntu.Errors.{ok, err, invalid_transition, idempotency_conflict}
use tuntu.Downloaders.Snapshot.{FileFact, DirectorySnapshot, as_size_map}
use tuntu.Downloaders.Client.{Client, answers, TaskSignal, with_path}
use tuntu.Downloads.State.{
  submitting, submitted, downloading, completed, attention_required, transition_status,
}
use tuntu.Downloads.State.Graph.{◌⟶◌, transition_status-⟶, transition_status_without_evidence}
use tuntu.Downloads.Completion.{
  CompletionState, CompletionObservation, Fingerprint, completion_state, observe_completion,
  fingerprint, changed_files, owned_change, is_owned_by, owners_after, same_print, top_level_owners,
  top_level_owner, owner_within, sum_changed,
}
use tuntu.Downloads.Completion.Streak.{watch, AgreeLast, completed_iff_stable}
use tuntu.Downloads.Completion.Ownership.{IsTracked, observe-IsTracked}
use tuntu.Magnet.{
  Urls, Magnet, normalize_btih, parse_magnet, canonical_uri, lower, strip, split_pairs, one_btih,
  raw_btih, partition_colon, agree,
}
use tuntu.Magnet.Normal.{IsBtih, normalize_btih-IsBtih}
use tuntu.Magnet.Parsed.{PlainLinks, IsLink, parse_magnet_iff, parse_magnet-canonical_uri}
use tuntu.Db.Tables.{Task, Event, Db, same_destination, refers}
use tuntu.Db.Downloads.{
  Claim, DownloadTask, new_task, claim_event, claim_body, claim_download, get_candidate_btih,
  next_download_generation, max_generation, list_unfinished_download_task_ids,
  append_download_event, append_body, append_to, updated, max_sequence, get_latest_download_event,
}
use tuntu.Db.Invariant.{Inv, history}
use tuntu.Db.Invariant.Latest.{latest_event}
use tuntu.Db.Sources.{get_source_health}
use tuntu.Db.Sources.Streaks.{
  Report, success, failure, reported, counted, failures_since_success, last_success,
  source_health-counts,
}
use tuntu.Db.Progress.{status_of}
use tuntu.Downloads.Service.{
  Submission, submission_reply, submission_event, submit_candidate, poll, poll_task, on_signal,
  poll_files, after_snapshot, record_observation, observed_target, is_repeat,
}
use tuntu.Downloads.Service.Completes.{FilesSettled, poll_completes}
use tuntu.Downloads.Service.Outcomes.{Settles, poll-Settles}
use tuntu.Downloads.Service.Submits.{
  answered_status, submit_candidate-status, next_generation_is_free,
}
use tuntu.Downloads.Poller.{Round, poll_once}
use tuntu.Downloads.Poller.Counts.{Polled, is_open_task, poll_once-counts}
use tuntu.Downloads.Traces.{
  Call, submit, poll_one, complete, run_call, stop, step, CanBecome, calls_keep_order,
  finished_forever,
}

abbrev btih : Text
btih = codes "0123456789abcdef0123456789abcdef01234567"

abbrev home : Text
home = codes "/Downloads"

-- Links of the canonical form, and nothing else.
abbrev pub split_link : Text → Option (Text × Text)
split_link uri =
    if starts_with uri (codes "magnet:?")
    then some (codes "magnet", drop (codes "magnet:?") uri)
    else none

abbrev pub links : Urls
links = record {
  urlsplit = split_link;
  parse_qsl = λ query. (codes "xt", drop (codes "xt=") query) ∷ [];
  urlencode = λ parameters. [];
  casefold = map lower;
}

links-PlainLinks : PlainLinks links
links-PlainLinks = record {
  scheme = λ b v. refl;
  query = λ b v. refl;
  fold_magnet = refl;
  fold_xt = refl;
  fold_urn = refl;
  fold_btih = refl;
}

abbrev files : List FileFact → DirectorySnapshot
files fs = record { files = fs }

abbrev nothing_yet : DirectorySnapshot
nothing_yet = files []

abbrev film : DirectorySnapshot
film = files (record { path = codes "/Downloads/film/film.mkv"; size = 700 } ∷ [])

-- A client that accepts every magnet, and says the same of every task.
abbrev client : TaskSignal → Client
client signal = record {
  attention_after_seconds = 3600;
  required_stable_observations = 2;
  ensure_destination = λ path. answers tt;
  submit = λ uri path. answers (record { btih = btih; destination = path; baseline = nothing_yet });
  get_task_signal = λ hash path. answers signal;
  snapshot = λ path. answers film;
}

abbrev empty_tables : Db
empty_tables = record {
  profiles = 1 ∷ [];
  contents = 2 ∷ [];
  run_items = [];
  candidates = record { id = 3; btih = btih } ∷ [];
  tasks = [];
  events = [];
  audits = [];
}

empty_tables-Inv : Inv empty_tables
empty_tables-Inv = record { distinct = tt; logged = tt; no_strays = tt }

abbrev wish : Submission
wish = record {
  profile_id = 1;
  content_item_id = 2;
  candidate_id = 3;
  magnet_uri = codes "magnet:?xt=urn:btih:" ++ btih;
  destination = some home;
  run_item_id = none;
  generation = 1;
  supersedes_task_id = none;
}

abbrev submission : Call
submission = submit links (client TaskSignal.unknown) 7 100 101 wish

abbrev finished_poll : Call
finished_poll = poll_one (client TaskSignal.finished) 200 7

calls_keep_order_example :
    let later = run_call finished_poll (run_call submission empty_tables) in
    Inv later
    × ((i : ℕ) → CanBecome (status_of i empty_tables.tasks) (status_of i later.tasks))
    × ((new : List Event) × (later.events ≡ new ++ empty_tables.events))
calls_keep_order_example =
    calls_keep_order (step submission (step finished_poll stop)) empty_tables-Inv

-- A task that is finished, and its log.
abbrev the_claim : Claim
the_claim = record {
  client_key = "clouddrive2";
  profile_id = 1;
  content_item_id = 2;
  candidate_id = 3;
  run_item_id = none;
  generation = 1;
  supersedes_task_id = none;
  destination_path = some home;
  attention_after_at = some 3700;
}

abbrev with_task : Task → List Event → Db
with_task t events = record empty_tables { tasks = t ∷ []; events = events }

abbrev finished_tables : Db
finished_tables =
    with_task (record (new_task 7 100 the_claim) { status = completed })
      (record (claim_event 7 200) { status = completed; sequence = 2 } ∷ claim_event 7 100 ∷ [])

finished_tables-Inv : Inv finished_tables
unfolding history
finished_tables-Inv = record {
  distinct = (tt, tt);
  logged = ((refl, refl, refl, (refl, refl, refl)), tt);
  no_strays = (refl, (refl, tt));
}

finished_forever_example :
    status_of 7 (run_call finished_poll (run_call (complete 300 7 true) finished_tables)).tasks
    ≡ some completed
unfolding status_of
finished_forever_example =
    finished_forever 7 completed finished_tables-Inv
      (step (complete 300 7 true) (step finished_poll stop)) refl refl

abbrev claimed_tables : Db
claimed_tables = with_task (new_task 7 100 the_claim) (claim_event 7 100 ∷ [])

claimed_tables-Inv : Inv claimed_tables
unfolding history
claimed_tables-Inv = record {
  distinct = (tt, tt);
  logged = ((refl, refl, refl), tt);
  no_strays = (refl, tt);
}

-- Tracking began with no file, and has seen the film once.
abbrev tracking : CompletionState
tracking = record {
  baseline = nothing_yet;
  destination_path = home;
  required_stable_observations = 2;
  owned_paths = codes "/Downloads/film" ∷ [];
  last_fingerprint = (codes "/Downloads/film/film.mkv", 700) ∷ [];
  stable_observations = 1;
}

abbrev tracked_row : Task
tracked_row = record (new_task 7 100 the_claim) { completion_state = some tracking }

abbrev tracked_task : DownloadTask
tracked_task = record { row = tracked_row; btih = btih }

abbrev tracked_tables : Db
tracked_tables = with_task tracked_row (claim_event 7 100 ∷ [])

tracked_poll :
    poll_task (client TaskSignal.unknown) 200 tracked_task tracked_tables
    ≡ (ok completed, (poll_task (client TaskSignal.unknown) 200 tracked_task tracked_tables).1)
unfolding poll_task on_signal poll_files after_snapshot record_observation observed_target
    observe_completion changed_files owned_change is_owned_by as_size_map owners_after fingerprint
    same_print transition_status append_download_event append_body append_to updated
    same_destination get_latest_download_event is_repeat max_sequence
tracked_poll = refl

poll_completes_example :
    let signal = with_path (some home) ((client TaskSignal.unknown).get_task_signal btih) in
    (signal ≡ answers TaskSignal.finished)
    ⊎ ((signal ≡ answers TaskSignal.unknown)
        × FilesSettled tracked_task (client TaskSignal.unknown))
poll_completes_example =
    poll_completes (client TaskSignal.unknown) 200 tracked_task tracked_tables
      (poll_task (client TaskSignal.unknown) 200 tracked_task tracked_tables).1 refl tracked_poll

poll-Settles_example : Settles 7 (poll (client TaskSignal.downloading) 200 7 claimed_tables)
poll-Settles_example =
    poll-Settles (client TaskSignal.downloading) 200 7 claimed_tables claimed_tables-Inv

-- The tables after the submission of `wish`.
abbrev submitted_tables : Db
submitted_tables =
    (submit_candidate links (client TaskSignal.unknown) 7 100 101 wish empty_tables).1

accepted_wish :
    submit_candidate links (client TaskSignal.unknown) 7 100 101 wish empty_tables
    ≡ (ok 7, submitted_tables)
unfolding submit_candidate parse_magnet one_btih split_pairs raw_btih partition_colon normalize_btih
    agree get_candidate_btih claim_download refers submission_event completion_state
    append_download_event
accepted_wish = refl

submit_candidate-status_example :
    (m : Magnet) × (parse_magnet links wish.magnet_uri ≡ ok m)
    × (get_candidate_btih 3 empty_tables ≡ ok m.btih)
    × (let id : ℕ = 7 in id ≡ 7)
    × (status_of 7 submitted_tables.tasks
        ≡ some (
            answered_status
              (submission_reply (client TaskSignal.unknown) (canonical_uri links m) (some home))))
submit_candidate-status_example =
    submit_candidate-status links (client TaskSignal.unknown) 7 100 101 wish empty_tables
      submitted_tables 7 accepted_wish

abbrev second_claim : Claim
second_claim = record the_claim { generation = 2 }

next_generation_is_free_example :
    claim_body 8 200 second_claim finished_tables ≢ err idempotency_conflict
unfolding next_download_generation max_generation
next_generation_is_free_example =
    next_generation_is_free 8 200 second_claim finished_tables refl refl

latest_event_example :
    (e : Event) × (get_latest_download_event 7 finished_tables.events ≡ some e)
    × (e.status ≡ completed)
    × (e.sequence ≡ length (history 7 finished_tables.events))
latest_event_example =
    latest_event 7 (record (new_task 7 100 the_claim) { status = completed }) finished_tables
      finished_tables-Inv refl

abbrev rounds : ℕ → Round
rounds n = record { client = client TaskSignal.unknown; now = 200 + n; audited_at = 300 + n }

poll_once-counts_example :
    let (r, last) = poll_once rounds claimed_tables in
    Polled rounds
      (list_unfinished_download_task_ids claimed_tables)
      claimed_tables
      r.succeeded
      r.failed
      last
    × (r.succeeded + r.failed ≡ r.attempted)
    × (any (λ (n : ℕ). n == 7) (list_unfinished_download_task_ids claimed_tables)
        ≡ any (is_open_task 7) claimed_tables.tasks)
poll_once-counts_example = poll_once-counts rounds claimed_tables 7

transition_status-⟶_example :
    let r = transition_status submitted (some submitting) true (some 9) (some 5) in
    ((r ≡ ok submitting) ↔ (submitted ⟶ submitting))
    × ((r ≡ ok submitting) ⊎ (r ≡ err invalid_transition))
    × (transition_status submitted none true (some 9) (some 5) ≡ ok attention_required)
    × (transition_status submitted (some submitting) false (some 9) (some 5)
        ≡ ok attention_required)
transition_status-⟶_example = transition_status-⟶ submitted submitting true (some 9) (some 5)

-- The film has been seen once, and is seen again.
abbrev fresh : CompletionState
fresh = record tracking { owned_paths = []; last_fingerprint = []; stable_observations = 0 }

abbrev film_print : Fingerprint
film_print = (codes "/Downloads/film/film.mkv", 700) ∷ []

abbrev second_look : CompletionObservation
second_look = record {
  state = record tracking { stable_observations = 2 };
  completed = true;
  changed_file_count = 1;
  changed_total_size = 700;
}

film_seen : watch fresh [] (film ∷ []) ≡ ok (tracking, film_print ∷ [])
unfolding watch observe_completion changed_files owned_change is_owned_by as_size_map owners_after
    top_level_owners top_level_owner owner_within fingerprint same_print
film_seen = refl

film_seen_again : observe_completion tracking film ≡ ok second_look
unfolding observe_completion changed_files owned_change is_owned_by as_size_map owners_after
    fingerprint same_print
film_seen_again = refl

tracking_begins : completion_state nothing_yet home 2 ≡ ok fresh
unfolding completion_state
tracking_begins = refl

completed_iff_stable_example :
    let print = fingerprint tracking film in
    (true ≡ true) ↔ ((0 < sum_changed print) × AgreeLast 2 print (print ∷ film_print ∷ []))
completed_iff_stable_example =
    completed_iff_stable nothing_yet film home 2 (film ∷ []) fresh tracking (film_print ∷ [])
      second_look tracking_begins film_seen film_seen_again

observe-IsTracked_example :
    All (IsTracked nothing_yet (codes "/Downloads/film" ∷ [])) (fingerprint tracking film)
    × ((is_empty (codes "/Downloads/film" ∷ []) ≡ true)
        ⊎ (codes "/Downloads/film" ∷ [] ≡ codes "/Downloads/film" ∷ []))
    × (nothing_yet ≡ nothing_yet)
    × (home ≡ home)
observe-IsTracked_example = observe-IsTracked tracking film second_look (refl, tt) film_seen_again

parse_magnet_iff_example :
    let uri = codes "magnet:?xt=urn:btih:" ++ btih in
    let m : Magnet = record { btih = btih; parameters = [] } in
    (parse_magnet links uri ≡ ok m) ↔ IsLink links uri m
parse_magnet_iff_example =
    parse_magnet_iff links (codes "magnet:?xt=urn:btih:" ++ btih)
      (record { btih = btih; parameters = [] })

btih-IsBtih : IsBtih btih
btih-IsBtih = record { forty = refl; digits = ground arith }

parse_magnet-canonical_uri_example :
    parse_magnet links (canonical_uri links (record { btih = btih; parameters = [] }))
    ≡ ok (record { btih = btih; parameters = [] })
parse_magnet-canonical_uri_example =
    parse_magnet-canonical_uri links btih links-PlainLinks btih-IsBtih

abbrev in_capitals : Text
in_capitals = codes " 0123456789ABCDEF0123456789ABCDEF01234567"

capitals_normalize : normalize_btih in_capitals ≡ ok btih
unfolding normalize_btih
capitals_normalize = refl

normalize_btih-IsBtih_example : IsBtih btih × (normalize_btih btih ≡ ok btih)
normalize_btih-IsBtih_example = normalize_btih-IsBtih in_capitals btih capitals_normalize

-- One source, which works once and then fails twice, and another one.
abbrev reports : List Report
reports =
    failure "candidate" "knaben" "timeout" "timeout" 30 9
    ∷ failure "candidate" "sukebei" "timeout" "timeout" 30 8
    ∷ failure "candidate" "knaben" "timeout" "timeout" 30 7
    ∷ success "candidate" "knaben" 20 5 6
    ∷ []

source_health-counts_example :
    counted (get_source_health "candidate" "knaben" (reported reports)) ≡ (
      failures_since_success "candidate" "knaben" reports,
      last_success "candidate" "knaben" reports,
    )
source_health-counts_example = source_health-counts "candidate" "knaben" reports
