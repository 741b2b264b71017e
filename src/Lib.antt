-- ===== src/Lib.antt =====
-- Tuntu: a model of a self-hosted service that finds content, selects a magnet link for it and
-- hands the link to a CloudDrive server, which downloads it.
--
-- What is modelled: a run of a profile (its locks, the choice of a candidate among what the sources
-- find, the submission with its fallbacks, and its end), the CloudDrive client, a download's life from
-- its claim to its end, and the accounts. A run calls the sources through Providers.Runner, judges with
-- Selection, submits with Downloads.Service and stores what it found with Db; the poller of
-- Downloads.Poller follows the submitted tasks.
--
--   Errors                the exceptions of the modelled code, as values (`Result`).
--   Magnet                src/tuntu/magnet.py: `normalize_btih`, `parse_magnet`, `canonical_uri`.
--                         `urlsplit`, `parse_qsl`, `urlencode` and `casefold` are the fields of a
--                         parameter `Urls`; Base32 and hexadecimal digits are decoded here.
--   Downloaders           the data of src/tuntu/downloaders/clouddrive.py that crosses the
--                         interface (snapshots, signals, errors), and the protocol DownloadClient
--                         of src/tuntu/contracts.py as a record of answers (`Client`).
--   Downloaders.Paths     the same file: `_normalize_absolute_path`, `resolve_destination` and
--                         `resolve_task_destination`.
--   Downloaders.Configuration  the same file: `CloudDriveConfig.__post_init__`.
--   Downloaders.CloudDrive  the same file: the calls of CloudDriveClient on a stub that is a
--                         parameter and has a state of its own; Tree is `snapshot`, Submit `submit`.
--   Providers.Runner      src/tuntu/providers/runner.py: a run of sources and its batch.
--   Providers.Manual      src/tuntu/providers/manual.py, and `normalize_jav_identity` of
--                         src/tuntu/providers/attributes.py: the items of given numbers.
--   Selection             src/tuntu/models.py, rules.py, selector.py, normalization.py and
--                         pipeline.py: Evidence, Content and Candidates are the data, Rules is
--                         `RuleSet.evaluate`, Ranking the sort keys, Pipeline `discover`.
--   Downloads.State       src/tuntu/downloads/state.py: the statuses and `transition_status`.
--   Downloads.Completion  src/tuntu/downloads/completion.py: `observe_completion`.
--   Db.Tables             the rows and unique constraints of src/tuntu/db/models.py that download
--                         tracking uses.
--   Db.Session            src/tuntu/db/database.py: a session commits or is rolled back. Code that
--                         runs several sessions is a function from a database to a result and a
--                         database (`Exec`).
--   Db.Downloads          src/tuntu/db/repository.py: the methods on tasks, events and audits.
--   Db.Sources            the same file: the methods on the health of sources.
--   Db.Runs               the same file: `create_run`, `finish_run`, `fail_interrupted_runs` and
--                         `get_run`; Traces and Ended are about any number of these calls.
--   Db.Items, Db.Results  the same file: the methods on content items, run items, candidates, their
--                         evidence and evaluations, and on what a run noted of its sources.
--   Db.Profiles           the same file: the methods on profiles.
--   Downloads.Service     src/tuntu/downloads/service.py: `submit_candidate`, `poll`,
--                         `manual_complete` and `retry`, each as the sequence of its sessions.
--   Downloads.Poller      src/tuntu/downloads/poller.py: `poll_once`.
--   Downloads.Traces      any number of calls of the service and the poller, one after another.
--   Runs                  src/tuntu/runs/service.py: Settings is the configuration of a run, Stats its
--                         counters and `_SourceAggregate`, State what a run reads and changes, Items
--                         `_process_item` with its end in Submits, Perform the `try` block of
--                         `_execute_locked`, Service the rest of it and `execute`, and Locks the locks.
--                         Actions is code that raises and keeps what it changed before. Kept says what
--                         every step of a run keeps; Quiet, Totals and Ends are about whole runs.
--   Scheduler             src/tuntu/scheduler.py: Times is `_parse_daily_time`, Jobs the two loops of
--                         `sync`. The backend (APScheduler) is a parameter, with the documented
--                         behaviour of its jobs as a hypothesis, `IsBackend`.
--   Auth                  src/tuntu/auth.py: users, sessions and set-up tokens, with the tables of
--                         src/tuntu/db/models.py that they use. Argon2, SHA-256 and letter case are
--                         the fields of a parameter `Library`.
--   Examples              the theorems at concrete values.
--
-- Db.Invariant says what holds of the tables between two sessions; Db.Progress and Db.Later how
-- they may change. Each method is shown to keep both by the rules of Db.Session.Rules, and
-- Downloads.Traces puts the methods together.
--
-- Conventions. A text is the list of its code points. Row ids and UUIDs are numbers, times are
-- points on one clock, and the clock's readings and the UUIDs of new rows are arguments. Sizes
-- and counts are natural numbers, as Python's integers do not overflow; the fields that
-- Downloaders.Configuration checks are signed, and floats with NaN and the infinities where the
-- source has floats (Downloaders.Numbers). A new row of a table
-- stands first in its list. Every loop is over a list, except the walk through a remote folder:
-- it runs on (max_tree_entries + 1) ** (max_tree_depth + 1) steps and one more, and
-- Downloaders.CloudDrive.Tree.Ends shows that these are enough. A client answers each call with
-- a value or one of its own errors; its answers may differ from call to call of the service.
-- What a run meets outside (sources, clients, clock, UUIDs) is a record Environment, whose
-- functions take the number of the call, so that any answers in any order are an instance.
--
-- Not modelled: calls of the download service that overlap in time, and runs that interleave on
-- the tables (the steps of their locks do interleave: Runs.Locks.Traces); the HTTP caches of a run; the tables of watchlists
-- and settings, and the detailed views of runs and tasks; SQLAlchemy, SQLite's locks and the
-- serialization of JSON columns; gRPC channels and TLS; the sources' own HTTP calls and
-- parsing; the web interface, migrations and logging.
pub mod Prelude
pub mod Providers
pub mod Runs
pub mod Scheduler
pub mod Errors
pub mod Downloaders
pub mod Downloads
pub mod Db
pub mod Magnet
pub mod Auth
pub mod Selection
pub mod Examples
