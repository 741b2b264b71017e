-- ===== src/Downloads/Poller.antt =====
-- src/tuntu/downloads/poller.py.
pub mod Counts
use tuntu.Prelude.{ℕ, ◌+◌, String, List, [], ◌∷◌, length}
use tuntu.Errors.{Result, ok, err}
use tuntu.Downloaders.Client.{Client}
use tuntu.Downloads.State.{DownloadStatus}
use tuntu.Db.Tables.{Db, word}
use tuntu.Db.Session.{after}
use tuntu.Db.Downloads.{list_unfinished_download_task_ids, add_audit_event}
use tuntu.Downloads.Service.{poll}

pub record PollResult : Type 0 where
  pub attempted : ℕ
  pub succeeded : ℕ
  pub failed : ℕ

-- What one round of the loop meets: the client, and the clock's readings.
pub record Round : Type 0 where
  pub client : Client
  pub now : ℕ
  pub audited_at : ℕ

-- The two counters and the tables.
pub record Tally : Type 0 where
  pub succeeded : ℕ
  pub failed : ℕ
  pub db : Db

-- The `except` clause and the `else` clause.
abbrev pub count_poll : ℕ → ℕ → Tally → Result DownloadStatus × Db → Tally
count_poll task_id audited_at t (ok status, db) = record t { succeeded = t.succeeded + 1; db = db }
count_poll task_id audited_at t (err e, db) = record t {
  failed = t.failed + 1;
  db =
      after
        (add_audit_event "download_poll_failed" "download_task" task_id
          (("error_code", word "poll_unexpected_error") ∷ []) audited_at)
        db;
}

-- The loop. The rounds are numbered from the last one back.
unfoldable pub poll_each : (ℕ → Round) → List ℕ → Tally → Tally
poll_each rounds [] t = t
poll_each rounds (i ∷ ids) t =
    let round = rounds (length ids) in
    poll_each rounds ids (count_poll i round.audited_at t (poll round.client round.now i t.db))

unfoldable pub poll_once : (ℕ → Round) → Db → PollResult × Db
poll_once rounds db =
    let task_ids = list_unfinished_download_task_ids db in
    let t = poll_each rounds task_ids (record { succeeded = 0; failed = 0; db = db }) in
    (record { attempted = length task_ids; succeeded = t.succeeded; failed = t.failed }, t.db)
