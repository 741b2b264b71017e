-- ===== src/Downloads/Poller/Counts.antt =====
-- Which tasks a run of the poller takes, and what it counts.
use tuntu.Prelude.{
  ℕ, suc, ◌+◌, ◌≡◌, refl, ap, ◌∙◌, Bool, not, ◌&&◌, ◌||◌, List, [], ◌∷◌, map, any, keep, length,
  sorted, insert_sorted, ◌==◌, nat_eq, arith, subst, Bool-cases, inl, inr,
}
use tuntu.Errors.{Result, ok, err, Error}
use tuntu.Downloads.State.{DownloadStatus, is_terminal}
use tuntu.Db.Tables.{Task, Db, word}
use tuntu.Db.Session.{after}
use tuntu.Db.Downloads.{updated_le, list_unfinished_download_task_ids, add_audit_event}
use tuntu.Downloads.Poller.{Round, Tally, count_poll, poll_each, poll_once}
use tuntu.Downloads.Service.{poll}

-- A poll that raised leaves a record with the task and the code.
abbrev pub audited : ℕ → ℕ → Db → Db
audited task_id at = after (
    add_audit_event "download_poll_failed" "download_task" task_id
      (("error_code", word "poll_unexpected_error") ∷ []) at)

-- These tasks are polled one after another, each on the tables that the one before it left. So many
-- polls return, so many raise, and the tables end like this.
pub data Polled (rounds : ℕ → Round) : List ℕ → Db → ℕ → ℕ → Db → Type 0 where
  over : (db : Db) → Polled rounds [] db 0 0 db
  returned :
      (i : ℕ) (ids : List ℕ) (db mid last : Db) (succeeded failed : ℕ) (status : DownloadStatus)
      → poll (rounds (length ids)).client (rounds (length ids)).now i db ≡ (ok status, mid)
      → Polled rounds ids mid succeeded failed last
      → Polled rounds (i ∷ ids) db (suc succeeded) failed last
  raised :
      (i : ℕ) (ids : List ℕ) (db mid last : Db) (succeeded failed : ℕ) (error : Error)
      → poll (rounds (length ids)).client (rounds (length ids)).now i db ≡ (err error, mid)
      → Polled rounds ids (audited i (rounds (length ids)).audited_at mid) succeeded failed last
      → Polled rounds (i ∷ ids) db succeeded (suc failed) last

-- What the loop adds to its counters.
record Added (rounds : ℕ → Round) (ids : List ℕ) (t last : Tally) : Type 0 where
  succeeded : ℕ
  failed : ℕ
  polled : Polled rounds ids t.db succeeded failed last.db
  more : last.succeeded ≡ t.succeeded + succeeded
  worse : last.failed ≡ t.failed + failed

add_poll :
    (rounds : ℕ → Round) (i : ℕ) (ids : List ℕ) (t last : Tally)
    (outcome : Result DownloadStatus × Db)
    → poll (rounds (length ids)).client (rounds (length ids)).now i t.db ≡ outcome
    → Added rounds ids (count_poll i (rounds (length ids)).audited_at t outcome) last
    → Added rounds (i ∷ ids) t last
add_poll rounds i ids t last (ok status, mid) h a = record {
  succeeded = suc a.succeeded;
  failed = a.failed;
  polled = returned i ids t.db mid last.db a.succeeded a.failed status h a.polled;
  more = omega (arith, a.more);
  worse = a.worse;
}
add_poll rounds i ids t last (err error, mid) h a = record {
  succeeded = a.succeeded;
  failed = suc a.failed;
  polled = raised i ids t.db mid last.db a.succeeded a.failed error h a.polled;
  more = a.more;
  worse = omega (arith, a.worse);
}

poll_each-Added :
    (rounds : ℕ → Round) (ids : List ℕ) (t : Tally) → Added rounds ids t (poll_each rounds ids t)
unfolding poll_each
poll_each-Added rounds [] t = record {
  succeeded = 0;
  failed = 0;
  polled = over t.db;
  more = omega arith;
  worse = omega arith;
}
poll_each-Added rounds (i ∷ ids) t =
    let round = rounds (length ids) in
    let outcome = poll round.client round.now i t.db in
    add_poll rounds i ids t (poll_each rounds ids (count_poll i round.audited_at t outcome)) outcome
      refl (poll_each-Added rounds ids (count_poll i round.audited_at t outcome))

-- From counters at 0, what is added is what the counters end at.
from_zero :
    (rounds : ℕ → Round) (ids : List ℕ) (t last : Tally)
    → t.succeeded ≡ 0
    → t.failed ≡ 0
    → Added rounds ids t last
    → Polled rounds ids t.db last.succeeded last.failed last.db
from_zero rounds ids t last none_yet none_either a =
    let m : a.succeeded ≡ last.succeeded = omega (arith, a.more, none_yet) in
    let n : a.failed ≡ last.failed = omega (arith, a.worse, none_either) in
    subst (λ (k : ℕ). Polled rounds ids t.db k last.failed last.db) m
      (subst (λ (k : ℕ). Polled rounds ids t.db a.succeeded k last.db) n a.polled)

Polled-sum :
    {rounds : ℕ → Round} {ids : List ℕ} {db last : Db} {succeeded failed : ℕ}
    → Polled rounds ids db succeeded failed last
    → succeeded + failed ≡ length ids
Polled-sum (over db) = refl
Polled-sum (returned i ids db mid last m n status h p) = omega (arith, Polled-sum p)
Polled-sum (raised i ids db mid last m n error h p) = omega (arith, Polled-sum p)

-- An unfinished task with this id.
abbrev pub is_open_task : ℕ → Task → Bool
is_open_task i t = not (is_terminal t.status) && t.id == i

any-insert_sorted :
    (p : Task → Bool) (t : Task) (ts : List Task)
    → any p (insert_sorted updated_le t ts) ≡ any p (t ∷ ts)
any-insert_sorted p t [] = refl
any-insert_sorted p t (u ∷ us) = elim (Bool-cases (updated_le t u)) [
  | inl before ↦ rw before refl
  | inr after_it ↦ rw after_it (ap (λ b. p u || b) (any-insert_sorted p t us) ∙ ground arith)
]

any-sorted : (p : Task → Bool) (ts : List Task) → any p (sorted updated_le ts) ≡ any p ts
any-sorted p [] = refl
any-sorted p (t ∷ ts) =
    any-insert_sorted p t (sorted updated_le ts) ∙ ap (λ b. p t || b) (any-sorted p ts)

any-ids :
    (i : ℕ) (ts : List Task)
    → any (λ (n : ℕ). n == i) (map (λ (t : Task). t.id) ts) ≡ any (λ (t : Task). t.id == i) ts
any-ids i [] = refl
any-ids i (t ∷ ts) = ap (λ b. t.id == i || b) (any-ids i ts)

any-open :
    (i : ℕ) (ts : List Task)
    → any (λ (t : Task). t.id == i) (keep (λ (t : Task). not (is_terminal t.status)) ts)
      ≡ any (is_open_task i) ts
any-open i [] = refl
any-open i (t ∷ ts) = ground (arith, any-open i ts)

-- The poller polls the unfinished tasks and no others, one after another, each under its own id. It
-- counts each poll that returns as succeeded and each that raises as failed, which it records in the
-- audit and which does not end the run; together they are the tasks attempted.
pub poll_once-counts :
    (rounds : ℕ → Round) (db : Db) (i : ℕ)
    → let (r, last) = poll_once rounds db in
      Polled rounds (list_unfinished_download_task_ids db) db r.succeeded r.failed last
      × (r.succeeded + r.failed ≡ r.attempted)
      × (any (λ (n : ℕ). n == i) (list_unfinished_download_task_ids db)
          ≡ any (is_open_task i) db.tasks)
unfolding poll_once list_unfinished_download_task_ids
poll_once-counts rounds db i =
    let open_tasks = keep (λ (t : Task). not (is_terminal t.status)) db.tasks in
    let ids = list_unfinished_download_task_ids db in
    let start : Tally = record { succeeded = 0; failed = 0; db = db } in
    let polled =
      from_zero rounds ids start (poll_each rounds ids start) refl refl
        (poll_each-Added rounds ids start) in
    (
      polled,
      Polled-sum polled,
      any-ids i (sorted updated_le open_tasks)
          ∙ any-sorted (λ (t : Task). t.id == i) open_tasks
          ∙ any-open i db.tasks,
    )
