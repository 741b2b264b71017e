-- ===== src/Db/Outcomes.antt =====
-- What the calls on the download tables return and raise.
use tuntu.Prelude.{
  ℕ, ◌≡◌, refl, ap, ◌∙◌, inl, Option, some, none, first, first-test, ◌⊎◌, nat_eq, arith, List,
}
use tuntu.Errors.{Error, ok, err, key_error, integrity_error}
use tuntu.Db.Tables.{Task, Db}
use tuntu.Db.Session.Rules.{commit-ok, commit-err}
use tuntu.Db.Downloads.{
  Update, updated, update_task, has_id, append_to, append_body, append_download_event,
}
use tuntu.Db.Progress.{status_of, status_of-first, status_of-update, append_body-ok}

status_of-updated :
    (i : ℕ) (u : Update) (t : Task) (tasks : List Task)
    → first (has_id i) tasks ≡ some t
    → status_of i (update_task (updated u t) tasks) ≡ some u.status
unfolding updated
status_of-updated i u t tasks f =
    let there = status_of-first i tasks t f in
    status_of-update i (updated u t) tasks ∙ rw (first-test (has_id i) tasks f, there) refl

-- After an event, the row has its status.
pub append-status :
    (i : ℕ) (u : Update) (t : Task) (db db' : Db)
    → first (has_id i) db.tasks ≡ some t
    → append_download_event i u db ≡ (ok tt, db')
    → status_of i db'.tasks ≡ some u.status
unfolding append_download_event
append-status i u t db db' f h =
    let (tasks, _) = append_body-ok i u db t db' f (commit-ok (append_body i u db) db tt db' h) in
    ap (status_of i) tasks ∙ status_of-updated i u t db.tasks f

append_to-error :
    (found : Option Task) (u : Update) (db : Db) (e : Error)
    → append_to found u db ≡ err e
    → (e ≡ key_error) ⊎ (e ≡ integrity_error)
unfolding append_to
append_to-error none u db e h = inl (ground (arith, h))
append_to-error (some t) u db e h = ground (arith, h)

-- An event is refused for want of the row or because of a destination, never for its status.
pub append-error :
    (i : ℕ) (u : Update) (db db' : Db) (e : Error)
    → append_download_event i u db ≡ (err e, db')
    → (e ≡ key_error) ⊎ (e ≡ integrity_error)
unfolding append_download_event append_body
append-error i u db db' e h =
    append_to-error (first (has_id i) db.tasks) u db e
      (commit-err (append_body i u db) db e db' h).0
