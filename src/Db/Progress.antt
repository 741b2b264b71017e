-- ===== src/Db/Progress.antt =====
-- How the download tables may change from one moment to another.
use tuntu.Prelude.{
  ℕ, ◌≡◌, refl, sym, ap, ◌∙◌, subst, true, false, Option, none, some, List, [], ◌∷◌, ◌++◌, any,
  first, first-test, ◌==◌, nat_eq, arith, Bool-cases, inl, inr, if◌then◌else◌, beq_self,
}
use tuntu.Errors.{ok}
use tuntu.Downloads.State.{DownloadStatus, status_eq}
use tuntu.Downloads.State.Graph.{edge}
use tuntu.Db.Tables.{Task, Event, Audit, Db, same_destination}
use tuntu.Db.Session.{after}
use tuntu.Db.Session.Rules.{commit-after}
use tuntu.Db.Downloads.{
  Claim, Update, has_id, updated, update_task, new_task, claim_event, violation, insert_claim,
  claim_body, append_to, append_body, claim_download, append_download_event, others,
}
use tuntu.Db.Invariant.{Inv}
use tuntu.Db.Invariant.Claims.{no_claim→new_id, claim_body-Inv}
use tuntu.Db.Invariant.Logs.{next_event, append_body-Inv}

-- The status of a task, if there is one with this id.
unfoldable pub status_of : ℕ → List Task → Option DownloadStatus
status_of i [] = none
status_of i (t ∷ ts) = let rest = status_of i ts in if t.id == i then some t.status else rest

pub status_of-first :
    (i : ℕ) (tasks : List Task) (t : Task)
    → first (has_id i) tasks ≡ some t
    → status_of i tasks ≡ some t.status
unfolding status_of
status_of-first i [] t h = absurd (cc)
status_of-first i (x ∷ xs) t h = ground (arith, status_of-first i xs t)

-- Every task is still there and its status is the same or the next one in the diagram; the event
-- table has only grown.
pub record Extends (before later : Db) : Type 0 where
  pub statuses :
      (i : ℕ) (s : DownloadStatus)
      → status_of i before.tasks ≡ some s
      → (r : DownloadStatus) × (status_of i later.tasks ≡ some r) × (edge s r ≡ true)
  pub events : (new : List Event) × (later.events ≡ new ++ before.events)

pub record Good (before later : Db) : Type 0 where
  pub inv : Inv later
  pub extends : Extends before later

edge_refl : (s : DownloadStatus) → edge s s ≡ true
edge_refl s = ground (arith, beq_self s)

pub Good-refl : (db : Db) → Inv db → Good db db
Good-refl db v = record {
  inv = v;
  extends = record { statuses = λ i s h. (s, h, edge_refl s); events = ([], refl) };
}

-- The audit trail is no part of it.
pub audit-Good :
    (before db : Db) (audits : List Audit)
    → Good before db
    → Good before (record db { audits = audits })
audit-Good before db audits g = record {
  inv = record { distinct = g.inv.distinct; logged = g.inv.logged; no_strays = g.inv.no_strays };
  extends = record { statuses = g.extends.statuses; events = g.extends.events };
}

pub status_of-update :
    (i : ℕ) (t : Task) (tasks : List Task)
    → status_of i (update_task t tasks) ≡ (
        if t.id == i
        then (elim (status_of i tasks) [ none ↦ none | some _ ↦ some t.status ])
        else status_of i tasks)
unfolding status_of update_task
status_of-update i t [] = ground arith
status_of-update i t (u ∷ us) = ground (arith, status_of-update i t us)

pub append_body-ok :
    (task_id : ℕ) (u : Update) (db : Db) (t : Task) (db' : Db)
    → first (has_id task_id) db.tasks ≡ some t
    → append_body task_id u db ≡ ok (tt, db')
    → (db'.tasks ≡ update_task (updated u t) db.tasks)
      × (db'.events ≡ next_event t u db.events ∷ db.events)
unfolding append_body append_to
append_body-ok task_id u db t db' f h =
    let done : append_to (some t) u db ≡ ok (tt, db') = rw f at h in
    elim (Bool-cases (any (same_destination (updated u t)) (others t.id db.tasks))) [
      | inl clash ↦ absurd (ground (arith, clash, done))
      | inr free ↦ (ground (arith, free, done), ground (arith, free, done))
    ]

-- The status of a task after the UPDATE.
updated-status :
    (u : Update) (t : Task) (i : ℕ) (tasks : List Task) (s : DownloadStatus) {r : DownloadStatus}
    → status_of i tasks ≡ some r
    → edge s r ≡ true
    → (t.id ≡ i → edge s u.status ≡ true)
    → (q : DownloadStatus) × (status_of i (update_task (updated u t) tasks) ≡ some q)
      × (edge s q ≡ true)
unfolding updated
updated-status u t i tasks s {r = r} now e k = elim (Bool-cases (t.id == i)) [
  | inl same ↦ (
    u.status,
    status_of-update i (updated u t) tasks ∙ rw (same, now) refl,
    k (ground (arith, same)),
  )
  | inr apart ↦ (r, status_of-update i (updated u t) tasks ∙ rw apart now, e)
]

pub status_of-absent :
    (i : ℕ) (tasks : List Task) → any (has_id i) tasks ≡ false → status_of i tasks ≡ none
unfolding status_of
status_of-absent i [] h = refl
status_of-absent i (t ∷ ts) h = ground (arith, status_of-absent i ts)

pub claim_body-ok :
    (task_id now : ℕ) (c : Claim) (db : Db) (i : ℕ) (db' : Db)
    → claim_body task_id now c db ≡ ok (i, db')
    → (i ≡ task_id)
      × (db'.tasks ≡ new_task task_id now c ∷ db.tasks)
      × (db'.events ≡ claim_event task_id now ∷ db.events)
      × (any (has_id task_id) db.tasks ≡ false)
unfolding claim_body insert_claim violation
claim_body-ok task_id now c db i db' h = (
  ground (arith, h),
  ground (arith, h),
  ground (arith, h),
  no_claim→new_id (new_task task_id now c) db.tasks (ground (arith, h)),
)

-- A claim leaves the status of every old task.
claimed-status :
    (t : Task) (i : ℕ) (tasks : List Task) {r : DownloadStatus}
    → any (has_id t.id) tasks ≡ false
    → status_of i tasks ≡ some r
    → status_of i (t ∷ tasks) ≡ some r
unfolding status_of
claimed-status t i tasks new h = elim (Bool-cases (t.id == i)) [
  | inl same ↦
      let e : t.id ≡ i = ground (arith, same) in
      absurd
        (cc (subst (λ (j : ℕ). status_of j tasks ≡ none) e (status_of-absent t.id tasks new), h))
  | inr apart ↦ rw apart h
]

module _ (before db : Db) (g : Good before db) where
  -- An event that the diagram allows, both for the row now and for the row at the beginning.
  pub append-Good :
      (task_id : ℕ) (u : Update) (t : Task)
      → first (has_id task_id) db.tasks ≡ some t
      → edge t.status u.status ≡ true
      → ((s : DownloadStatus) → status_of task_id before.tasks ≡ some s → edge s u.status ≡ true)
      → Good before (after (append_download_event task_id u) db)
  unfolding append_download_event
  append-Good task_id u t f step old =
      commit-after (Good before) (append_body task_id u db) db g λ _ db' done.
        let (tasks, events) = append_body-ok task_id u db t db' f done in
        let (new, grown) = g.extends.events in
        let same : t.id ≡ task_id = ground (arith, first-test (has_id task_id) db.tasks f) in
        record {
          inv = append_body-Inv task_id u db {t = t} {db' = db'} g.inv f step done;
          extends = record {
            statuses = λ i s h.
                let (r, now, e) = g.extends.statuses i s h in
                subst
                  (λ (ts : List Task).
                    (q : DownloadStatus) × (status_of i ts ≡ some q) × (edge s q ≡ true))
                  (sym tasks)
                  (updated-status u t i db.tasks s now e (λ here.
                    old s
                      (subst (λ (j : ℕ). status_of j before.tasks ≡ some s) (sym here ∙ same) h)));
            events = (
              next_event t u db.events ∷ new,
              events ∙ ap (λ (es : List Event). next_event t u db.events ∷ es) grown,
            );
          };
        }

  pub claim-Good :
      (task_id now : ℕ) (c : Claim) → Good before (after (claim_download task_id now c) db)
  unfolding claim_download
  claim-Good task_id now c =
      commit-after (Good before) (claim_body task_id now c db) db g λ i db' done.
        let (_, tasks, events, new_id) = claim_body-ok task_id now c db i db' done in
        let (new, grown) = g.extends.events in
        record {
          inv = claim_body-Inv task_id now c db {i = i} {db' = db'} g.inv done;
          extends = record {
            statuses = λ j s h.
                let (r, there, e) = g.extends.statuses j s h in
                (
                  r,
                  ap (status_of j) tasks
                      ∙ claimed-status (new_task task_id now c) j db.tasks new_id there,
                  e,
                );
            events = (
              claim_event task_id now ∷ new,
              events ∙ ap (λ (es : List Event). claim_event task_id now ∷ es) grown,
            );
          };
        }
