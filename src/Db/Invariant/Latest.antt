-- ===== src/Db/Invariant/Latest.antt =====
-- `get_latest_download_event` on tables that are in order.
use tuntu.Prelude.{
  ℕ, ◌≡◌, refl, ap, ◌∙◌, subst, true, Option, none, some, List, [], ◌∷◌, first, first-All,
  first-test, length, ltb, ◌==◌, nat_eq, arith, Bool-cases, inl, inr,
}
use tuntu.Downloads.State.{DownloadStatus}
use tuntu.Db.Tables.{Task, Event, Db}
use tuntu.Db.Downloads.{has_id, newest, get_latest_download_event}
use tuntu.Db.Invariant.{history, IsLog, Inv}

abbrev latest_of : List Event → Option Event
latest_of [] = none
latest_of (e ∷ es) = some (newest e (latest_of es))

latest-history :
    (i : ℕ) (es : List Event) → get_latest_download_event i es ≡ latest_of (history i es)
unfolding get_latest_download_event history
latest-history i [] = refl
latest-history i (e ∷ es) = elim (Bool-cases (e.task_id == i)) [
  | inl same ↦ rw same (ap (λ (o : Option Event). some (newest e o)) (latest-history i es))
  | inr apart ↦ rw apart (latest-history i es)
]

IsLog-length :
    (s : DownloadStatus) (e : Event) (es : List Event)
    → IsLog s (e ∷ es)
    → e.sequence ≡ length (e ∷ es)
IsLog-length s e [] h = ground (arith, h)
IsLog-length s e (d ∷ rest) h = omega (arith, h.1, IsLog-length d.status d rest h.3)

-- The newest event of a log stands first and has the number of events as its sequence number.
IsLog-latest :
    (s : DownloadStatus) (e : Event) (es : List Event)
    → IsLog s (e ∷ es)
    → latest_of (e ∷ es) ≡ some e
IsLog-latest s e [] h = refl
IsLog-latest s e (d ∷ rest) h =
    let there = IsLog-latest d.status d rest h.3 in
    let above : ltb d.sequence e.sequence ≡ true = ground (arith, h.1) in
    ap (λ (o : Option Event). some (newest e o)) there ∙ rw above refl

log-latest :
    (s : DownloadStatus) (log : List Event)
    → IsLog s log
    → (e : Event) × (latest_of log ≡ some e) × (e.status ≡ s) × (e.sequence ≡ length log)
log-latest s [] h = absurd h
log-latest s (e ∷ []) h = (e, refl, h.0, h.1)
log-latest s (e ∷ (d ∷ rest)) h =
    (e, IsLog-latest s e (d ∷ rest) h, h.0, IsLog-length s e (d ∷ rest) h)

-- On tables that are in order, every task has a latest event, whose status is that of the task and
-- whose sequence number is the number of its events.
pub latest_event :
    (i : ℕ) (t : Task) (db : Db)
    → Inv db
    → first (has_id i) db.tasks ≡ some t
    → (e : Event) × (get_latest_download_event i db.events ≡ some e)
      × (e.status ≡ t.status)
      × (e.sequence ≡ length (history i db.events))
latest_event i t db v f =
    let same : t.id ≡ i = ground (arith, first-test (has_id i) db.tasks f) in
    let log =
      subst (λ (j : ℕ). IsLog t.status (history j db.events)) same
        (first-All (has_id i) (λ (x : Task). IsLog x.status (history x.id db.events)) db.tasks
          v.logged f) in
    let (e, there, k, n) = log-latest t.status (history i db.events) log in
    (e, latest-history i db.events ∙ there, k, n)
