-- ===== src/Db/Invariant/Logs.antt =====
-- An event that follows an edge of the diagram keeps the invariant.
use tuntu.Prelude.{
  ℕ, ◌+◌, ◌≡◌, refl, sym, ap, ◌∙◌, subst, true, false, some, List, [], ◌∷◌, any, first, first-All,
  first-test, All, All-map, All-zip, Pairwise, any-false, ltb, ◌==◌, nat_eq, string_eq, option_eq,
  list_eq, arith, Bool-cases, inl, inr, beq_comm, beq_self, if◌then◌else◌,
}
use tuntu.Errors.{ok}
use tuntu.Downloads.State.{DownloadStatus}
use tuntu.Downloads.State.Graph.{edge}
use tuntu.Db.Tables.{Task, Event, Db, same_destination, same_claim}
use tuntu.Db.Downloads.{
  Update, has_id, updated, update_task, others, max_sequence, append_to, append_body,
}
use tuntu.Db.Invariant.{NoClash, history, IsLog, Inv}

same_destination_comm : (t u : Task) → same_destination t u ≡ same_destination u t
unfolding same_destination
same_destination_comm t u =
    ground
      (arith, beq_comm t.client_key u.client_key, beq_comm t.destination_path u.destination_path)

-- An UPDATE of an absent row changes nothing.
update-absent :
    (t : Task) (us : List Task) → All (λ u. (u.id == t.id) ≡ false) us → update_task t us ≡ us
unfolding update_task
update-absent t [] h = refl
update-absent t (u ∷ us) h = rw h.0 (ap (λ (vs : List Task). u ∷ vs) (update-absent t us h.1))

others-absent : (i : ℕ) (us : List Task) → All (λ u. (u.id == i) ≡ false) us → others i us ≡ us
others-absent i [] h = refl
others-absent i (u ∷ us) h = rw h.0 (ap (λ (vs : List Task). u ∷ vs) (others-absent i us h.1))

-- What holds of the new row and of every other row holds after the UPDATE.
update-All :
    (P : Task → Type 0) (t : Task) (us : List Task)
    → P t
    → ((u : Task) → (u.id == t.id) ≡ false → P u → P u)
    → All P us
    → All P (update_task t us)
unfolding update_task
update-All P t [] h k a = tt
update-All P t (u ∷ us) h k a = elim (Bool-cases (u.id == t.id)) [
  | inl e ↦ rw e (h, update-All P t us h k a.1)
  | inr e ↦ rw e (a.0, update-All P t us h k a.1)
]

no_clash→other_id : (t u : Task) → NoClash t u → (u.id == t.id) ≡ false
unfolding same_claim
no_clash→other_id t u h = ground (arith, h, beq_comm t.id u.id)

module _ (u : Update) (t : Task) where
  -- The new row has the id and the claim columns of the old one.
  same_claim-updated : (x : Task) → same_claim x (updated u t) ≡ same_claim x t
  unfolding same_claim updated
  same_claim-updated x = refl

  updated-same_claim : (x : Task) → same_claim (updated u t) x ≡ same_claim t x
  unfolding same_claim updated
  updated-same_claim x = refl

  update_found :
      (xs : List Task)
      → any (same_destination (updated u t)) (others t.id xs) ≡ false
      → All (NoClash t) xs
      → Pairwise NoClash xs
      → Pairwise NoClash (updated u t ∷ update_task (updated u t) xs)
  unfolding updated
  update_found xs d n p =
      let absent = All-map xs (λ v k. no_clash→other_id t v k) n in
      let free =
        any-false (same_destination (updated u t)) xs (rw (others-absent t.id xs absent) at d) in
      let claimed = All-map xs (λ v k. updated-same_claim v ∙ k.0) n in
      rw (update-absent (updated u t) xs absent) (All-zip _ _ xs claimed free, p)

  update_missed :
      (x : Task) (xs : List Task)
      → same_destination (updated u t) x ≡ false
      → first (has_id t.id) xs ≡ some t
      → All (NoClash x) xs
      → All (NoClash x) (update_task (updated u t) xs)
  update_missed x xs d f n =
      update-All (NoClash x) (updated u t) xs
        (
          same_claim-updated x ∙ (first-All (has_id t.id) (NoClash x) xs n f).0,
          same_destination_comm x (updated u t) ∙ d,
        )
        (λ _ _ k. k) n

  update-distinct :
      (tasks : List Task)
      → first (has_id t.id) tasks ≡ some t
      → any (same_destination (updated u t)) (others t.id tasks) ≡ false
      → Pairwise NoClash tasks
      → Pairwise NoClash (update_task (updated u t) tasks)
  unfolding update_task updated
  update-distinct [] f d p = tt
  update-distinct (x ∷ xs) f d p = elim (Bool-cases (x.id == t.id)) [
    | inl e ↦ rw e (
        update_found xs (rw e at d)
          (subst (λ (y : Task). All (NoClash y) xs) (ground (arith, e, f)) p.0) p.1)
    | inr e ↦
        let clear : any (same_destination (updated u t)) (x ∷ others t.id xs) ≡ false = rw e at d in
        let there : first (has_id t.id) xs ≡ some t = rw e at f in
        rw e (
          update_missed x xs (ground (arith, clear)) there p.0,
          update-distinct xs there (ground (arith, clear)) p.1,
        )
  ]

-- The largest number in a log, and the number at its head.
top : List Event → ℕ
top [] = 0
top (e ∷ es) = let rest = top es in if ltb rest e.sequence then e.sequence else rest

max_sequence-history :
    (i : ℕ) (events : List Event) → max_sequence i events ≡ top (history i events)
unfolding max_sequence top history
max_sequence-history i [] = refl
max_sequence-history i (e ∷ es) = ground (arith, max_sequence-history i es)

top-IsLog :
    (s : DownloadStatus) (e : Event) (es : List Event)
    → IsLog s (e ∷ es)
    → top (e ∷ es) ≡ e.sequence
unfolding top
top-IsLog s e [] h = ground arith
top-IsLog s e (d ∷ es) h = ground (arith, top-IsLog d.status d es h.3)

IsLog-status : (s : DownloadStatus) (e : Event) (es : List Event) → IsLog s (e ∷ es) → s ≡ e.status
IsLog-status s e [] h = sym h.0
IsLog-status s e (d ∷ es) h = sym h.0

-- The next event continues the log.
IsLog-next :
    (s r : DownloadStatus) (e : Event) (log : List Event)
    → IsLog s log
    → edge s r ≡ true
    → e.status ≡ r
    → e.sequence ≡ top log + 1
    → IsLog r (e ∷ log)
IsLog-next s r e [] h step status sequence = absurd h
IsLog-next s r e (d ∷ log) h step status sequence =
    let now = IsLog-status s d log h in
    (
      status,
      sequence ∙ ap (λ (n : ℕ). n + 1) (top-IsLog s d log h),
      subst (λ (q : DownloadStatus). edge q r ≡ true) now step,
      subst (λ (q : DownloadStatus). IsLog q (d ∷ log)) now h,
    )

abbrev pub next_event : Task → Update → List Event → Event
next_event t u events = record {
  task_id = t.id;
  sequence = max_sequence t.id events + 1;
  status = u.status;
  source = u.source;
  evidence = u.evidence;
  occurred_at = u.occurred_at;
}

module _ (u : Update) (t : Task) (events : List Event) where
  abbrev LoggedAfter : Task → Type 0
  LoggedAfter x = IsLog x.status (history x.id (next_event t u events ∷ events))

  updated-logged :
      IsLog t.status (history t.id events)
      → edge t.status u.status ≡ true
      → LoggedAfter (updated u t)
  unfolding updated history
  updated-logged h step = rw (beq_self t.id) (
      IsLog-next t.status u.status (next_event t u events) (history t.id events) h step refl
        (ap (λ (n : ℕ). n + 1) (max_sequence-history t.id events)))

  other-logged :
      (x : Task) → (x.id == t.id) ≡ false → IsLog x.status (history x.id events) → LoggedAfter x
  unfolding history
  other-logged x apart h = rw (beq_comm t.id x.id, apart) h

  update-logged :
      (tasks : List Task)
      → IsLog t.status (history t.id events)
      → edge t.status u.status ≡ true
      → All (λ (x : Task). IsLog x.status (history x.id events)) tasks
      → All LoggedAfter (update_task (updated u t) tasks)
  unfolding update_task updated
  update-logged [] h step a = tt
  update-logged (x ∷ xs) h step a = elim (Bool-cases (x.id == t.id)) [
    | inl e ↦ rw e (updated-logged h step, update-logged xs h step a.1)
    | inr e ↦ rw e (other-logged x e a.0, update-logged xs h step a.1)
  ]

any-update :
    (i : ℕ) (u : Update) (t : Task) (tasks : List Task)
    → any (has_id i) (update_task (updated u t) tasks) ≡ any (has_id i) tasks
unfolding update_task updated
any-update i u t [] = refl
any-update i u t (x ∷ xs) = ground (arith, any-update i u t xs)

first→any :
    (i : ℕ) (tasks : List Task) {t : Task}
    → first (has_id i) tasks ≡ some t
    → any (has_id i) tasks ≡ true
first→any i [] h = absurd (cc)
first→any i (x ∷ xs) {t = t} h = ground (arith, first→any i xs {t = t})

appended-Inv :
    (u : Update) (t : Task) (db : Db)
    → Inv db
    → first (has_id t.id) db.tasks ≡ some t
    → any (same_destination (updated u t)) (others t.id db.tasks) ≡ false
    → edge t.status u.status ≡ true
    → Inv (record db {
      tasks = update_task (updated u t) db.tasks;
      events = next_event t u db.events ∷ db.events;
    })
appended-Inv u t db v f free step =
    let log =
      first-All (has_id t.id) (λ (x : Task). IsLog x.status (history x.id db.events)) db.tasks
        v.logged f in
    record {
      distinct = update-distinct u t db.tasks f free v.distinct;
      logged = update-logged u t db.events db.tasks log step v.logged;
      no_strays = (
        any-update t.id u t db.tasks ∙ first→any t.id db.tasks f,
        All-map db.events (λ e k. any-update e.task_id u t db.tasks ∙ k) v.no_strays,
      );
    }

-- An event that follows an edge of the diagram keeps the invariant.
pub append_body-Inv :
    (task_id : ℕ) (u : Update) (db : Db) {t : Task} {db' : Db}
    → Inv db
    → first (has_id task_id) db.tasks ≡ some t
    → edge t.status u.status ≡ true
    → append_body task_id u db ≡ ok (tt, db')
    → Inv db'
unfolding append_body append_to
append_body-Inv task_id u db {t = t} {db' = db'} v f step h =
    let same : task_id ≡ t.id = ground (arith, first-test (has_id task_id) db.tasks f) in
    let found : first (has_id t.id) db.tasks ≡ some t =
      subst (λ (i : ℕ). first (has_id i) db.tasks ≡ some t) same f in
    let done : append_to (some t) u db ≡ ok (tt, db') = rw f at h in
    elim (Bool-cases (any (same_destination (updated u t)) (others t.id db.tasks))) [
      | inl clash ↦ absurd (ground (arith, clash, done))
      | inr free ↦ subst Inv (ground (arith, free, done)) (appended-Inv u t db v found free step)
    ]
