-- ===== src/Db/Invariant/Claims.antt =====
-- A claim keeps the invariant.
use tuntu.Prelude.{
  ℕ, ◌≡◌, refl, true, false, Option, none, some, List, [], ◌∷◌, any, All, All-map, All-zip,
  any-false, ◌==◌, nat_eq, arith, beq_self, subst,
}
use tuntu.Errors.{ok}
use tuntu.Downloads.State.{submitting}
use tuntu.Db.Tables.{Task, Event, Db, same_destination, same_claim}
use tuntu.Db.Downloads.{
  Claim, has_id, claim_event, new_task, Violation, unique_row, unique_destination, foreign_key,
  violation, insert_claim, claim_body,
}
use tuntu.Db.Invariant.{NoClash, history, IsLog, Inv}

-- A new id has no events yet.
history_fresh :
    (i : ℕ) (tasks : List Task) (events : List Event)
    → any (has_id i) tasks ≡ false
    → All (λ (e : Event). any (has_id e.task_id) tasks ≡ true) events
    → history i events ≡ []
unfolding history
history_fresh i tasks [] h owned = refl
history_fresh i tasks (e ∷ es) h owned = ground (arith, history_fresh i tasks es h owned.1)

pub no_claim→new_id :
    (t : Task) (tasks : List Task)
    → any (same_claim t) tasks ≡ false
    → any (has_id t.id) tasks ≡ false
unfolding same_claim
no_claim→new_id t [] h = refl
no_claim→new_id t (u ∷ us) h = ground (arith, no_claim→new_id t us)

insert-distinct :
    (t : Task) (tasks : List Task)
    → any (same_claim t) tasks ≡ false
    → any (same_destination t) tasks ≡ false
    → All (NoClash t) tasks
insert-distinct t tasks c d =
    All-zip _ _ tasks (any-false (same_claim t) tasks c) (any-false (same_destination t) tasks d)

-- The logs of the other tasks do not see the new event.
others-logged :
    (e : Event) (tasks : List Task) (events : List Event)
    → any (has_id e.task_id) tasks ≡ false
    → All (λ (t : Task). IsLog t.status (history t.id events)) tasks
    → All (λ (t : Task). IsLog t.status (history t.id (e ∷ events))) tasks
unfolding history
others-logged e [] events h logged = tt
others-logged e (t ∷ ts) events h logged =
    let apart : (e.task_id == t.id) ≡ false = ground (arith) in
    (rw apart logged.0, others-logged e ts events (ground arith) logged.1)

-- The log of a new task is its claim.
claim-IsLog :
    (i now : ℕ) (events : List Event)
    → history i events ≡ []
    → IsLog submitting (history i (claim_event i now ∷ events))
unfolding history
claim-IsLog i now events h = rw (beq_self i, h) (refl, refl, refl)

widen_ids :
    (t : Task) (tasks : List Task) (events : List Event)
    → All (λ (e : Event). any (has_id e.task_id) tasks ≡ true) events
    → All (λ (e : Event). any (has_id e.task_id) (t ∷ tasks) ≡ true) events
widen_ids t tasks events h = All-map events (λ e k. ground (arith, k)) h

abbrev added : Task → ℕ → Db → Db
added t now db = record db { tasks = t ∷ db.tasks; events = claim_event t.id now ∷ db.events }

added-Inv :
    (task_id now : ℕ) (c : Claim) (db : Db)
    → Inv db
    → violation db (new_task task_id now c) ≡ none
    → Inv (added (new_task task_id now c) now db)
unfolding violation
added-Inv task_id now c db v ok_row =
    let t = new_task task_id now c in
    let no_claim : any (same_claim t) db.tasks ≡ false = ground (arith, ok_row) in
    let no_clash : any (same_destination t) db.tasks ≡ false = ground (arith, ok_row) in
    let new_id = no_claim→new_id t db.tasks no_claim in
    let empty = history_fresh task_id db.tasks db.events new_id v.no_strays in
    record {
      distinct = (insert-distinct t db.tasks no_claim no_clash, v.distinct);
      logged = (
        claim-IsLog task_id now db.events empty,
        others-logged (claim_event task_id now) db.tasks db.events new_id v.logged,
      );
      no_strays = (ground (arith, beq_self task_id), widen_ids t db.tasks db.events v.no_strays);
    }

insert_claim-Inv :
    (o : Option Violation) (task_id now : ℕ) (c : Claim) (db : Db) {i : ℕ} {db' : Db}
    → Inv db
    → violation db (new_task task_id now c) ≡ o
    → insert_claim o db (new_task task_id now c) (claim_event task_id now) ≡ ok (i, db')
    → Inv db'
unfolding insert_claim
insert_claim-Inv none task_id now c db v e h =
    subst Inv (ground arith) (added-Inv task_id now c db v e)
insert_claim-Inv (some unique_row) task_id now c db v e h = absurd (cc)
insert_claim-Inv (some unique_destination) task_id now c db v e h = absurd (cc)
insert_claim-Inv (some foreign_key) task_id now c db v e h = absurd (cc)

-- A claim that succeeds keeps the invariant.
pub claim_body-Inv :
    (task_id now : ℕ) (c : Claim) (db : Db) {i : ℕ} {db' : Db}
    → Inv db
    → claim_body task_id now c db ≡ ok (i, db')
    → Inv db'
unfolding claim_body
claim_body-Inv task_id now c db {i = i} {db' = db'} v h =
    insert_claim-Inv (violation db (new_task task_id now c)) task_id now c db {i = i} {db' = db'} v
      refl (ground (arith, h))
