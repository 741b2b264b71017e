-- ===== src/Db/Later.antt =====
-- How the download tables may change over any number of sessions.
use tuntu.Prelude.{ℕ, ◌≡◌, refl, sym, ap, ◌∙◌, some, List, [], ◌++◌, append_assoc}
use tuntu.Downloads.State.{DownloadStatus}
use tuntu.Downloads.State.Graph.{◌⟶*◌, done, onward, edge→⟶, ⟶*_trans}
use tuntu.Db.Tables.{Db, Event, Audit}
use tuntu.Db.Invariant.{Inv}
use tuntu.Db.Progress.{status_of, Good, audit-Good, Good-refl}

-- The tables are in order, every task is still there with a status that it could get to, and the
-- event table has only grown.
pub record Later (before later : Db) : Type 0 where
  pub inv : Inv later
  pub statuses :
      (i : ℕ) (s : DownloadStatus)
      → status_of i before.tasks ≡ some s
      → (r : DownloadStatus) × (status_of i later.tasks ≡ some r) × (s ⟶* r)
  pub events : (new : List Event) × (later.events ≡ new ++ before.events)

pub Later-refl : (db : Db) → Inv db → Later db db
Later-refl db v = record { inv = v; statuses = λ i s h. (s, h, done); events = ([], refl) }

pub Good→Later : {before later : Db} → Good before later → Later before later
Good→Later g = record {
  inv = g.inv;
  statuses =
      λ i s h. let (r, now, e) = g.extends.statuses i s h in (r, now, onward (edge→⟶ s r e) done);
  events = g.extends.events;
}

pub Later-trans : {a b c : Db} → Later a b → Later b c → Later a c
Later-trans {a = a} l m =
    let (new, grown) = l.events in
    let (more, then_grown) = m.events in
    record {
      inv = m.inv;
      statuses = λ i s h.
          let (t, mid, path) = l.statuses i s h in
          let (r, last, rest) = m.statuses i t mid in (r, last, ⟶*_trans path rest);
      events = (
        more ++ new,
        then_grown
            ∙ ap (λ (es : List Event). more ++ es) grown
            ∙ sym (append_assoc more new a.events),
      );
    }

pub Later-audits :
    {before db : Db} (audits : List Audit)
    → Later before db
    → Later before (record db { audits = audits })
Later-audits {db = db} audits l =
    Later-trans l (Good→Later (audit-Good db db audits (Good-refl db l.inv)))
