-- ===== src/Db/Invariant.antt =====
-- What holds of the download tables between two sessions.
pub mod Claims
pub mod Logs
pub mod Latest
use tuntu.Prelude.{
  ℕ, ◌+◌, ◌≡◌, Bool, true, false, List, [], ◌∷◌, keep, any, All, Pairwise, ◌==◌, nat_eq,
}
use tuntu.Downloads.State.{DownloadStatus, submitting}
use tuntu.Downloads.State.Graph.{edge}
use tuntu.Db.Tables.{Task, Event, Db, same_destination, same_claim}
use tuntu.Db.Downloads.{has_id}

-- Two rows that no unique constraint or index of the table forbids.
abbrev pub NoClash : Task → Task → Type 0
NoClash t u = (same_claim t u ≡ false) × (same_destination t u ≡ false)

-- The events of a task, the newest first.
unfoldable pub history : ℕ → List Event → List Event
history i events = keep (λ (e : Event). e.task_id == i) events

-- A log that ends in this status: it begins with the claim, the sequence numbers are 1, 2, 3, …,
-- and each status leads to the next in the transition diagram.
abbrev pub IsLog : DownloadStatus → List Event → Type 0
IsLog s [] = ⊥
IsLog s (e ∷ []) = (e.status ≡ s) × (e.sequence ≡ 1) × (s ≡ submitting)
IsLog s (e ∷ (d ∷ rest)) =
    (e.status ≡ s)
    × (e.sequence ≡ d.sequence + 1)
    × (edge d.status s ≡ true)
    × IsLog d.status (d ∷ rest)

pub record Inv (db : Db) : Type 0 where
  pub distinct : Pairwise NoClash db.tasks
  pub logged : All (λ t. IsLog t.status (history t.id db.events)) db.tasks
  pub no_strays : All (λ (e : Event). any (has_id e.task_id) db.tasks ≡ true) db.events
