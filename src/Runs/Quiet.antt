-- ===== src/Runs/Quiet.antt =====
-- Runs that submit nothing, and what all runs do to the tables of downloads.
use tuntu.Prelude.{
  ◌≡◌, ◌⊎◌, inl, inr, refl, ◌∙◌, Bool, true, false, Option, none, some, List, [], ◌∷◌, Text, arith,
}
use tuntu.Errors.{ok, >>=-eq-ok}
use tuntu.Db.Tables.{Db}
use tuntu.Db.Invariant.{Inv}
use tuntu.Db.Later.{Later, Later-refl, Later-trans, Good→Later}
use tuntu.Downloads.State.Graph.{done}
use tuntu.Downloads.Service.Invariant.{submit_candidate-Good}
use tuntu.Runs.Settings.{
  Profile, Snapshot, Trigger, manual_number, snapshot_of, with_manual_keys, check_arguments,
  as_result,
}
use tuntu.Downloaders.Paths.{resolve_destination}
use tuntu.Runs.State.{Environment, on_core}
use tuntu.Runs.Service.{Ticket, Request, ServiceState, execute}
use tuntu.Runs.Kept.{SameDownloads}
use tuntu.Runs.Kept.Runs.{execute-Keeps}

same-Inv : (a b : Db) → b.tasks ≡ a.tasks → b.events ≡ a.events → Inv a → Inv b
same-Inv a b tasks events v = record {
  distinct = rw tasks v.distinct;
  logged = rw (tasks, events) v.logged;
  no_strays = rw (tasks, events) v.no_strays;
}

-- Tables with the same tasks and events.
same-Later : (a b : Db) → b.tasks ≡ a.tasks → b.events ≡ a.events → Inv a → Later a b
same-Later a b tasks events v = record {
  inv = same-Inv a b tasks events v;
  statuses = λ i s h. (s, rw tasks h, done);
  events = ([], events);
}

-- An execution, whatever it does and raises, keeps the tables of downloads in order: no two tasks
-- clash under the unique constraints, the events of each task are a path in the status diagram from
-- its claim to its status, every task that was there is still there with a status that it could get
-- to, and the events have only been added to.
pub execute-Later :
    (env : Environment) (ticket : Ticket) (request : Request) (s : ServiceState)
    → Inv s.db.store.core
    → Later s.db.store.core (execute env ticket request s).1.db.store.core
unfolding on_core
execute-Later env ticket request s v =
    execute-Keeps (λ t. Later s.db.store.core t.core)
      (λ t u same l. Later-trans l (same-Later t.core u.core same.0 same.1 l.inv)) env ticket
      request
      (λ _ _ _ _ _ _ _ _ urls client task_id now claimed_at submission t l. Later-trans l (
        Good→Later
          (submit_candidate-Good urls client task_id now claimed_at submission t.store.core l.inv)))
      s (Later-refl s.db.store.core v)

snapshot_of-dry :
    (root_path : Text) (profile : Profile) (configured : Snapshot)
    → snapshot_of root_path profile true ≡ ok configured
    → configured.effective_auto_submit ≡ false
unfolding snapshot_of
snapshot_of-dry root_path profile configured h =
    let (destination, _, made) =
      >>=-eq-ok (as_result (resolve_destination root_path profile.destination_subdir)) _ h in
    ground (arith, made)

with_manual_keys-dry :
    (trigger : Trigger) (auto_submit : Option Bool) (keys : Option (List Text))
    (configured snapshot : Snapshot)
    → configured.effective_auto_submit ≡ false
    → with_manual_keys trigger true auto_submit keys configured ≡ ok snapshot
    → snapshot.effective_auto_submit ≡ false
unfolding with_manual_keys
with_manual_keys-dry trigger auto_submit none configured snapshot off h = ground (arith, off, h)
with_manual_keys-dry trigger auto_submit (some []) configured snapshot off h = absurd (cc)
with_manual_keys-dry trigger auto_submit (some (k ∷ ks)) configured snapshot off h =
    ground (arith, h)

with_manual_keys-number :
    (force : Bool) (auto_submit : Option Bool) (keys : Option (List Text)) (x : Unit {0})
    (configured snapshot : Snapshot)
    → check_arguments manual_number keys auto_submit ≡ ok x
    → with_manual_keys manual_number force auto_submit keys configured ≡ ok snapshot
    → snapshot.effective_auto_submit ≡ false
unfolding with_manual_keys check_arguments
with_manual_keys-number force auto_submit none x configured snapshot checked h = absurd (cc)
with_manual_keys-number force auto_submit (some []) x configured snapshot checked h = absurd (cc)
with_manual_keys-number force auto_submit (some (k ∷ ks)) x configured snapshot checked h =
    ground (arith, h)

-- A dry run, or a run of numbers that a user gave: the snapshot has no automatic submission.
off :
    (root_path : Text) (request : Request) (x : Unit {0}) (profile : Profile)
    (configured snapshot : Snapshot)
    → (request.force_dry_run ≡ true) ⊎ (request.trigger ≡ manual_number)
    → check_arguments request.trigger request.manual_raw_keys request.auto_submit_override ≡ ok x
    → snapshot_of root_path profile request.force_dry_run ≡ ok configured
    → with_manual_keys request.trigger request.force_dry_run request.auto_submit_override
        request.manual_raw_keys configured
      ≡ ok snapshot
    → snapshot.effective_auto_submit ≡ false
off root_path request x profile configured snapshot (inl dry) checked made given =
    with_manual_keys-dry request.trigger request.auto_submit_override request.manual_raw_keys
      configured snapshot (snapshot_of-dry root_path profile configured (rw dry at made))
      (rw dry at given)
off root_path request x profile configured snapshot (inr number) checked made given =
    with_manual_keys-number request.force_dry_run request.auto_submit_override
      request.manual_raw_keys x configured snapshot (rw number at checked) (rw number at given)

-- A dry run, and a run of numbers that a user gave, leave the download tasks and their events as they
-- are, whatever the profile's settings say and whether the execution returns or raises.
pub execute-quiet :
    (env : Environment) (ticket : Ticket) (request : Request) (s : ServiceState)
    → (request.force_dry_run ≡ true) ⊎ (request.trigger ≡ manual_number)
    → SameDownloads s.db.store (execute env ticket request s).1.db.store
execute-quiet env ticket request s quiet =
    execute-Keeps (SameDownloads s.db.store) (λ t u same q. (same.0 ∙ q.0, same.1 ∙ q.1)) env ticket
      request
      (λ x profile configured snapshot checked made given on.
        absurd (
          cc
            (on, off env.root_path request x profile configured snapshot quiet checked made given)))
      s (refl, refl)
