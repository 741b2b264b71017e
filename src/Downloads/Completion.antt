-- ===== src/Downloads/Completion.antt =====
-- src/tuntu/downloads/completion.py
pub mod Streak
pub mod Ownership
pub mod Refusals
use tuntu.Prelude.{
  ℕ, zero, suc, ◌+◌, Bool, true, false, not, ◌&&◌, ◌||◌, Option, none, some, List, [], ◌∷◌, ◌++◌,
  keep, any, is_empty, length, Text, slash, starts_with, drop, lstrip_slash, rstrip_slash,
  before_slash, ltb, leb, ◌==◌, nat_eq, list_eq, pair_eq, option_eq, if◌then◌else◌, lookup, sorted,
  insert_text, item_le, ◌≡◌, ◌↔◌, list_beq_iff,
}
use tuntu.Errors.{Result, ok, err, value_error, ◌>>=◌}
use tuntu.Downloaders.Snapshot.{FileFact, DirectorySnapshot, as_size_map}

-- The sorted items of the changed files.
abbrev pub Fingerprint : Type 0
Fingerprint = List (Text × ℕ)

pub record CompletionState : Type 0 where
  pub baseline : DirectorySnapshot
  pub destination_path : Text
  pub required_stable_observations : ℕ
  pub owned_paths : List Text
  pub last_fingerprint : Fingerprint
  pub stable_observations : ℕ

-- `CompletionState(baseline, destination_path=…, required_stable_observations=…)`
unfoldable pub completion_state : DirectorySnapshot → Text → ℕ → Result CompletionState
completion_state baseline destination_path required =
    if ltb required 2
    then err value_error
    else if not (starts_with destination_path (slash ∷ []))
    then err value_error
    else ok (record {
      baseline = baseline;
      destination_path = destination_path;
      required_stable_observations = required;
      owned_paths = [];
      last_fingerprint = [];
      stable_observations = 0;
    })

pub record CompletionObservation : Type 0 where
  pub state : CompletionState
  pub completed : Bool
  pub changed_file_count : ℕ
  pub changed_total_size : ℕ

-- The two branches on `destination.rstrip("/") or "/"`.
unfoldable pub owner_within : Text → Text → Result Text
owner_within [] path = ok (slash ∷ before_slash (lstrip_slash path))
owner_within (c ∷ stripped) path =
    let prefix = (c ∷ stripped) ++ slash ∷ [] in
    if starts_with path prefix
    then ok (prefix ++ before_slash (drop prefix path))
    else err value_error

unfoldable pub top_level_owner : Text → Text → Result Text
unfolding owner_within
top_level_owner destination path = owner_within (rstrip_slash destination) path

-- `path == owned or path.startswith(owned.rstrip("/") + "/")`
unfoldable pub is_owned_by : Text → Text → Bool
is_owned_by path owned = path == owned || starts_with path (rstrip_slash owned ++ slash ∷ [])

-- `size != baseline.get(path)`
abbrev pub differs : List (Text × ℕ) → Text × ℕ → Bool
differs baseline (path, size) = not (some size == lookup path baseline)

unfoldable pub owned_change : List Text → List (Text × ℕ) → Text × ℕ → Bool
owned_change owned_paths baseline item =
    any (is_owned_by item.0) owned_paths && differs baseline item

-- `changed`, on both branches.
unfoldable pub changed_files : CompletionState → DirectorySnapshot → List (Text × ℕ)
changed_files state current =
    let baseline = as_size_map state.baseline in
    let sizes = as_size_map current in
    if is_empty state.owned_paths
    then keep (differs baseline) sizes
    else keep (owned_change state.owned_paths baseline) sizes

-- `sorted({_top_level_owner(destination, path) for path in changed})`
unfoldable pub top_level_owners : Text → List (Text × ℕ) → Result (List Text)
top_level_owners destination [] = ok []
top_level_owners destination ((path, size) ∷ rest) = do
  owner ← top_level_owner destination path
  owners ← top_level_owners destination rest
  ok (insert_text owner owners)

unfoldable pub owners_after : CompletionState → List (Text × ℕ) → Result (List Text)
owners_after state changed =
    if is_empty state.owned_paths
    then top_level_owners state.destination_path changed
    else ok state.owned_paths

-- `sum(changed.values())`
abbrev pub sum_changed : List (Text × ℕ) → ℕ
sum_changed [] = 0
sum_changed ((path, size) ∷ rest) = size + sum_changed rest

-- `==` of two fingerprints
unfoldable pub same_print : Fingerprint → Fingerprint → Bool
same_print a b = a == b

pub same_print_iff : (a b : Fingerprint) → (same_print a b ≡ true) ↔ (a ≡ b)
unfolding same_print
same_print_iff a b = list_beq_iff a b

unfoldable pub fingerprint : CompletionState → DirectorySnapshot → Fingerprint
fingerprint state current = sorted item_le (changed_files state current)

-- No change, or changes of size 0: the count starts again.
abbrev unsettled : CompletionState → List Text → List (Text × ℕ) → CompletionObservation
unsettled state owned_paths changed = record {
  state = record state {
    owned_paths = owned_paths;
    last_fingerprint = [];
    stable_observations = 0;
  };
  completed = false;
  changed_file_count = length changed;
  changed_total_size = sum_changed changed;
}

abbrev settled : CompletionState → List Text → List (Text × ℕ) → Fingerprint → CompletionObservation
settled state owned_paths changed print =
    let stable =
      if same_print print state.last_fingerprint then state.stable_observations + 1 else 1 in
    record {
      state = record state {
        owned_paths = owned_paths;
        last_fingerprint = print;
        stable_observations = stable;
      };
      completed = leb state.required_stable_observations stable;
      changed_file_count = length changed;
      changed_total_size = sum_changed changed;
    }

unfoldable pub observe_completion :
    CompletionState → DirectorySnapshot → Result CompletionObservation
observe_completion state current = do
  let changed = changed_files state current
  owned_paths ← owners_after state changed
  let print = fingerprint state current
  ok (
      if is_empty print || leb (sum_changed changed) 0
      then unsettled state owned_paths changed
      else settled state owned_paths changed print)

same_files : List FileFact → List FileFact → Bool
same_files [] [] = true
same_files (f ∷ fs) (g ∷ gs) = f.path == g.path && (f.size == g.size && same_files fs gs)
same_files _ _ = false

-- `==` of two states, field by field.
unfoldable pub same_state : CompletionState → CompletionState → Bool
unfolding same_files
same_state s t =
    same_files s.baseline.files t.baseline.files
    && (s.destination_path == t.destination_path
        && (s.required_stable_observations == t.required_stable_observations
            && (s.owned_paths == t.owned_paths
                && (same_print s.last_fingerprint t.last_fingerprint
                    && s.stable_observations == t.stable_observations))))
