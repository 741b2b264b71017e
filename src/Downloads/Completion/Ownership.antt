-- ===== src/Downloads/Completion/Ownership.antt =====
-- Which files an observation counts: changed since the baseline, and under the task's own paths.
use tuntu.Prelude.{
  ℕ, ◌≡◌, ◌≢◌, refl, ap, ◌∙◌, Bool, true, ◌||◌, some, List, [], ◌∷◌, ◌++◌, keep, any, is_empty, All,
  All-map, All-keep, All-zip, Text, slash, starts_with, drop, lstrip_slash, rstrip_slash,
  before_slash, ◌==◌, nat_eq, list_eq, option_eq, ◌⊎◌, list_beq_iff, option_beq_iff, lookup, sorted,
  sorted-All, insert_text, item_le, arith, append_assoc, Bool-cases, inl, inr, sym, subst,
}
use tuntu.Errors.{ok, >>=-eq-ok}
use tuntu.Downloaders.Snapshot.{DirectorySnapshot, as_size_map, as_size_map-All}
use tuntu.Downloads.Completion.{
  CompletionState, CompletionObservation, owner_within, top_level_owner, is_owned_by, differs,
  owned_change, changed_files, top_level_owners, owners_after, fingerprint, observe_completion,
}

-- Exactly one leading slash, as in every path that `_normalize_absolute_path` returns.
abbrev pub IsAbsolute : Text → Type 0
IsAbsolute path = path ≡ slash ∷ lstrip_slash path

starts_with-append : (p s : Text) → starts_with (p ++ s) p ≡ true
starts_with-append [] s = refl
starts_with-append (c ∷ p) s = ground (arith, starts_with-append p s)

append-drop : (p s : Text) → starts_with s p ≡ true → s ≡ p ++ drop p s
append-drop [] s h = refl
append-drop (c ∷ p) [] h = cc
append-drop (c ∷ p) (d ∷ s) h = ground (arith, append-drop p s)

-- A path below `s` starts with `s.rstrip("/") + "/"`.
below_rstrip : (s r : Text) → starts_with (s ++ slash ∷ r) (rstrip_slash s ++ slash ∷ []) ≡ true
below_rstrip [] r = refl
below_rstrip (c ∷ s) r = ground (arith, below_rstrip s r)

before_slash-cases :
    (s : Text) → (s ≡ before_slash s) ⊎ ((r : Text) × (s ≡ before_slash s ++ slash ∷ r))
before_slash-cases [] = inl refl
before_slash-cases (c ∷ s) = elim (Bool-cases (c == slash)) [
  | inl here ↦ inr (s, ground (arith, here))
  | inr later ↦ elim (before_slash-cases s) [
    | inl all ↦ inl (ground (arith, later))
    | inr (r, e) ↦ inr (r, ground (arith, later, e))
  ]
]

-- What lies at or below an owner is owned.
owned_below : (owner r : Text) → is_owned_by (owner ++ slash ∷ r) owner ≡ true
unfolding is_owned_by
owned_below owner r = ground (arith, below_rstrip owner r)

owned_self : (owner : Text) → is_owned_by owner owner ≡ true
unfolding is_owned_by
owned_self owner = ground (arith, list_beq_iff owner owner)

owned_first : (p s : Text) → is_owned_by (p ++ s) (p ++ before_slash s) ≡ true
owned_first p s = elim (before_slash-cases s) [
  | inl e ↦
      subst (λ (t : Text). is_owned_by (p ++ t) (p ++ before_slash s) ≡ true) (sym e)
        (owned_self (p ++ before_slash s))
  | inr (r, e) ↦
      subst (λ (t : Text). is_owned_by t (p ++ before_slash s) ≡ true)
        (append_assoc p (before_slash s) (slash ∷ r) ∙ ap (λ (t : Text). p ++ t) (sym e))
        (owned_below (p ++ before_slash s) r)
]

owner_within_owns :
    (stripped path : Text) {owner : Text}
    → IsAbsolute path
    → owner_within stripped path ≡ ok owner
    → is_owned_by path owner ≡ true
unfolding owner_within
owner_within_owns [] path {owner = owner} a h =
    let below : is_owned_by path (slash ∷ before_slash (lstrip_slash path)) ≡ true =
      subst (λ (t : Text). is_owned_by t (slash ∷ before_slash (lstrip_slash path)) ≡ true) (sym a)
        (owned_first (slash ∷ []) (lstrip_slash path)) in
    cc (h, below)
owner_within_owns (c ∷ stripped) path {owner = owner} a h = ground (
  arith,
  append-drop ((c ∷ stripped) ++ slash ∷ []) path,
  owned_first ((c ∷ stripped) ++ slash ∷ []) (drop ((c ∷ stripped) ++ slash ∷ []) path),
)

any-insert_text :
    (p : Text → Bool) (t : Text) (us : List Text) → any p (insert_text t us) ≡ (p t || any p us)
any-insert_text p t [] = refl
any-insert_text p t (u ∷ us) = ground (arith, list_beq_iff t u, any-insert_text p t us)

-- A new owner keeps what is owned.
widen :
    (t : Text) (us : List Text) (item : Text × ℕ)
    → any (is_owned_by item.0) us ≡ true
    → any (is_owned_by item.0) (insert_text t us) ≡ true
widen t us item h = ground (arith, any-insert_text (is_owned_by item.0) t us)

top_level_owners_own :
    (destination : Text) (changed : List (Text × ℕ)) {owners : List Text}
    → All (λ item. IsAbsolute item.0) changed
    → top_level_owners destination changed ≡ ok owners
    → All (λ item. any (is_owned_by item.0) owners ≡ true) changed
unfolding top_level_owners top_level_owner
top_level_owners_own destination [] a h = tt
top_level_owners_own destination ((path, size) ∷ rest) {owners = final} a h =
    let (owner, first, more) = >>=-eq-ok (owner_within (rstrip_slash destination) path) _ h in
    let (owners, others, last) = >>=-eq-ok (top_level_owners destination rest) _ more in
    let kept : All (λ item. any (is_owned_by item.0) (insert_text owner owners) ≡ true) rest =
      All-map rest (widen owner owners) (top_level_owners_own destination rest a.1 others) in
    let here : any (is_owned_by path) (insert_text owner owners) ≡ true = ground (
      arith,
      any-insert_text (is_owned_by path) owner owners,
      owner_within_owns (rstrip_slash destination) path a.0 first,
    ) in
    subst
      (λ (us : List Text). All (λ item. any (is_owned_by item.0) us ≡ true) ((path, size) ∷ rest))
      (ground (arith, last)) (here, kept)

-- A file that may count: the task owns its path, and it differs from what the baseline has there.
abbrev pub IsTracked : DirectorySnapshot → List Text → Text × ℕ → Type 0
IsTracked baseline owned item =
    (any (is_owned_by item.0) owned ≡ true) × (lookup item.0 (as_size_map baseline) ≢ some item.1)

differs→ne :
    (baseline : List (Text × ℕ)) (item : Text × ℕ)
    → differs baseline item ≡ true
    → lookup item.0 baseline ≢ some item.1
differs→ne baseline (path, size) h e =
    ground (arith, option_beq_iff (some size) (lookup path baseline))

IsTracked-fresh :
    (destination : Text) (baseline : DirectorySnapshot) (sizes : List (Text × ℕ))
    {owners : List Text}
    → All (λ item. IsAbsolute item.0) sizes
    → top_level_owners destination (keep (differs (as_size_map baseline)) sizes) ≡ ok owners
    → All (IsTracked baseline owners) (keep (differs (as_size_map baseline)) sizes)
IsTracked-fresh destination baseline sizes a h =
    let changed = keep (differs (as_size_map baseline)) sizes in
    let kept = All-keep (λ item. IsAbsolute item.0) (differs (as_size_map baseline)) sizes a in
    let owned = top_level_owners_own destination changed (All-map changed (λ x k. k.0) kept) h in
    All-map changed (λ x k. (k.0, differs→ne (as_size_map baseline) x k.1.1))
      (All-zip _ _ changed owned kept)

IsTracked-owned :
    (owned : List Text) (baseline : DirectorySnapshot) (sizes : List (Text × ℕ))
    → All (λ item. IsAbsolute item.0) sizes
    → All (IsTracked baseline owned) (keep (owned_change owned (as_size_map baseline)) sizes)
unfolding owned_change
IsTracked-owned owned baseline sizes a =
    let test = owned_change owned (as_size_map baseline) in
    All-map (keep test sizes)
      (λ x k. (ground (arith, k.1), differs→ne (as_size_map baseline) x (ground (arith, k.1))))
      (All-keep (λ item. IsAbsolute item.0) test sizes a)

IsTracked-change :
    (state : CompletionState) (s : DirectorySnapshot) {owners : List Text}
    → All (λ f. IsAbsolute f.path) s.files
    → owners_after state (changed_files state s) ≡ ok owners
    → All (IsTracked state.baseline owners) (changed_files state s)
unfolding changed_files owners_after
IsTracked-change state s {owners = owners} a h =
    let sizes = as_size_map-All IsAbsolute s a in
    elim (Bool-cases (is_empty state.owned_paths)) [
      | inl fresh ↦ rw fresh (
          IsTracked-fresh state.destination_path state.baseline (as_size_map s) sizes
            (rw fresh at h))
      | inr owned ↦ rw owned (
          subst
            (λ (us : List Text).
              All (IsTracked state.baseline us) (
                keep (owned_change state.owned_paths (as_size_map state.baseline)) (as_size_map s)))
            (ground (arith, h))
            (IsTracked-owned state.owned_paths state.baseline (as_size_map s) sizes))
    ]

owners_kept :
    (state : CompletionState) (changed : List (Text × ℕ)) {owners after : List Text}
    → owners_after state changed ≡ ok owners
    → after ≡ owners
    → (is_empty state.owned_paths ≡ true) ⊎ (after ≡ state.owned_paths)
unfolding owners_after
owners_kept state changed h e = elim (Bool-cases (is_empty state.owned_paths)) [
  | inl none_yet ↦ inl none_yet
  | inr some_paths ↦ inr (ground (arith, h, some_paths, e))
]

-- Whatever an observation counts (the items of its fingerprint) is tracked: its path is under an
-- owned path of the state that is returned, and its size is not the one that the baseline has for
-- it. Owned paths, once there are some, stay as they are, and so do the baseline and the
-- destination. The observed paths begin with exactly one slash.
pub observe-IsTracked :
    (state : CompletionState) (s : DirectorySnapshot) (o : CompletionObservation)
    → All (λ f. IsAbsolute f.path) s.files
    → observe_completion state s ≡ ok o
    → All (IsTracked state.baseline o.state.owned_paths) (fingerprint state s)
      × ((is_empty state.owned_paths ≡ true) ⊎ (o.state.owned_paths ≡ state.owned_paths))
      × (o.state.baseline ≡ state.baseline)
      × (o.state.destination_path ≡ state.destination_path)
unfolding observe_completion fingerprint
observe-IsTracked state s o a h =
    let (owners, first, last) = >>=-eq-ok (owners_after state (changed_files state s)) _ h in
    (
      subst
          (λ (us : List Text).
            All (IsTracked state.baseline us) (sorted item_le (changed_files state s)))
          (ground arith)
          (sorted-All (IsTracked state.baseline owners) item_le (changed_files state s)
            (IsTracked-change state s a first)),
      owners_kept state (changed_files state s) first (ground (arith, last)),
      ground arith,
      ground arith,
    )
