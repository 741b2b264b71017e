-- ===== src/Downloaders/CloudDrive/Tree/Bounds.antt =====
-- What a snapshot may hold.
use tuntu.Prelude.{
  ℕ, zero, suc, ◌+◌, ◌≤◌, ◌<◌, ◌≡◌, ◌≢◌, subst, inl, inr, Bool, true, ◌||◌, Option, none, some,
  List, [], ◌∷◌, length, length-append, length-sorted, sorted-All, All, All-append, contains, Text,
  leb, ltb, nat_eq, list_eq, arith, Bool-cases,
}
use tuntu.Downloaders.Client.{
  ClientError, Reply, answers, raises, answers_injective, raises-ne-answers, Reply-cases,
}
use tuntu.Downloaders.Snapshot.{FileFact, DirectorySnapshot, directory_snapshot, path_le}
use tuntu.Downloaders.Paths.{normalize_absolute_path}
use tuntu.Downloaders.CloudDrive.{
  Link, Stub, Texts, Config, Entry, metadata, is_listed_in, is_folder, is_file_type,
}
use tuntu.Downloaders.CloudDrive.Tree.{
  Walk, add_entry, placed, scan_entry, scan_listing, walk, walk_fuel, snapshot_of, walk_from,
  snapshot,
}
use tuntu.Downloaders.CloudDrive.Tree.Ends.{scan_listing-Keeps}

module _ (config : Config) (destination : Text) where
  abbrev pub IsInside : FileFact → Type 0
  IsInside f = is_listed_in destination f.path ≡ true

  -- No file more than the limit, and none outside the folder.
  abbrev pub IsBounded : List FileFact → Type 0
  IsBounded files = (length files ≤ config.max_tree_entries) × All IsInside files

  add_entry-IsBounded :
      (depth : ℕ) (entry : Entry) (path : Text) (w : Walk)
      → length w.files + length w.pending < config.max_tree_entries
      → is_listed_in destination path ≡ true
      → IsBounded w.files
      → IsBounded (add_entry depth entry path w).files
  add_entry-IsBounded depth entry path w room inside b = elim (Bool-cases (is_folder entry)) [
    | inl folder ↦ rw folder b
    | inr plain ↦ elim (Bool-cases (is_file_type entry.file_type || entry.is_cloud_file)) [
      | inl file ↦
          rw (plain, file)
            (rw length-append (omega arith), All-append IsInside w.files _ b.1 (inside, tt))
      | inr neither ↦ rw (plain, neither) b
    ]
  ]

  scan_entry-IsBounded :
      (depth : ℕ) (entry : Entry) (w w' : Walk)
      → scan_entry config destination depth entry w ≡ answers w'
      → IsBounded w.files
      → IsBounded w'.files
  unfolding scan_entry
  scan_entry-IsBounded depth entry w w' h b =
      elim (Bool-cases (leb config.max_tree_entries (length w.files + length w.pending))) [
        | inl full ↦ absurd (raises-ne-answers _ w' (rw full at h))
        | inr free ↦
            by_path (normalize_absolute_path entry.full_path_name) (rw free at h)
              (ground (arith, free))
      ]
    where
      by_path :
          (r : Reply Text)
          → placed config destination depth entry w r ≡ answers w'
          → length w.files + length w.pending < config.max_tree_entries
          → IsBounded w'.files
      by_path (raises e) h k = absurd (raises-ne-answers e w' h)
      by_path (answers path) h k = elim (Bool-cases (is_listed_in destination path)) [
        | inl inside ↦
            subst (λ (v : Walk). IsBounded v.files)
              (answers_injective (add_entry depth entry path w) w' (rw inside at h))
              (add_entry-IsBounded depth entry path w k inside b)
        | inr outside ↦ absurd (raises-ne-answers _ w' (rw outside at h))
      ]

-- What a walk leaves, if it answers.
abbrev Leaves : {W : Type 0} → Config → Text → Option (Reply (List FileFact) × W) → Type 0
Leaves config destination none = Unit {0}
Leaves config destination (some (raises e, world)) = Unit {0}
Leaves config destination (some (answers files, world)) = IsBounded config destination files

module _ {W : Type 0} (texts : Texts) (stub : Stub W) (config : Config) (destination token : Text)
    (force_refresh : Bool) where
  walk-IsBounded :
      (fuel : ℕ) (visited : List Text) (files : List FileFact) (pending : List (Text × ℕ))
      (world : W)
      → IsBounded config destination files
      → Leaves config destination
          (walk texts stub config destination token force_refresh fuel visited files pending world)
  unfolding walk
  walk-IsBounded zero visited files pending world b = tt
  walk-IsBounded (suc fuel) visited files [] world b = b
  walk-IsBounded (suc fuel) visited files ((path, depth) ∷ pending) world b =
      elim (Bool-cases (contains path visited)) [
        | inl seen ↦ rw seen (walk-IsBounded fuel visited files pending world b)
        | inr new ↦ elim (Bool-cases (ltb config.max_tree_depth depth)) [
          | inl deep ↦ rw (new, deep) tt
          | inr shallow ↦
              let (listing, world') = stub.get_sub_files token path force_refresh world in
              elim (Reply-cases (
                scan_listing texts config destination depth listing
                  (record { files = files; pending = pending }))) [
                    | inl (e, failed) ↦ rw (new, shallow, failed) tt
                    | inr (w, scanned) ↦
                        rw (new, shallow, scanned)
                          (walk-IsBounded fuel (path ∷ visited) w.files w.pending world' (
                            scan_listing-Keeps config texts
                              (λ v. IsBounded config destination v.files) destination depth listing
                              (record { files = files; pending = pending }) w
                              (λ entry u v. scan_entry-IsBounded config destination depth entry u v)
                              scanned b))
                  ]
        ]
      ]

directory_snapshot-IsBounded :
    (config : Config) (destination : Text) (files : List FileFact)
    → IsBounded config destination files
    → IsBounded config destination (directory_snapshot files).files
unfolding directory_snapshot
directory_snapshot-IsBounded config destination files (few, inside) = (
  omega (arith, few, length-sorted path_le files),
  sorted-All (IsInside config destination) path_le files inside,
)

snapshot_of-IsBounded :
    {W : Type 0} (config : Config) (destination : Text) (o : Option (Reply (List FileFact) × W))
    (token : Option Text) {d : DirectorySnapshot} {s' : Link W}
    → Leaves config destination o
    → snapshot_of o token ≡ some (answers d, s')
    → IsBounded config destination d.files
snapshot_of-IsBounded config destination none token l h = absurd (cc)
snapshot_of-IsBounded config destination (some (raises e, world)) token l h = absurd (cc)
snapshot_of-IsBounded config destination (some (answers files, world)) token {d = d} l h =
    let same : directory_snapshot files ≡ d = cc in
    subst (λ (e : DirectorySnapshot). IsBounded config destination e.files) same
      (directory_snapshot-IsBounded config destination files l)

no_answer :
    {W : Type 0} (e : ClientError) (s : Link W) (d : DirectorySnapshot) (s' : Link W)
    → ◌≢◌ {A = Option (Reply DirectorySnapshot × Link W)}
        (some (raises e, s))
        (some (answers d, s'))
no_answer e s d s' h = cc

module _ {W : Type 0} (texts : Texts) (stub : Stub W) (config : Config) where
  walk_from-IsBounded :
      (destination : Text) (force_refresh : Bool) (m : Reply Text × Link W) {d : DirectorySnapshot}
      {s' : Link W}
      → walk_from texts stub config destination force_refresh m ≡ some (answers d, s')
      → IsBounded config destination d.files
  walk_from-IsBounded destination force_refresh (raises e, s) h = absurd (cc)
  walk_from-IsBounded destination force_refresh (answers token, s) h =
      snapshot_of-IsBounded config destination _ s.password_token
        (walk-IsBounded texts stub config destination token force_refresh (walk_fuel config) [] []
          ((destination, 0) ∷ []) s.world (omega arith, tt))
        h

  -- A snapshot that is returned holds no more files than the limit, and each lies in the folder.
  pub snapshot-IsBounded :
      (path : Text) (force_refresh : Bool) (s : Link W) {d : DirectorySnapshot} {s' : Link W}
      → snapshot texts stub config path force_refresh s ≡ some (answers d, s')
      → (destination : Text) × (normalize_absolute_path path ≡ answers destination)
        × IsBounded config destination d.files
  unfolding snapshot
  snapshot-IsBounded path force_refresh s {d = d} {s' = s'} h =
      elim (Reply-cases (normalize_absolute_path path)) [
        | inl (e, bad) ↦ absurd (no_answer e s d s' (rw bad at h))
        | inr (destination, good) ↦ (
          destination,
          good,
          walk_from-IsBounded destination force_refresh (metadata texts stub config s)
              (rw good at h),
        )
      ]
