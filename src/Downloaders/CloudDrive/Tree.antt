-- ===== src/Downloaders/CloudDrive/Tree.antt =====
-- src/tuntu/downloaders/clouddrive.py: `CloudDriveClient.snapshot`, the walk through a folder.
pub mod Ends
pub mod Bounds
use tuntu.Prelude.{
  ℕ, zero, suc, ◌+◌, ◌*◌, Bool, true, false, not, ◌&&◌, ◌||◌, Option, none, some, List, [], ◌∷◌,
  ◌++◌, any, contains, Text, length, leb, ltb, ◌==◌, nat_eq, list_eq, if◌then◌else◌,
}
use tuntu.Downloaders.Client.{Reply, answers, raises, other, ◌>>=◌}
use tuntu.Downloaders.Snapshot.{FileFact, DirectorySnapshot, directory_snapshot}
use tuntu.Downloaders.Paths.{normalize_absolute_path}
use tuntu.Downloaders.CloudDrive.{
  Rpc, Link, Stub, Texts, Config, Entry, Listing, RpcError, read_operation, map_rpc_error,
  is_listed_in, is_directory_type, is_file_type, is_folder, metadata,
}

-- `files` and `pending`; the end of the Python list is the head of `pending`. The order of the files
-- is the order in which they were found.
pub record Walk : Type 0 where
  pub files : List FileFact
  pub pending : List (Text × ℕ)

-- An entry is a folder to walk, a file, or neither.
abbrev pub add_entry : ℕ → Entry → Text → Walk → Walk
add_entry depth entry path w =
    if is_folder entry
    then record w { pending = (path, depth + 1) ∷ w.pending }
    else if is_file_type entry.file_type || entry.is_cloud_file
    then record w { files = w.files ++ record { path = path; size = entry.size } ∷ [] }
    else w

module _ (config : Config) where
  abbrev pub placed : Text → ℕ → Entry → Walk → Reply Text → Reply Walk
  placed destination depth entry w (raises e) = raises e
  placed destination depth entry w (answers path) =
      if is_listed_in destination path
      then answers (add_entry depth entry path w)
      else raises (other "listed_path_outside_destination")

  -- One entry. `FileFact` takes any path that is normal.
  unfoldable pub scan_entry : Text → ℕ → Entry → Walk → Reply Walk
  scan_entry destination depth entry w =
      if leb config.max_tree_entries (length w.files + length w.pending)
      then raises (other "tree_entries_exceeded")
      else placed destination depth entry w (normalize_absolute_path entry.full_path_name)

  unfoldable pub scan : Text → ℕ → List Entry → Walk → Reply Walk
  scan destination depth [] w = answers w
  scan destination depth (entry ∷ entries) w = do
    w' ← scan_entry destination depth entry w
    scan destination depth entries w'

module _ (texts : Texts) (config : Config) where
  abbrev pub unbroken : Option RpcError → Walk → Reply Walk
  unbroken none w = answers w
  unbroken (some e) w = raises (map_rpc_error texts e read_operation)

  -- The entries that came, and the error that ended the stream.
  unfoldable pub scan_listing : Text → ℕ → Listing → Walk → Reply Walk
  scan_listing destination depth listing w = do
    w' ← scan config destination depth listing.entries w
    unbroken listing.broken_by w'

module _ {W : Type 0} (texts : Texts) (stub : Stub W) (config : Config) (destination token : Text)
    (force_refresh : Bool) where
  -- The loop, on fuel: `none` is a loop that has not ended.
  unfoldable pub walk :
      ℕ → List Text → List FileFact → List (Text × ℕ) → W → Option (Reply (List FileFact) × W)
  walk zero visited files pending world = none
  walk (suc fuel) visited files [] world = some (answers files, world)
  walk (suc fuel) visited files ((path, depth) ∷ pending) world =
      let skipped = walk fuel visited files pending world in
      if contains path visited
      then skipped
      else if ltb config.max_tree_depth depth
      then some (raises (other "tree_depth_exceeded"), world)
      else (let (listing, world') = stub.get_sub_files token path force_refresh world in
          elim (scan_listing texts config destination depth listing
            (record { files = files; pending = pending })) [
              | raises e ↦ some (raises e, world')
              | answers w ↦ walk fuel (path ∷ visited) w.files w.pending world'
            ])

-- `(b + 1) ** k`
abbrev pub grown : ℕ → ℕ → ℕ
grown b zero = 1
grown b (suc k) = grown b k + b * grown b k

-- Fuel for a walk that begins at one folder; Ends shows that it is enough.
abbrev pub walk_fuel : Config → ℕ
walk_fuel config = suc (grown config.max_tree_entries (config.max_tree_depth + 1))

abbrev pub snapshot_of :
    {W : Type 0}
    → Option (Reply (List FileFact) × W)
    → Option Text
    → Option (Reply DirectorySnapshot × Link W)
snapshot_of none token = none
snapshot_of (some (raises e, world')) token =
    some (raises e, record { world = world'; password_token = token })
snapshot_of (some (answers files, world')) token =
    some (answers (directory_snapshot files), record { world = world'; password_token = token })

module _ {W : Type 0} (texts : Texts) (stub : Stub W) (config : Config) where
  abbrev pub walk_from :
      Text → Bool → Reply Text × Link W → Option (Reply DirectorySnapshot × Link W)
  walk_from destination force_refresh (raises e, s) = some (raises e, s)
  walk_from destination force_refresh (answers token, s) =
      snapshot_of
        (walk texts stub config destination token force_refresh (walk_fuel config) [] []
          ((destination, 0) ∷ []) s.world)
        s.password_token

  abbrev pub snapshot_at : Reply Text → Bool → Link W → Option (Reply DirectorySnapshot × Link W)
  snapshot_at (raises e) force_refresh s = some (raises e, s)
  snapshot_at (answers destination) force_refresh s =
      walk_from destination force_refresh (metadata texts stub config s)

  -- `snapshot`; `none` is a walk that did not end.
  unfoldable pub snapshot : Text → Bool → Link W → Option (Reply DirectorySnapshot × Link W)
  snapshot path force_refresh s = snapshot_at (normalize_absolute_path path) force_refresh s
