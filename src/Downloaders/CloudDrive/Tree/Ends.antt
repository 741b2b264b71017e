-- ===== src/Downloaders/CloudDrive/Tree/Ends.antt =====
-- The walk through a folder ends, whatever the remote service lists: the depth and the number of
-- entries are bounded, and a folder weighs more than all that one listing of it can add.
use tuntu.Prelude.{
  ℕ, zero, suc, ◌+◌, ◌-◌, ◌*◌, ◌≤◌, ◌<◌, ◌≡◌, refl, ap, subst, inl, inr, Bool, ◌||◌, Option, none,
  some, List, [], ◌∷◌, length, length-append, contains, Text, leb, ltb, nat_eq, list_eq, arith,
  Bool-cases,
}
use tuntu.Downloaders.Client.{
  Reply, answers, raises, other, answers_injective, raises-ne-answers, Reply-cases, >>=-eq-answers,
}
use tuntu.Downloaders.Snapshot.{FileFact, DirectorySnapshot}
use tuntu.Downloaders.Paths.{normalize_absolute_path}
use tuntu.Downloaders.CloudDrive.{
  Link, Stub, Texts, Config, Entry, Listing, RpcError, metadata, is_listed_in, is_folder,
  is_file_type,
}
use tuntu.Downloaders.CloudDrive.Tree.{
  Walk, add_entry, placed, scan_entry, scan, scan_listing, unbroken, walk, grown, walk_fuel,
  snapshot_of, walk_from, snapshot,
}

room_step : (m n u : ℕ) → n < m → (m - suc n) * u + u ≡ (m - n) * u
room_step m n u h = let more : m - n ≡ suc (m - suc n) = omega arith in rw more (omega arith)

take_place : (m n n' u : ℕ) → n < m → n' ≡ suc n → u + (m - n') * u ≡ (m - n) * u
take_place m n n' u h e = rw e (omega (arith, room_step m n u h))

minus_zero : (n : ℕ) → n - 0 ≡ n
minus_zero n = omega arith

mul_le : (n m u : ℕ) → n ≤ m → n * u ≤ m * u
mul_le n m u h = grind arith

grown_pos : (b k : ℕ) → 1 ≤ grown b k
grown_pos b zero = omega arith
grown_pos b (suc k) = omega (arith, grown_pos b k)

module _ (config : Config) where
  abbrev most : ℕ
  most = config.max_tree_entries

  -- What a folder at a depth weighs.
  abbrev weight_at : ℕ → ℕ
  weight_at depth = grown most ((config.max_tree_depth + 1) - depth)

  abbrev weight : List (Text × ℕ) → ℕ
  weight [] = 0
  weight ((path, depth) ∷ pending) = weight_at depth + weight pending

  -- How many entries may still come.
  abbrev room : Walk → ℕ
  room w = most - (length w.files + length w.pending)

  weight_at-child :
      (depth : ℕ)
      → depth ≤ config.max_tree_depth
      → weight_at depth ≡ weight_at (depth + 1) + most * weight_at (depth + 1)
  weight_at-child depth h =
      let one : (config.max_tree_depth + 1) - depth
          ≡ suc ((config.max_tree_depth + 1) - (depth + 1)) =
        omega arith in
      ap (grown most) one

  add_entry-weight :
      (depth : ℕ) (entry : Entry) (path : Text) (w : Walk)
      → length w.files + length w.pending < most
      → weight (add_entry depth entry path w).pending
          + room (add_entry depth entry path w) * weight_at (depth + 1)
        ≤ weight w.pending + room w * weight_at (depth + 1)
  add_entry-weight depth entry path w h = elim (Bool-cases (is_folder entry)) [
    | inl folder ↦ rw folder (
        omega (
          arith,
          take_place most (length w.files + length w.pending)
              (length w.files + suc (length w.pending)) (weight_at (depth + 1)) h (omega arith),
        ))
    | inr plain ↦ elim (Bool-cases (is_file_type entry.file_type || entry.is_cloud_file)) [
      | inl file ↦
          rw (plain, file, length-append)
            (omega (
              arith,
              take_place most (length w.files + length w.pending)
                  ((length w.files + 1) + length w.pending) (weight_at (depth + 1)) h (omega arith),
            ))
      | inr neither ↦ rw (plain, neither) (omega arith)
    ]
  ]

  scan_entry-weight :
      (destination : Text) (depth : ℕ) (entry : Entry) (w w' : Walk)
      → scan_entry config destination depth entry w ≡ answers w'
      → weight w'.pending + room w' * weight_at (depth + 1)
        ≤ weight w.pending + room w * weight_at (depth + 1)
  unfolding scan_entry
  scan_entry-weight destination depth entry w w' h =
      elim (Bool-cases (leb most (length w.files + length w.pending))) [
        | inl full ↦ absurd (raises-ne-answers _ w' (rw full at h))
        | inr free ↦
            by_path (normalize_absolute_path entry.full_path_name) (rw free at h)
              (ground (arith, free))
      ]
    where
      by_path :
          (r : Reply Text)
          → placed config destination depth entry w r ≡ answers w'
          → length w.files + length w.pending < most
          → weight w'.pending + room w' * weight_at (depth + 1)
            ≤ weight w.pending + room w * weight_at (depth + 1)
      by_path (raises e) h k = absurd (raises-ne-answers e w' h)
      by_path (answers path) h k = elim (Bool-cases (is_listed_in destination path)) [
        | inl inside ↦
            subst
              (λ (v : Walk).
                weight v.pending + room v * weight_at (depth + 1)
                ≤ weight w.pending + room w * weight_at (depth + 1))
              (answers_injective (add_entry depth entry path w) w' (rw inside at h))
              (add_entry-weight depth entry path w k)
        | inr outside ↦ absurd (raises-ne-answers _ w' (rw outside at h))
      ]

  -- What one entry keeps, a listing keeps.
  pub scan-Keeps :
      (P : Walk → Type 0) (destination : Text) (depth : ℕ) (entries : List Entry) (w w' : Walk)
      → ((entry : Entry) (u v : Walk)
          → scan_entry config destination depth entry u ≡ answers v
          → P u
          → P v)
      → scan config destination depth entries w ≡ answers w'
      → P w
      → P w'
  unfolding scan
  scan-Keeps P destination depth [] w w' keeps h p = subst P (answers_injective w w' h) p
  scan-Keeps P destination depth (entry ∷ entries) w w' keeps h p =
      let (v, scanned, rest) = >>=-eq-answers (scan_entry config destination depth entry w) _ h in
      scan-Keeps P destination depth entries v w' keeps rest (keeps entry w v scanned p)

  pub scan_listing-Keeps :
      (texts : Texts) (P : Walk → Type 0) (destination : Text) (depth : ℕ) (listing : Listing)
      (w w' : Walk)
      → ((entry : Entry) (u v : Walk)
          → scan_entry config destination depth entry u ≡ answers v
          → P u
          → P v)
      → scan_listing texts config destination depth listing w ≡ answers w'
      → P w
      → P w'
  unfolding scan_listing
  scan_listing-Keeps texts P destination depth listing w w' keeps h p =
      let (v, scanned, rest) =
        >>=-eq-answers (scan config destination depth listing.entries w) _ h in
      subst P (whole texts listing.broken_by v w' rest)
        (scan-Keeps P destination depth listing.entries w v keeps scanned p)
    where
      whole :
          (texts : Texts) (o : Option RpcError) (v w' : Walk)
          → unbroken texts config o v ≡ answers w'
          → v ≡ w'
      whole texts none v w' h = answers_injective v w' h
      whole texts (some e) v w' h = absurd (raises-ne-answers _ w' h)

  -- All that a listing adds weighs less than its folder.
  scan_listing-weight :
      (texts : Texts) (destination : Text) (depth : ℕ) (listing : Listing) (w w' : Walk)
      → depth ≤ config.max_tree_depth
      → scan_listing texts config destination depth listing w ≡ answers w'
      → weight w'.pending < weight_at depth + weight w.pending
  scan_listing-weight texts destination depth listing w w' d h =
      let u = weight_at (depth + 1) in
      let bound =
        scan_listing-Keeps texts
          (λ v. weight v.pending + room v * u ≤ weight w.pending + room w * u) destination depth
          listing w w'
          (λ entry a b scanned k.
            omega (arith, scan_entry-weight destination depth entry a b scanned))
          h (omega arith) in
      omega (
        arith,
        bound,
        weight_at-child depth d,
        grown_pos most ((config.max_tree_depth + 1) - (depth + 1)),
        mul_le (room w) most u (omega arith),
      )

module _ {W : Type 0} (texts : Texts) (stub : Stub W) (config : Config) (destination token : Text)
    (force_refresh : Bool) where
  -- Enough fuel: more than the folders that are left weigh.
  walk_ends :
      (fuel : ℕ) (visited : List Text) (files : List FileFact) (pending : List (Text × ℕ))
      (world : W)
      → weight config pending < fuel
      → (r : Reply (List FileFact) × W) × (walk texts stub config destination token force_refresh
            fuel visited files pending world
          ≡ some r)
  unfolding walk
  walk_ends zero visited files pending world h = absurd (omega arith)
  walk_ends (suc fuel) visited files [] world h = (_, refl)
  walk_ends (suc fuel) visited files ((path, depth) ∷ pending) world h =
      let light : weight config pending < fuel =
        omega (arith, grown_pos config.max_tree_entries ((config.max_tree_depth + 1) - depth)) in
      elim (Bool-cases (contains path visited)) [
        | inl seen ↦ rw seen (walk_ends fuel visited files pending world light)
        | inr new ↦ elim (Bool-cases (ltb config.max_tree_depth depth)) [
          | inl deep ↦ ((raises (other "tree_depth_exceeded"), world), rw (new, deep) refl)
          | inr shallow ↦
              let (listing, world') = stub.get_sub_files token path force_refresh world in
              elim (Reply-cases (
                scan_listing texts config destination depth listing
                  (record { files = files; pending = pending }))) [
                    | inl (e, failed) ↦ ((raises e, world'), rw (new, shallow, failed) refl)
                    | inr (w, scanned) ↦
                        let (r, ended) = walk_ends fuel (path ∷ visited) w.files w.pending world' (
                          omega (
                            arith,
                            scan_listing-weight config texts destination depth listing
                                (record { files = files; pending = pending }) w
                                (ground (arith, shallow)) scanned,
                          )) in
                        (r, rw (new, shallow, scanned) ended)
                  ]
        ]
      ]

module _ {W : Type 0} (texts : Texts) (stub : Stub W) (config : Config) where
  snapshot_of-ends :
      (o : Option (Reply (List FileFact) × W)) (token : Option Text)
      → (r : Reply (List FileFact) × W) × (o ≡ some r)
      → (r : Reply DirectorySnapshot × Link W) × (snapshot_of o token ≡ some r)
  snapshot_of-ends none token (r, h) = absurd (cc)
  snapshot_of-ends (some (raises e, world)) token h = ((raises e, _), refl)
  snapshot_of-ends (some (answers files, world)) token h = (_, refl)

  walk_from_ends :
      (destination : Text) (force_refresh : Bool) (m : Reply Text × Link W)
      → (r : Reply DirectorySnapshot × Link W) × (walk_from texts stub config destination
            force_refresh m
          ≡ some r)
  walk_from_ends destination force_refresh (raises e, s) = ((raises e, s), refl)
  walk_from_ends destination force_refresh (answers token, s) =
      snapshot_of-ends _ s.password_token (
        walk_ends texts stub config destination token force_refresh (walk_fuel config) [] []
          ((destination, 0) ∷ []) s.world
          (omega
            (arith, ap (grown config.max_tree_entries) (minus_zero (config.max_tree_depth + 1)))))

  -- A snapshot ends: whatever the service lists, the walk of the folder returns or raises.
  pub snapshot_ends :
      (path : Text) (force_refresh : Bool) (s : Link W)
      → (r : Reply DirectorySnapshot × Link W) × (snapshot texts stub config path force_refresh s
          ≡ some r)
  unfolding snapshot
  snapshot_ends path force_refresh s = elim (Reply-cases (normalize_absolute_path path)) [
    | inl (e, bad) ↦ ((raises e, s), rw bad refl)
    | inr (destination, good) ↦
        rw good (walk_from_ends destination force_refresh (metadata texts stub config s))
  ]
