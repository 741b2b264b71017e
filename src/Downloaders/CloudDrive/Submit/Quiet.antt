-- ===== src/Downloaders/CloudDrive/Submit/Quiet.antt =====
-- What the calls before the submission raise.
use tuntu.Prelude.{
  ℕ, zero, suc, ◌+◌, ◌≡◌, refl, subst, inl, inr, Bool, true, false, not, Option, none, some, List,
  [], ◌∷◌, length, contains, Text, leb, ltb, ◌==◌, string_eq, nat_eq, list_eq, arith, Bool-cases,
}
use tuntu.Downloaders.Client.{
  Reply, answers, raises, ClientError, other, rejected, result_unknown,
  external_task_already_exists, ◌>>=◌, Reply-cases,
}
use tuntu.Downloaders.Snapshot.{FileFact}
use tuntu.Downloaders.Paths.{normalize_absolute_path}
use tuntu.Downloaders.CloudDrive.{
  Rpc, Link, resume, call, Stub, Texts, Config, RpcError, RpcReply, replied, failed, AuthMode,
  api_token_mode, user_password_mode, Entry, Listing, is_listed_in, read_operation, auth_operation,
  map_rpc_error, metadata, replied_or, take_token, keep_token, token_of, token_by,
}
use tuntu.Downloaders.CloudDrive.Tree.{
  Walk, placed, scan_entry, scan, scan_listing, unbroken, walk, walk_fuel, snapshot_of, walk_from,
  snapshot_at, snapshot,
}

-- An error that says that nothing was submitted, since the submission was never sent.
abbrev pub is_quiet : ClientError → Bool
is_quiet (other code) = true
is_quiet (rejected code) = not (code == "explicit_rejection")
is_quiet (result_unknown code baseline) = false
is_quiet (external_task_already_exists code) = false

abbrev pub Quiet : {A : Type 0} → Reply A → Type 0
Quiet (raises e) = is_quiet e ≡ true
Quiet (answers a) = Unit {0}

Quiet->>= :
    {A B : Type 0} (r : Reply A) (next : A → Reply B)
    → Quiet r
    → ((a : A) → Quiet (next a))
    → Quiet (r >>= next)
Quiet->>= (raises e) next h k = h
Quiet->>= (answers a) next h k = k a

rpc-Quiet :
    {W A B : Type 0} (m : Reply A × Link W) (f : A → Rpc W B)
    → Quiet m.0
    → ((a : A) (s : Link W) → Quiet (f a s).0)
    → Quiet (resume m f).0
rpc-Quiet (raises e, s) f h k = h
rpc-Quiet (answers a, s) f h k = k a s

read_error : (texts : Texts) (e : RpcError) → is_quiet (map_rpc_error texts e read_operation) ≡ true
unfolding map_rpc_error
read_error texts e = ground arith

auth_error : (texts : Texts) (e : RpcError) → is_quiet (map_rpc_error texts e auth_operation) ≡ true
unfolding map_rpc_error
auth_error texts e = ground arith

pub normalize-Quiet : (path : Text) → Quiet (normalize_absolute_path path)
unfolding normalize_absolute_path
normalize-Quiet path = ground arith

module _ {W : Type 0} (texts : Texts) (stub : Stub W) (config : Config) where
  keep_token-Quiet :
      (success : Bool) (token : Text) (s : Link W)
      → Quiet (keep_token texts stub config (success, token) s).0
  keep_token-Quiet success token s = ground arith

  replied-Quiet :
      {A : Type 0} (reply : RpcReply A) → Quiet (replied_or texts stub config auth_operation reply)
  replied-Quiet (replied a) = tt
  replied-Quiet (failed e) = auth_error texts e

  token_of-Quiet : (o : Option Text) (s : Link W) → Quiet (token_of texts stub config o s).0
  token_of-Quiet (some token) s = tt
  token_of-Quiet none s =
      rpc-Quiet (call (stub.get_token config.username config.password) s)
        (take_token texts stub config) tt
        (λ reply s1.
          rpc-Quiet (replied_or texts stub config auth_operation reply, s1)
            (keep_token texts stub config) (replied-Quiet reply)
            (λ (success, token) s2. keep_token-Quiet success token s2))

  pub metadata-Quiet : (s : Link W) → Quiet (metadata texts stub config s).0
  unfolding metadata
  metadata-Quiet s = by_mode config.auth_mode
    where
      by_mode : (mode : AuthMode) → Quiet (token_by texts stub config mode s).0
      by_mode api_token_mode = tt
      by_mode user_password_mode = token_of-Quiet s.password_token s

scan_entry-Quiet :
    (config : Config) (destination : Text) (depth : ℕ) (entry : Entry) (w : Walk)
    → Quiet (scan_entry config destination depth entry w)
unfolding scan_entry
scan_entry-Quiet config destination depth entry w =
    elim (Bool-cases (leb config.max_tree_entries (length w.files + length w.pending))) [
      | inl full ↦ rw full refl
      | inr free ↦ rw free (
          by_path (normalize_absolute_path entry.full_path_name)
            (normalize-Quiet entry.full_path_name))
    ]
  where
    by_path : (r : Reply Text) → Quiet r → Quiet (placed config destination depth entry w r)
    by_path (raises e) h = h
    by_path (answers path) h = elim (Bool-cases (is_listed_in destination path)) [
      | inl a ↦ rw a tt
      | inr b ↦ rw b refl
    ]

scan-Quiet :
    (config : Config) (destination : Text) (depth : ℕ) (entries : List Entry) (w : Walk)
    → Quiet (scan config destination depth entries w)
unfolding scan
scan-Quiet config destination depth [] w = tt
scan-Quiet config destination depth (entry ∷ entries) w =
    Quiet->>= (scan_entry config destination depth entry w) _
      (scan_entry-Quiet config destination depth entry w)
      (λ v. scan-Quiet config destination depth entries v)

scan_listing-Quiet :
    (texts : Texts) (config : Config) (destination : Text) (depth : ℕ) (listing : Listing)
    (w : Walk)
    → Quiet (scan_listing texts config destination depth listing w)
unfolding scan_listing
scan_listing-Quiet texts config destination depth listing w =
    Quiet->>= (scan config destination depth listing.entries w) _
      (scan-Quiet config destination depth listing.entries w) (unbroken-Quiet listing.broken_by)
  where
    unbroken-Quiet : (o : Option RpcError) (v : Walk) → Quiet (unbroken texts config o v)
    unbroken-Quiet none v = tt
    unbroken-Quiet (some e) v = read_error texts e

-- The same of a walk and of what is made of it.
abbrev pub MaybeQuiet : {A S : Type 0} → Option (Reply A × S) → Type 0
MaybeQuiet none = Unit {0}
MaybeQuiet (some (r, s)) = Quiet r

module _ {W : Type 0} (texts : Texts) (stub : Stub W) (config : Config) where
  walk-Quiet :
      (destination token : Text) (force_refresh : Bool) (fuel : ℕ) (visited : List Text)
      (files : List FileFact) (pending : List (Text × ℕ)) (world : W)
      → MaybeQuiet
          (walk texts stub config destination token force_refresh fuel visited files pending world)
  unfolding walk
  walk-Quiet destination token force_refresh zero visited files pending world = tt
  walk-Quiet destination token force_refresh (suc fuel) visited files [] world = tt
  walk-Quiet destination token force_refresh (suc fuel) visited files ((path, depth) ∷ pending)
        world =
      elim (Bool-cases (contains path visited)) [
        | inl seen ↦
            rw seen (walk-Quiet destination token force_refresh fuel visited files pending world)
        | inr new ↦ elim (Bool-cases (ltb config.max_tree_depth depth)) [
          | inl deep ↦ rw (new, deep) refl
          | inr shallow ↦
              let (listing, world') = stub.get_sub_files token path force_refresh world in
              let w : Walk = record { files = files; pending = pending } in
              elim (Reply-cases (scan_listing texts config destination depth listing w)) [
                | inl (e, bad) ↦
                    rw (new, shallow, bad)
                      (subst Quiet bad
                        (scan_listing-Quiet texts config destination depth listing w))
                | inr (w', scanned) ↦
                    rw (new, shallow, scanned)
                      (walk-Quiet destination token force_refresh fuel (path ∷ visited) w'.files
                        w'.pending world')
              ]
        ]
      ]

  snapshot_of-Quiet :
      (o : Option (Reply (List FileFact) × W)) (token : Option Text)
      → MaybeQuiet o
      → MaybeQuiet (snapshot_of o token)
  snapshot_of-Quiet none token h = tt
  snapshot_of-Quiet (some (raises e, world)) token h = h
  snapshot_of-Quiet (some (answers files, world)) token h = tt

  walk_from-Quiet :
      (destination : Text) (force_refresh : Bool) (m : Reply Text × Link W)
      → Quiet m.0
      → MaybeQuiet (walk_from texts stub config destination force_refresh m)
  walk_from-Quiet destination force_refresh (raises e, s) h = h
  walk_from-Quiet destination force_refresh (answers token, s) h =
      snapshot_of-Quiet _ s.password_token (
        walk-Quiet destination token force_refresh (walk_fuel config) [] [] ((destination, 0) ∷ [])
          s.world)

  pub snapshot-Quiet :
      (path : Text) (force_refresh : Bool) (s : Link W)
      → MaybeQuiet (snapshot texts stub config path force_refresh s)
  unfolding snapshot
  snapshot-Quiet path force_refresh s = at (normalize_absolute_path path) (normalize-Quiet path)
    where
      at : (r : Reply Text) → Quiet r → MaybeQuiet (snapshot_at texts stub config r force_refresh s)
      at (raises e) h = h
      at (answers destination) h =
          walk_from-Quiet destination force_refresh (metadata texts stub config s)
            (metadata-Quiet texts stub config s)
