-- ===== src/Downloaders/CloudDrive.antt =====
-- src/tuntu/downloaders/clouddrive.py: `CloudDriveClient`. The stub of the remote service is a
-- parameter, with whatever state it has; so are `str.casefold` and the search for the word 10008.
pub mod Tree
pub mod Submit
use tuntu.Prelude.{
  ℕ, ◌+◌, Bool, true, false, not, ◌&&◌, ◌||◌, String, Option, none, some, List, [], ◌∷◌, ◌++◌, any,
  first, Text, codes, slash, rstrip_slash, lstrip_slash, drop, length, is_empty, leb, ltb, ◌==◌,
  nat_eq, list_eq, if◌then◌else◌,
}
use tuntu.Downloaders.Client.{
  Reply, answers, raises, ClientError, other, rejected, external_task_already_exists,
  result_unknown, TaskSignal,
}
use tuntu.Downloaders.Paths.{split_slash, normalize_absolute_path, child_of, is_within}

pub data StatusCode : Type 0 where
  unauthenticated permission_denied deadline_exceeded unavailable cancelled : StatusCode
  invalid_argument not_found another_code : StatusCode

-- `grpc.RpcError`
pub record RpcError : Type 0 where
  pub code : StatusCode
  pub details : Text

pub data RpcReply (A : Type 0) : Type 0 where
  replied : A → RpcReply A
  failed : RpcError → RpcReply A

pub data FileType : Type 0 where
  directory_type file_type other_type : FileType

abbrev pub is_directory_type : FileType → Bool
is_directory_type directory_type = true
is_directory_type _ = false

abbrev pub is_file_type : FileType → Bool
is_file_type file_type = true
is_file_type _ = false

-- `CloudDriveFile`. A size below 0 counts as 0, here already.
pub record Entry : Type 0 where
  pub full_path_name : Text
  pub is_directory : Bool
  pub file_type : FileType
  pub is_cloud_file : Bool
  pub size : ℕ

-- `entry_path == path or entry_path.startswith(path.rstrip("/") + "/") or path == "/"`
abbrev pub is_listed_in : Text → Text → Bool
is_listed_in path entry_path = is_within path entry_path || path == slash ∷ []

abbrev pub is_folder : Entry → Bool
is_folder entry = entry.is_directory || is_directory_type entry.file_type

-- A stream of replies: its entries, and the error that ends it if one does.
pub record Listing : Type 0 where
  pub entries : List Entry
  pub broken_by : Option RpcError

pub data OfflineStatus : Type 0 where
  offline_init offline_downloading offline_finished offline_error offline_unknown : OfflineStatus

pub record OfflineFile : Type 0 where
  pub info_hash : Text
  pub status : OfflineStatus

-- The remote calls that the client makes. Each takes the token of its metadata, except the call
-- for a token.
pub record Stub (W : Type 0) : Type 0 where
  pub get_token : (username password : Text) → W → RpcReply (Bool × Text) × W
  pub get_sub_files : (token path : Text) (force_refresh : Bool) → W → Listing × W
  pub create_folder : (token parent_path folder_name : Text) → W → RpcReply Bool × W
  pub add_offline_files :
      (token urls to_folder : Text) (check_folder_after : ℕ) → W → RpcReply Bool × W
  pub list_offline_files : (token path : Text) → W → RpcReply (List OfflineFile) × W

pub data AuthMode : Type 0 where
  api_token_mode user_password_mode : AuthMode

-- The fields of `CloudDriveConfig` that these methods read.
pub record Config : Type 0 where
  pub auth_mode : AuthMode
  pub api_token : Text
  pub username : Text
  pub password : Text
  pub root_path : Text
  pub check_folder_after_seconds : ℕ
  pub max_tree_depth : ℕ
  pub max_tree_entries : ℕ

-- The remote state, and the token that the client keeps.
pub record Link (W : Type 0) : Type 0 where
  pub world : W
  pub password_token : Option Text

abbrev pub Rpc : Type 0 → Type 0 → Type 0
Rpc W A = Link W → Reply A × Link W

abbrev pub pure : {W A : Type 0} → A → Rpc W A
pure a s = (answers a, s)

abbrev pub lift : {W A : Type 0} → Reply A → Rpc W A
lift r s = (r, s)

abbrev pub resume : {W A B : Type 0} → Reply A × Link W → (A → Rpc W B) → Reply B × Link W
resume (answers a, s) f = f a s
resume (raises e, s) f = (raises e, s)

infixl 5 ◌>>=◌
abbrev pub ◌>>=◌ : {W A B : Type 0} → Rpc W A → (A → Rpc W B) → Rpc W B
◌>>=◌ m f s = resume (m s) f

-- A remote call, whatever it answers.
abbrev pub call : {W A : Type 0} → (W → A × W) → Rpc W A
call f s = let (a, w) = f s.world in (answers a, record s { world = w })

pub data Operation : Type 0 where
  auth_operation read_operation write_operation submit_operation : Operation

abbrev is_submit : Operation → Bool
is_submit submit_operation = true
is_submit _ = false

abbrev pub is_denied : StatusCode → Bool
is_denied unauthenticated = true
is_denied permission_denied = true
is_denied _ = false

-- The result of the call is not known.
abbrev pub is_interrupted : StatusCode → Bool
is_interrupted deadline_exceeded = true
is_interrupted unavailable = true
is_interrupted cancelled = true
is_interrupted _ = false

abbrev pub is_malformed : StatusCode → Bool
is_malformed invalid_argument = true
is_malformed not_found = true
is_malformed _ = false

-- What the code calls in the standard library: `casefold`, and `re.search(r"\b10008\b", text)`.
pub record Texts : Type 0 where
  pub casefold : Text → Text
  pub has_word_10008 : Text → Bool

-- `_map_rpc_error`
unfoldable pub map_rpc_error : Texts → RpcError → Operation → ClientError
map_rpc_error texts error operation =
    if is_denied error.code
    then other "authentication_failed"
    else if is_submit operation && texts.has_word_10008 (texts.casefold error.details)
    then external_task_already_exists "external_task_already_exists"
    else if is_submit operation && is_interrupted error.code
    then result_unknown "submission_result_unknown" none
    else if is_malformed error.code
    then other "invalid_remote_path_or_request"
    else if is_interrupted error.code
    then other "network_error"
    else rejected "external_rejection"

module _ {W : Type 0} (texts : Texts) (stub : Stub W) (config : Config) where
  abbrev pub replied_or : {A : Type 0} → Operation → RpcReply A → Reply A
  replied_or operation (replied a) = answers a
  replied_or operation (failed e) = raises (map_rpc_error texts e operation)

  abbrev pub keep_token : Bool × Text → Rpc W Text
  keep_token (success, token) s =
      if not success || is_empty token
      then (raises (other "authentication_failed"), s)
      else (answers token, record s { password_token = some token })

  abbrev pub take_token : RpcReply (Bool × Text) → Rpc W Text
  take_token reply s = resume (replied_or auth_operation reply, s) keep_token

  abbrev pub token_of : Option Text → Rpc W Text
  token_of (some token) = pure token
  token_of none = do reply ← call (stub.get_token config.username config.password); take_token reply

  abbrev pub token_by : AuthMode → Rpc W Text
  token_by api_token_mode s = (answers config.api_token, s)
  token_by user_password_mode s = token_of s.password_token s

  -- `_metadata`: the bearer token of a call.
  unfoldable pub metadata : Rpc W Text
  metadata = token_by config.auth_mode

  abbrev listed_or : Bool → Reply (Unit {0})
  listed_or true = answers tt
  listed_or false = raises (other "listed_path_outside_destination")

  abbrev broken_or : Option RpcError → Reply (Unit {0})
  broken_or none = answers tt
  broken_or (some e) = raises (map_rpc_error texts e read_operation)

  abbrev listed_entry : Text → Reply Text → Reply (Unit {0})
  listed_entry path (raises e) = raises e
  listed_entry path (answers entry_path) = listed_or (is_listed_in path entry_path)

  abbrev next_entry : Reply (Unit {0}) → Reply (Unit {0}) → Reply (Unit {0})
  next_entry (raises e) rest = raises e
  next_entry (answers _) rest = rest

  -- The checks on listed entries; the number is of the entries before them.
  unfoldable pub check_entries : Text → ℕ → List Entry → Reply (Unit {0})
  check_entries path n [] = answers tt
  check_entries path n (entry ∷ entries) =
      let rest = check_entries path (n + 1) entries in
      if leb config.max_tree_entries n
      then raises (other "tree_entries_exceeded")
      else next_entry (listed_entry path (normalize_absolute_path entry.full_path_name)) rest

  -- `_list_direct`, which every caller asks to refresh.
  unfoldable pub list_direct : Text → Rpc W (List Entry)
  list_direct path = do
    token ← metadata
    listing ← call (stub.get_sub_files token path true)
    _ ← lift (check_entries path 0 listing.entries)
    _ ← lift (broken_or listing.broken_by)
    pure listing.entries

  unfoldable pub directory_exists : Text → Text → Rpc W Bool
  directory_exists parent target = do
    entries ← list_direct parent
    pure (any (λ (e : Entry). e.full_path_name == target && is_folder e) entries)

  abbrev present_or : ClientError → Bool → Reply (Unit {0})
  present_or e true = answers tt
  present_or e false = raises e

  -- A folder that another client made meanwhile is as good.
  abbrev after_create : Text → Text → RpcReply Bool → Rpc W (Unit {0})
  after_create current target (failed e) = do
    exists ← directory_exists current target
    lift (present_or (map_rpc_error texts e write_operation) exists)
  after_create current target (replied true) = pure tt
  after_create current target (replied false) = do
    exists ← directory_exists current target
    lift (present_or (rejected "create_folder_rejected") exists)

  abbrev ensure_child : Text → Text → Text → Option Entry → Rpc W (Unit {0})
  ensure_child current name target (some existing) =
      lift (present_or (other "destination_component_is_file") (is_folder existing))
  ensure_child current name target none = do
    token ← metadata
    created ← call (stub.create_folder token current name)
    after_create current target created

  -- The loop over the folder names.
  unfoldable pub ensure_each : Text → List Text → Rpc W (Unit {0})
  ensure_each current [] = pure tt
  ensure_each current (name ∷ names) = do
    target ← lift (normalize_absolute_path (child_of current name))
    entries ← list_direct current
    _ ← ensure_child current name target (first (λ (e : Entry). e.full_path_name == target) entries)
    ensure_each target names

  -- `destination.lstrip("/") if root == "/" else destination[len(root.rstrip("/") + "/"):]`
  abbrev pub relative_to : Text → Text → Text
  relative_to root destination =
      if root == slash ∷ []
      then lstrip_slash destination
      else drop (rstrip_slash root ++ slash ∷ []) destination

  abbrev ensure_below : Text → Rpc W (Unit {0})
  ensure_below destination =
      if not (is_within config.root_path destination)
      then lift (raises (other "destination_outside_root"))
      else if destination == config.root_path
      then pure tt
      else ensure_each config.root_path (split_slash (relative_to config.root_path destination))

  unfoldable pub ensure_destination : Text → Rpc W (Unit {0})
  ensure_destination path = do
    destination ← lift (normalize_absolute_path path)
    ensure_below destination

  abbrev signal_of : OfflineStatus → TaskSignal
  signal_of offline_init = TaskSignal.init
  signal_of offline_downloading = TaskSignal.downloading
  signal_of offline_finished = TaskSignal.finished
  signal_of offline_error = TaskSignal.error
  signal_of offline_unknown = TaskSignal.unknown

  abbrev pub find_signal : Text → List OfflineFile → TaskSignal
  find_signal btih [] = TaskSignal.unknown
  find_signal btih (file ∷ files) =
      let rest = find_signal btih files in
      if texts.casefold file.info_hash == btih then signal_of file.status else rest

  abbrev pub signal_reply : Text → RpcReply (List OfflineFile) → Reply TaskSignal
  signal_reply btih (failed e) =
      if is_interrupted e.code
      then answers TaskSignal.unknown
      else raises (map_rpc_error texts e read_operation)
  signal_reply btih (replied files) = answers (find_signal (texts.casefold btih) files)

  unfoldable pub get_task_signal : Text → Text → Rpc W TaskSignal
  get_task_signal btih path = do
    destination ← lift (normalize_absolute_path path)
    token ← metadata
    reply ← call (stub.list_offline_files token destination)
    lift (signal_reply btih reply)
