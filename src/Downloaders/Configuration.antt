-- ===== src/Downloaders/Configuration.antt =====
-- src/tuntu/downloaders/clouddrive.py: `CloudDriveConfig`, whose constructor checks its fields. What
-- `urlsplit` finds in an address, and `str.casefold`, are parameters.
pub mod Accepted
use tuntu.Prelude.{
  ℕ, String, Bool, true, false, not, ◌&&◌, ◌||◌, Option, none, some, List, [], ◌∷◌, ◌++◌, any,
  contains, Text, codes, is_empty, is_some, slash, ◌==◌, nat_eq, list_eq, if◌then◌else◌,
}
use tuntu.Errors.{Result, ok, err, value_error}
use tuntu.Magnet.{strip}
use tuntu.Selection.Rules.{occurs_in}
use tuntu.Downloaders.Client.{Reply, answers, raises, other}
use tuntu.Downloaders.Numbers.{ℤ, pos, int_lt, Number, whole, number_le, minimum}
use tuntu.Downloaders.Paths.{normalize_absolute_path}
use tuntu.Downloaders.CloudDrive.{AuthMode, api_token_mode, user_password_mode}

-- What `urlsplit` returns. Reading the port raises ValueError where it is no number of a port: `none`.
pub record Address : Type 0 where
  pub scheme : Text
  pub hostname : Option Text
  pub port : Option (Option ℕ)
  pub username : Option Text
  pub path : Text
  pub query : Text
  pub fragment : Text

pub record Library : Type 0 where
  -- `none` is ValueError.
  pub urlsplit : Text → Option Address
  pub casefold : Text → Text
  -- `str(port)`
  pub decimal : ℕ → Text

-- The arguments of the constructor, without those on TLS, which it passes on unchecked.
pub record Fields : Type 0 where
  pub endpoint : Text
  pub auth_mode : Text
  pub root_path : Text
  pub api_token : Text
  pub username : Text
  pub password : Text
  pub rpc_timeout_seconds : Number
  pub task_list_timeout_seconds : Number
  pub poll_interval_seconds : ℤ
  pub attention_after_seconds : ℤ
  pub check_folder_after_seconds : ℤ
  pub required_stable_observations : ℤ
  pub max_tree_depth : ℤ
  pub max_tree_entries : ℤ

-- The fields that the constructor sets.
pub record Configuration : Type 0 where
  pub fields : Fields
  pub open fields use *
  pub mode : AuthMode
  pub target : Text
  pub secure : Bool
  pub hostname : Text
  pub port : ℕ

-- A check returns, raises a `CloudDriveConfigurationError` with its code, or lets ValueError through.
abbrev pub Check : Type 0 → Type 0
Check A = Result (Reply A)

abbrev pub refuse : {A : Type 0} → String → Check A
refuse code = ok (raises (other code))

infixl 5 ◌>>=◌
abbrev pub ◌>>=◌ : {A B : Type 0} → Check A → (A → Check B) → Check B
err e >>= next = err e
ok (raises e) >>= next = ok (raises e)
ok (answers a) >>= next = next a

-- `AuthMode(…)`
abbrev pub mode_of : Text → Option AuthMode
mode_of word =
    if word == codes "api_token"
    then some api_token_mode
    else if word == codes "user_password"
    then some user_password_mode
    else none

-- `if "://" not in endpoint: …`
abbrev pub with_scheme : Text → Text
with_scheme endpoint =
    if occurs_in (codes "://") endpoint then endpoint else codes "grpc://" ++ endpoint

-- The code where the credentials of the mode are missing.
abbrev pub missing_credentials : AuthMode → String
missing_credentials api_token_mode = "api_token_required"
missing_credentials user_password_mode = "username_password_required"

abbrev pub has_credentials : AuthMode → (api_token username password : Text) → Bool
has_credentials api_token_mode api_token username password = not (is_empty api_token)
has_credentials user_password_mode api_token username password =
    not (is_empty username || is_empty password)

-- The arguments of `min` after the first one.
abbrev pub limits : Fields → List Number
limits f =
    f.task_list_timeout_seconds
    ∷ whole f.poll_interval_seconds
    ∷ whole f.attention_after_seconds
    ∷ whole f.required_stable_observations
    ∷ whole f.max_tree_depth
    ∷ whole f.max_tree_entries
    ∷ []

-- `not min(…) <= 0`
abbrev pub has_limits : Fields → Bool
has_limits f = not (number_le (minimum f.rpc_timeout_seconds (limits f)) (whole (pos 0)))

-- `if not condition: raise CloudDriveConfigurationError(code)`
abbrev pub require : Bool → String → Check (Unit {0})
require true code = ok (answers tt)
require false code = refuse code

abbrev pub mode_or_refuse : Option AuthMode → Check AuthMode
mode_or_refuse none = refuse "invalid_auth_mode"
mode_or_refuse (some mode) = ok (answers mode)

abbrev pub address_or_raise : Option Address → Check Address
address_or_raise none = err value_error
address_or_raise (some a) = ok (answers a)

abbrev pub host_or_refuse : Option Text → Check Text
host_or_refuse none = refuse "invalid_endpoint"
host_or_refuse (some []) = refuse "invalid_endpoint"
host_or_refuse (some (c ∷ host)) = ok (answers (c ∷ host))

abbrev pub port_or_refuse : Option (Option ℕ) → Check ℕ
port_or_refuse none = err value_error
port_or_refuse (some none) = refuse "invalid_endpoint"
port_or_refuse (some (some port)) = ok (answers port)

-- `{"", "/"}`
abbrev is_root : Text → Bool
is_root path = is_empty path || path == slash ∷ []

abbrev pub is_plain : Address → Bool
is_plain a =
    (not (is_some a.username) && is_root a.path) && (is_empty a.query && is_empty a.fragment)

abbrev pub is_secure : Text → Bool
is_secure scheme = scheme == codes "grpcs" || scheme == codes "https"

abbrev pub is_known : Text → Bool
is_known scheme = (scheme == codes "grpc" || scheme == codes "http") || is_secure scheme

-- `CloudDriveConfig.__post_init__`
unfoldable pub configure : Library → Fields → Check Configuration
configure library f = do
  mode ← mode_or_refuse (mode_of f.auth_mode)
  let endpoint = with_scheme (strip f.endpoint)
  address ← address_or_raise (library.urlsplit endpoint)
  let scheme = library.casefold address.scheme
  _ ← require (is_known scheme) "invalid_endpoint"
  host ← host_or_refuse address.hostname
  port ← port_or_refuse address.port
  _ ← require (is_plain address) "invalid_endpoint"
  root ← ok (normalize_absolute_path f.root_path)
  _ ← require (has_credentials mode f.api_token f.username f.password) (missing_credentials mode)
  _ ← require (has_limits f) "invalid_timing_or_limit"
  _ ← require (not (int_lt f.check_folder_after_seconds (pos 0))) "invalid_check_folder_delay"
  _ ←
      require (not (int_lt f.required_stable_observations (pos 2)))
        "insufficient_stable_observations"
  ok (
      answers (record {
        fields = record f { endpoint = endpoint; root_path = root };
        mode = mode;
        target = host ++ codes ":" ++ library.decimal port;
        secure = is_secure scheme;
        hostname = host;
        port = port;
      }))
