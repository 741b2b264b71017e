-- ===== src/Auth.antt =====
-- src/tuntu/auth.py. The clock, the random tokens and salts, the ids of new rows and the libraries
-- for hashing and letter case are arguments.
pub mod Service
pub mod Sessions
pub mod Admits
pub mod Setup
pub mod Logins
use tuntu.Prelude.{
  ℕ, ◌+◌, Bool, true, false, not, ◌&&◌, ◌||◌, Option, none, some, List, [], ◌∷◌, ◌++◌, map, length,
  any, all, keep, first, Text, is_empty, ltb, leb, ◌==◌, nat_eq, list_eq, if◌then◌else◌,
}
use tuntu.Magnet.{strip, between}

-- `UserRow`
pub record User : Type 0 where
  pub id : ℕ
  pub username : Text
  pub password_hash : Text
  pub session_version : ℕ

-- `SessionRow`
pub record Login : Type 0 where
  pub id : Text
  pub user_id : ℕ
  pub token_hash : Text
  pub expires_at : ℕ
  pub revoked_at : Option ℕ

-- `SetupTokenRow`
pub record SetupToken : Type 0 where
  pub token_hash : Text
  pub expires_at : ℕ
  pub used_at : Option ℕ

-- Users stand in the order of their ids; a new session or token stands first.
pub record AuthTables : Type 0 where
  pub users : List User
  pub sessions : List Login
  pub setup_tokens : List SetupToken

-- The codes of `AuthError`, and the IntegrityError of a unique column.
pub data Denial : Type 0 where
  authentication_required invalid_credentials setup_token_invalid setup_username_mismatch : Denial
  invalid_username invalid_password not_unique : Denial

pub data Outcome {ℓ} (A : Type ℓ) : Type ℓ where
  granted : A → Outcome A
  denied : Denial → Outcome A

-- What the code calls in argon2, hashlib, `str` and SQL.
pub record Library : Type 0 where
  pub token_hash : Text → Text
  -- `PasswordHasher.hash`, with its random salt
  pub hash : ℕ → Text → Text
  -- `_verify_password`
  pub verify : Text → Text → Bool
  pub check_needs_rehash : Text → Bool
  pub casefold : Text → Text
  -- `lower` of SQL
  pub lower : Text → Text

-- A body that raises is rolled back.
abbrev pub within {ℓ} :
    {A : Type ℓ} → AuthTables → Outcome (A × AuthTables) → Outcome A × AuthTables
within db (granted (a, db')) = (granted a, db')
within db (denied d) = (denied d, db)

-- The same of a body that writes before it raises: `with database.session()` undoes what it wrote.
abbrev pub close_session {ℓ} :
    {A : Type ℓ} → AuthTables → Outcome A × AuthTables → Outcome A × AuthTables
close_session db (granted a, db') = (granted a, db')
close_session db (denied d, db') = (denied d, db)

abbrev pub bind {ℓ κ} : {A : Type ℓ} {B : Type κ} → Outcome A → (A → Outcome B) → Outcome B
bind (granted a) f = f a
bind (denied d) f = denied d

abbrev pub check : Bool → Denial → Outcome (Unit {0})
check true d = granted tt
check false d = denied d

-- `[A-Za-z0-9_.-]`
abbrev is_name_char : ℕ → Bool
is_name_char c =
    between b'A' b'Z' c
    || (between b'a' b'z' c || (between b'0' b'9' c || (c == b'_' || (c == b'.' || c == b'-'))))

-- `_validate_username`
unfoldable pub validate_username : Text → Outcome Text
validate_username username =
    let value = strip username in
    if all is_name_char value && (leb 3 (length value) && leb (length value) 50)
    then granted value
    else denied invalid_username

-- `_validate_password`
unfoldable pub validate_password : Text → Outcome (Unit {0})
validate_password password =
    check (not (ltb (length password) 12 || ltb 256 (length password))) invalid_password

abbrev pub is_none {ℓ} : {A : Type ℓ} → Option A → Bool
is_none none = true
is_none (some a) = false

-- A token that can still be used.
abbrev pub is_active : ℕ → SetupToken → Bool
is_active now t = is_none t.used_at && ltb now t.expires_at

pub record BootstrapStatus : Type 0 where
  pub initialized : Bool
  pub setup_token_active : Bool

unfoldable pub bootstrap_status : ℕ → AuthTables → BootstrapStatus
bootstrap_status now db = record {
  initialized = not (is_empty db.users);
  setup_token_active = any (is_active now) db.setup_tokens;
}

abbrev pub use_up : ℕ → SetupToken → SetupToken
use_up now t = if is_none t.used_at then record t { used_at = some now } else t

-- A raw token and its expiry.
pub record SecretGrant : Type 0 where
  pub token : Text
  pub expires_at : ℕ

module _ (lib : Library) where
  rotate_body : (ttl now : ℕ) → Text → AuthTables → Outcome (SecretGrant × AuthTables)
  rotate_body ttl now raw db =
      let hash = lib.token_hash raw in
      if any (λ (t : SetupToken). t.token_hash == hash) db.setup_tokens
      then denied not_unique
      else granted (
        record { token = raw; expires_at = now + ttl },
        record db {
          setup_tokens =
              record { token_hash = hash; expires_at = now + ttl; used_at = none }
              ∷ map (use_up now) db.setup_tokens;
        },
      )

  unfoldable pub rotate_setup_token :
      (ttl now : ℕ) → Text → AuthTables → Outcome SecretGrant × AuthTables
  unfolding rotate_body
  rotate_setup_token ttl now raw db = within db (rotate_body ttl now raw db)

  abbrev some_grant : Outcome SecretGrant × AuthTables → Outcome (Option SecretGrant) × AuthTables
  some_grant (granted g, db) = (granted (some g), db)
  some_grant (denied d, db) = (denied d, db)

  unfoldable pub bootstrap_if_needed :
      (ttl now later : ℕ) → Text → AuthTables → Outcome (Option SecretGrant) × AuthTables
  bootstrap_if_needed ttl now later raw db =
      let status = bootstrap_status now db in
      if status.initialized || status.setup_token_active
      then (granted none, db)
      else some_grant (rotate_setup_token ttl later raw db)
