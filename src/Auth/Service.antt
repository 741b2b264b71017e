-- ===== src/Auth/Service.antt =====
-- src/tuntu/auth.py: the methods on users and their sessions.
use tuntu.Prelude.{
  ℕ, ◌+◌, Bool, true, not, ◌&&◌, ◌||◌, Option, none, some, List, [], ◌∷◌, map, length, any, keep,
  first, Text, leb, ◌==◌, nat_eq, list_eq, if◌then◌else◌,
}
use tuntu.Magnet.{strip}
use tuntu.Auth.{
  User, Login, SetupToken, AuthTables, authentication_required, invalid_credentials,
  setup_token_invalid, setup_username_mismatch, not_unique, Outcome, granted, denied, Library,
  within, close_session, bind, is_none, is_active, validate_username, validate_password,
  SecretGrant,
}

pub record AuthenticatedUser : Type 0 where
  pub id : ℕ
  pub username : Text

abbrev pub authenticated : User → AuthenticatedUser
authenticated u = record { id = u.id; username = u.username }

-- `UPDATE sessions SET revoked_at = now WHERE … AND revoked_at IS NULL`
unfoldable pub revoke : (Login → Bool) → ℕ → Login → Login
revoke p now s = if p s && is_none s.revoked_at then record s { revoked_at = some now } else s

-- The row of the user is written back.
abbrev pub put_user : User → List User → List User
put_user u users = map (λ (v : User). if v.id == u.id then u else v) users

module _ (lib : Library) where
  -- The row that `UPDATE setup_tokens` claims.
  abbrev pub is_claimed : ℕ → Text → SetupToken → Bool
  is_claimed now token t = t.token_hash == lib.token_hash token && is_active now t

  abbrev pub claim_token : ℕ → Text → SetupToken → SetupToken
  claim_token now token t = if is_claimed now token t then record t { used_at = some now } else t

  -- The first user, if there is one, is given the new password; otherwise one is made.
  abbrev pub set_owner :
      (now new_id : ℕ)
      → Text
      → Text
      → List User
      → AuthTables
      → Outcome (AuthenticatedUser × AuthTables)
  set_owner now new_id username password_hash [] db =
      let user : User = record {
        id = new_id;
        username = username;
        password_hash = password_hash;
        session_version = 1;
      } in
      granted (authenticated user, record db { users = user ∷ [] })
  set_owner now new_id username password_hash (user ∷ rest) db =
      if not (lib.casefold user.username == lib.casefold username)
      then denied setup_username_mismatch
      else granted (
        authenticated user,
        record db {
          users =
              put_user
                (record user {
                  password_hash = password_hash;
                  session_version = user.session_version + 1;
                })
                db.users;
          sessions = map (revoke (λ s. true) now) db.sessions;
        },
      )

  abbrev pub spend_token :
      (now new_id : ℕ) → Text → Text → Text → AuthTables → Outcome (AuthenticatedUser × AuthTables)
  spend_token now new_id token username password_hash db =
      let db' = record db { setup_tokens = map (claim_token now token) db.setup_tokens } in
      if not (length (keep (is_claimed now token) db.setup_tokens) == 1)
      then denied setup_token_invalid
      else set_owner now new_id username password_hash db'.users db'

  unfoldable pub consume_setup_token :
      (now new_id salt : ℕ) (token username password : Text)
      → AuthTables
      → Outcome AuthenticatedUser × AuthTables
  consume_setup_token now new_id salt token username password db = within db (
      bind (validate_username username) λ name.
        bind (validate_password password)
          λ _. spend_token now new_id token name (lib.hash salt password) db)

  abbrev pub rehashed : ℕ → Text → User → User
  rehashed salt password user =
      if lib.check_needs_rehash user.password_hash
      then record user { password_hash = lib.hash salt password }
      else user

  abbrev pub new_login : (ttl now : ℕ) → Text → Text → User → Login
  new_login ttl now session_id raw user = record {
    id = session_id;
    user_id = user.id;
    token_hash = lib.token_hash raw;
    expires_at = now + ttl;
    revoked_at = none;
  }

  abbrev pub open_session :
      (ttl now salt : ℕ)
      → (session_id raw password : Text) → User
      → AuthTables
      → Outcome (SecretGrant × AuthTables)
  open_session ttl now salt session_id raw password user db =
      let login = new_login ttl now session_id raw user in
      if any (λ (s : Login). s.id == session_id || s.token_hash == login.token_hash) db.sessions
      then denied not_unique
      else granted (
        record { token = raw; expires_at = now + ttl },
        record db {
          users = put_user (rehashed salt password user) db.users;
          sessions = login ∷ db.sessions;
        },
      )

  abbrev pub login_as :
      (ttl now salt : ℕ)
      → (session_id raw password : Text) → Option User
      → AuthTables
      → Outcome (SecretGrant × AuthTables)
  login_as ttl now salt session_id raw password none db = denied invalid_credentials
  login_as ttl now salt session_id raw password (some user) db =
      if not (lib.verify user.password_hash password)
      then denied invalid_credentials
      else open_session ttl now salt session_id raw password user db

  unfoldable pub login :
      (ttl now salt : ℕ) (session_id raw username password : Text)
      → AuthTables
      → Outcome SecretGrant × AuthTables
  login ttl now salt session_id raw username password db =
      let normalized = lib.casefold (strip username) in
      within db (
        login_as ttl now salt session_id raw password
          (first (λ (u : User). lib.lower u.username == normalized) db.users) db)

  -- The session of a token, and the user that it belongs to.
  abbrev pub session_of : Text → AuthTables → Option Login
  session_of token db = first (λ (s : Login). s.token_hash == lib.token_hash token) db.sessions

  abbrev pub user_of : ℕ → AuthTables → Option User
  user_of id db = first (λ (u : User). u.id == id) db.users

  abbrev pub renew : ℕ → Login → Login → Login
  renew expires_at s t = if t.id == s.id then record t { expires_at = expires_at } else t

  -- `if session_row.revoked_at is None: session_row.revoked_at = now`
  abbrev pub mark_expired : ℕ → Login → Login → Login
  mark_expired now s t =
      if t.id == s.id && is_none t.revoked_at then record t { revoked_at = some now } else t

  -- The body of the session: what it returns or raises, and the rows as it leaves them.
  abbrev pub admit :
      (ttl now : ℕ)
      → Option Login
      → Option User
      → AuthTables
      → Outcome AuthenticatedUser × AuthTables
  admit ttl now none user db = (denied authentication_required, db)
  admit ttl now (some s) none db = (denied authentication_required, db)
  admit ttl now (some s) (some user) db =
      if not (is_none s.revoked_at) || leb s.expires_at now
      then (
        denied authentication_required,
        record db { sessions = map (mark_expired now s) db.sessions },
      )
      else (
        granted (authenticated user),
        record db { sessions = map (renew (now + ttl) s) db.sessions },
      )

  abbrev pub joined_user : Option Login → AuthTables → Option User
  joined_user none db = none
  joined_user (some s) db = user_of s.user_id db

  unfoldable pub authenticate :
      (ttl now : ℕ) → Text → AuthTables → Outcome AuthenticatedUser × AuthTables
  authenticate ttl now [] db = (denied authentication_required, db)
  authenticate ttl now (c ∷ token) db =
      let s = session_of (c ∷ token) db in close_session db (admit ttl now s (joined_user s db) db)

  unfoldable pub logout : ℕ → Text → AuthTables → AuthTables
  logout now [] db = db
  logout now (c ∷ token) db = record db {
    sessions = map (revoke (λ s. s.token_hash == lib.token_hash (c ∷ token)) now) db.sessions;
  }

  abbrev pub replace_password :
      (now : ℕ)
      → (new_hash current : Text) → Option User
      → AuthTables
      → Outcome (Unit {0} × AuthTables)
  replace_password now new_hash current none db = denied invalid_credentials
  replace_password now new_hash current (some user) db =
      if not (lib.verify user.password_hash current)
      then denied invalid_credentials
      else granted (
        tt,
        record db {
          users =
              put_user
                (record user {
                  password_hash = new_hash;
                  session_version = user.session_version + 1;
                })
                db.users;
          sessions = map (revoke (λ s. s.user_id == user.id) now) db.sessions;
        },
      )

  -- The second session, for a user who is authenticated.
  abbrev pub change_for :
      (later salt : ℕ)
      → (current new : Text) → Outcome AuthenticatedUser × AuthTables
      → Outcome (Unit {0}) × AuthTables
  change_for later salt current new (denied d, db) = (denied d, db)
  change_for later salt current new (granted u, db) = within db (
      bind (validate_password new)
        λ _. replace_password later (lib.hash salt new) current (user_of u.id db) db)

  unfoldable pub change_password :
      (ttl now later salt : ℕ) (token current new : Text)
      → AuthTables
      → Outcome (Unit {0}) × AuthTables
  change_password ttl now later salt token current new db =
      change_for later salt current new (authenticate ttl now token db)
