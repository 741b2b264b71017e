-- ===== src/Auth/Admits.antt =====
-- Whom `authenticate` of src/tuntu/auth.py lets in.
use tuntu.Prelude.{
  ℕ, ◌+◌, ◌≡◌, Bool, true, false, not, ◌||◌, Option, none, some, map, Text, is_empty, leb, ◌<◌,
  nat_eq, list_eq,
}
use tuntu.Auth.{User, Login, AuthTables, Outcome, granted, Library, is_none}
use tuntu.Auth.Service.{AuthenticatedUser, authenticated, session_of, user_of, renew}

module _ (lib : Library) where
  -- The rows that let a token in.
  pub record Admits (now : ℕ) (token : Text) (db : AuthTables) (s : Login) (v : User) : Type 0 where
    pub given : is_empty token ≡ false
    pub row : session_of lib token db ≡ some s
    pub owner : user_of lib s.user_id db ≡ some v
    pub current : is_none s.revoked_at ≡ true
    pub early : now < s.expires_at

  -- What `authenticate` does to the rows, and whom it returns.
  abbrev pub admitted :
      (ttl now : ℕ) → Login → User → AuthTables → Outcome AuthenticatedUser × AuthTables
  admitted ttl now s v db = (
    granted (authenticated v),
    record db { sessions = map (renew lib (now + ttl) s) db.sessions },
  )

  abbrev pub NoneAdmits : ℕ → Text → AuthTables → Type 0
  NoneAdmits now token db = ¬ ((s : Login) × (v : User) × Admits now token db s v)

  is_over : (now : ℕ) → Option Login → Bool
  is_over now none = true
  is_over now (some s) = not (is_none s.revoked_at) || leb s.expires_at now
