-- ===== src/Auth/Logins.antt =====
-- A login and the session that it opens.
use tuntu.Prelude.{
  ℕ, ◌+◌, ◌≡◌, refl, sym, ap, ◌∙◌, subst, Bool, true, false, ◌||◌, Option, none, some, List, [],
  ◌∷◌, first, any, is_empty, Text, leb, ◌==◌, nat_eq, list_eq, arith, beq_self, Bool-cases, inl,
  inr, ◌<◌,
}
use tuntu.Magnet.{strip}
use tuntu.Auth.{User, Login, AuthTables, granted, Library, close_session, SecretGrant}
use tuntu.Auth.Service.{
  AuthenticatedUser, authenticated, put_user, rehashed, new_login, login_as, login, session_of,
  user_of, joined_user, admit, authenticate,
}
use tuntu.Auth.Sessions.{within-granted}

-- The row that was written back is the one that is found.
first-put_user :
    (u : User) (users : List User)
    → any (λ (w : User). w.id == u.id) users ≡ true
    → first (λ (w : User). w.id == u.id) (put_user u users) ≡ some u
first-put_user u [] h = absurd (cc)
first-put_user u (w ∷ ws) h = elim (Bool-cases (w.id == u.id)) [
  | inl same ↦ rw same (rw (beq_self u.id) refl)
  | inr apart ↦ rw apart (rw apart (first-put_user u ws (ground (arith, h, apart))))
]

any-first :
    (p : User → Bool) (users : List User) {u : User}
    → first p users ≡ some u
    → any (λ (w : User). w.id == u.id) users ≡ true
any-first p [] h = absurd (cc)
any-first p (w ∷ ws) {u = u} h = elim (Bool-cases (p w)) [
  | inl found ↦
      let here : some w ≡ some u = rw found at h in
      let same : w ≡ u = ap (λ (o : Option User). elim o [ none ↦ w | some x ↦ x ]) here in
      subst (λ (x : User). (w.id == x.id || any (λ (v : User). v.id == x.id) ws) ≡ true) same
        (rw (beq_self w.id) refl)
  | inr missed ↦ ground (arith, any-first p ws (rw missed at h))
]

module _ (lib : Library) where
  login_as-granted :
      (ttl now salt : ℕ) (session_id raw password : Text) (found : Option User)
      (db db' : AuthTables) (g : SecretGrant)
      → login_as lib ttl now salt session_id raw password found db ≡ granted (g, db')
      → (v : User) × (found ≡ some v)
        × (lib.verify v.password_hash password ≡ true)
        × (g ≡ record { token = raw; expires_at = now + ttl })
        × (db'.users ≡ put_user (rehashed lib salt password v) db.users)
        × (db'.sessions ≡ new_login lib ttl now session_id raw v ∷ db.sessions)
  login_as-granted ttl now salt session_id raw password none db db' g h = absurd (cc)
  login_as-granted ttl now salt session_id raw password (some v) db db' g h =
      (v, refl, ground (arith, h), ground (arith, h), ground (arith, h), ground (arith, h))

  rehashed-same :
      (salt : ℕ) (password : Text) (v : User)
      → authenticated (rehashed lib salt password v) ≡ authenticated v
  rehashed-same salt password v = elim (Bool-cases (lib.check_needs_rehash v.password_hash)) [
    | inl old ↦ rw old refl
    | inr current ↦ rw current refl
  ]

  admit_new :
      (ttl now later : ℕ) (session_id raw : Text) (v w : User) (db : AuthTables)
      → later < now + ttl
      → (close_session db
          (admit lib ttl later (some (new_login lib ttl now session_id raw v)) (some w) db)).0
        ≡ granted (authenticated w)
  admit_new ttl now later session_id raw v w db early =
      let e : leb (now + ttl) later ≡ false = ground (arith, early) in rw e refl

  opened :
      (ttl now later salt : ℕ) (session_id token password : Text) (v : User) (db db' : AuthTables)
      → is_empty token ≡ false
      → later < now + ttl
      → any (λ (w : User). w.id == v.id) db.users ≡ true
      → db'.users ≡ put_user (rehashed lib salt password v) db.users
      → db'.sessions ≡ new_login lib ttl now session_id token v ∷ db.sessions
      → (authenticate lib ttl later token db').0 ≡ granted (authenticated v)
  unfolding authenticate
  opened ttl now later salt session_id [] password v db db' some_token early there users sessions =
      absurd (cc)
  opened ttl now later salt session_id (c ∷ token) password v db db' some_token early there users
        sessions =
      let s = new_login lib ttl now session_id (c ∷ token) v in
      let found : session_of lib (c ∷ token) db' ≡ some s =
        rw (sessions, beq_self (lib.token_hash (c ∷ token))) refl in
      let u = rehashed lib salt password v in
      let id : u.id ≡ v.id = ap (λ (a : AuthenticatedUser). a.id) (rehashed-same salt password v) in
      let owner : user_of lib v.id db' ≡ some u =
        subst (λ (i : ℕ). first (λ (w : User). w.id == i) db'.users ≡ some u) id
          (rw users (
            first-put_user u db.users
              (subst (λ (i : ℕ). any (λ (w : User). w.id == i) db.users ≡ true) (sym id) there))) in
      let seen : joined_user lib (session_of lib (c ∷ token) db') db' ≡ some u =
        ap (λ (o : Option Login). joined_user lib o db') found ∙ owner in
      subst
        (λ (o : Option Login).
          (close_session db'
            (admit lib ttl later o (joined_user lib (session_of lib (c ∷ token) db') db') db')).0
          ≡ granted (authenticated v))
        (sym found)
        (subst
          (λ (o : Option User).
            (close_session db' (admit lib ttl later (some s) o db')).0 ≡ granted (authenticated v))
          (sym seen)
          (admit_new ttl now later session_id (c ∷ token) v u db' early
            ∙ ap granted (rehashed-same salt password v)))

  -- A login returns a token and its expiry, the lifetime of a session from now. Until then, that token
  -- authenticates the user whose name the login gave and whose password it was.
  pub login-authenticate :
      (ttl now later salt : ℕ) (session_id raw username password : Text) (db db' : AuthTables)
      (g : SecretGrant)
      → is_empty g.token ≡ false
      → later < g.expires_at
      → login lib ttl now salt session_id raw username password db ≡ (granted g, db')
      → (v : User) × (first
            (λ (u : User). lib.lower u.username == lib.casefold (strip username))
            db.users
          ≡ some v)
        × (lib.verify v.password_hash password ≡ true)
        × (g.expires_at ≡ now + ttl)
        × ((authenticate lib ttl later g.token db').0
            ≡ granted (record { id = v.id; username = v.username }))
  unfolding login
  login-authenticate ttl now later salt session_id raw username password db db' g some_token early
        h =
      let named = λ (u : User). lib.lower u.username == lib.casefold (strip username) in
      let (v, found, verified, same, users, sessions) =
        login_as-granted ttl now salt session_id raw password (first named db.users) db db' g
          (within-granted db _ g db' h) in
      let token : g.token ≡ raw = ap (λ (x : SecretGrant). x.token) same in
      let expiry : g.expires_at ≡ now + ttl = ap (λ (x : SecretGrant). x.expires_at) same in
      (
        v,
        found,
        verified,
        expiry,
        subst
            (λ (t : Text).
              (authenticate lib ttl later t db').0
              ≡ granted (record { id = v.id; username = v.username }))
            (sym token)
            (opened ttl now later salt session_id raw password v db db'
              (ap is_empty (sym token) ∙ some_token) (omega (arith, early, expiry))
              (any-first named db.users found) users sessions),
      )
