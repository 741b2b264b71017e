-- ===== src/Auth/Sessions.antt =====
-- What a password change and a set-up token do to the sessions.
use tuntu.Prelude.{
  ℕ, ◌+◌, ◌≡◌, refl, sym, ap, ◌∙◌, subst, Bool, true, false, Option, none, some, List, [], ◌∷◌, map,
  first, first-test, Text, ◌==◌, nat_eq, list_eq, arith, Bool-cases, inl, inr,
}
use tuntu.Auth.{
  User, Login, AuthTables, authentication_required, Outcome, granted, denied, Library, within,
  close_session, bind, is_none, validate_password,
}
use tuntu.Auth.Service.{
  AuthenticatedUser, revoke, session_of, user_of, joined_user, renew, admit, authenticate,
  replace_password, change_for, change_password,
}

pub within-granted {ℓ} :
    {A : Type ℓ} (db : AuthTables) (r : Outcome (A × AuthTables)) (a : A) (db' : AuthTables)
    → within db r ≡ (granted a, db')
    → r ≡ granted (a, db')
within-granted db (granted (b, d)) a db' h =
    ap
      (λ (p : Outcome _ × AuthTables). elim p.0 [
        | granted c ↦ granted (c, p.1)
        | denied e ↦ denied e
      ])
      h
within-granted db (denied d) a db' h = absurd (cc)

pub close_session-granted {ℓ} :
    {A : Type ℓ} (db : AuthTables) (r : Outcome A × AuthTables) (a : A) (db' : AuthTables)
    → close_session db r ≡ (granted a, db')
    → r ≡ (granted a, db')
close_session-granted db (granted b, d) a db' h = h
close_session-granted db (denied d, mid) a db' h = absurd (cc)

pub bind-granted {ℓ κ} :
    {A : Type ℓ} {B : Type κ} (r : Outcome A) (f : A → Outcome B) {b : B}
    → bind r f ≡ granted b
    → (a : A) × (r ≡ granted a) × (f a ≡ granted b)
bind-granted (granted a) f h = (a, refl, h)
bind-granted (denied d) f h = absurd (cc)

-- Rows that are changed in other columns are found as before.
first-map {ℓ} :
    {A : Type ℓ} (p : A → Bool) (f : A → A) (xs : List A) {a : A}
    → ((x : A) → p (f x) ≡ p x)
    → first p xs ≡ some a
    → first p (map f xs) ≡ some (f a)
first-map p f [] same h = absurd (cc)
first-map p f (x ∷ xs) {a = a} same h = elim (Bool-cases (p x)) [
  | inl e ↦ rw (same x, e) (ap (λ y. some (f y)) (ground (arith, e, h)))
  | inr e ↦ rw (same x, e) (first-map p f xs same (rw e at h))
]

module _ (lib : Library) where
  -- A revoked session is not admitted, whoever it belongs to.
  admit_revoked :
      (ttl now : ℕ) (s : Login) (user : Option User) (db : AuthTables)
      → is_none s.revoked_at ≡ false
      → (close_session db (admit lib ttl now (some s) user db)).0 ≡ denied authentication_required
  admit_revoked ttl now s none db h = refl
  admit_revoked ttl now s (some u) db h = rw h refl

  admit-granted :
      (ttl now : ℕ) (found : Option Login) (user : Option User) (db db' : AuthTables)
      (u : AuthenticatedUser)
      → admit lib ttl now found user db ≡ (granted u, db')
      → (s : Login) × (v : User) × (found ≡ some s)
        × (user ≡ some v)
        × (u.id ≡ v.id)
        × (db'.sessions ≡ map (renew lib (now + ttl) s) db.sessions)
  admit-granted ttl now none user db db' u h = absurd (cc)
  admit-granted ttl now (some s) none db db' u h = absurd (cc)
  admit-granted ttl now (some s) (some v) db db' u h =
      (s, v, refl, refl, ground (arith, h), ground (arith, h))

  authenticate-granted :
      (ttl now : ℕ) (token : Text) (db db' : AuthTables) (u : AuthenticatedUser)
      → authenticate lib ttl now token db ≡ (granted u, db')
      → (s : Login) × (session_of lib token db ≡ some s)
        × (s.user_id ≡ u.id)
        × (db'.sessions ≡ map (renew lib (now + ttl) s) db.sessions)
  unfolding authenticate
  authenticate-granted ttl now [] db db' u h = absurd (cc)
  authenticate-granted ttl now (c ∷ token) db db' u h =
      let found = session_of lib (c ∷ token) db in
      let (s, v, there, user, same, sessions) =
        admit-granted ttl now found (joined_user lib found db) db db' u (
          close_session-granted db (admit lib ttl now found (joined_user lib found db) db) u db'
            h) in
      let owner : user_of lib s.user_id db ≡ some v =
        sym (ap (λ (o : Option Login). joined_user lib o db) there) ∙ user in
      let own : (v.id == s.user_id) ≡ true =
        first-test (λ (w : User). w.id == s.user_id) db.users owner in
      (s, there, ground (arith, own, same), sessions)

  replace_password-granted :
      (now : ℕ) (new_hash current : Text) (found : Option User) (db db' : AuthTables) {x : Unit {0}}
      → replace_password lib now new_hash current found db ≡ granted (x, db')
      → (v : User) × (found ≡ some v)
        × (db'.sessions ≡ map (revoke (λ s. s.user_id == v.id) now) db.sessions)
  replace_password-granted now new_hash current none db db' h = absurd (cc)
  replace_password-granted now new_hash current (some v) db db' h = (v, refl, ground (arith, h))

  changed_sessions :
      (now salt : ℕ) (current new : Text) (id : ℕ) (db db' : AuthTables) {x : Unit {0}}
      → within db (
          bind
            (validate_password new)
            λ _. replace_password lib now (lib.hash salt new) current (user_of lib id db) db)
        ≡ (granted x, db')
      → (v : User) × (v.id ≡ id)
        × (db'.sessions ≡ map (revoke (λ s. s.user_id == v.id) now) db.sessions)
  changed_sessions now salt current new id db db' {x = x} h =
      let (_, _, k) = bind-granted (validate_password new) _ (within-granted db _ x db' h) in
      let (v, there, sessions) =
        replace_password-granted now (lib.hash salt new) current (user_of lib id db) db db' k in
      (v, ground (arith, first-test (λ (w : User). w.id == id) db.users there), sessions)

  renew-token :
      (expires_at : ℕ) (s t : Login) → (renew lib expires_at s t).token_hash ≡ t.token_hash
  renew-token expires_at s t = ground arith

  renew-user : (expires_at : ℕ) (s t : Login) → (renew lib expires_at s t).user_id ≡ t.user_id
  renew-user expires_at s t = ground arith

  revoke-token :
      (p : Login → Bool) (now : ℕ) (t : Login) → (revoke p now t).token_hash ≡ t.token_hash
  unfolding revoke
  revoke-token p now t = ground arith

  revoke-is_none :
      (p : Login → Bool) (now : ℕ) (t : Login)
      → p t ≡ true
      → is_none (revoke p now t).revoked_at ≡ false
  unfolding revoke
  revoke-is_none p now t h = ground (arith, h)

  authenticate_revoked :
      (ttl now : ℕ) (token : Text) (db : AuthTables) (s : Login)
      → session_of lib token db ≡ some s
      → is_none s.revoked_at ≡ false
      → (authenticate lib ttl now token db).0 ≡ denied authentication_required
  unfolding authenticate
  authenticate_revoked ttl now [] db s there revoked = refl
  authenticate_revoked ttl now (c ∷ token) db s there revoked =
      subst
        (λ (o : Option Login).
          (close_session db (admit lib ttl now o (joined_user lib o db) db)).0
          ≡ denied authentication_required)
        (sym there) (admit_revoked ttl now s (joined_user lib (some s) db) db revoked)

  revoked_after :
      (ttl now later salt ttl' now' : ℕ) (token current new : Text) (db db' : AuthTables)
      (first_step : Outcome AuthenticatedUser × AuthTables)
      → authenticate lib ttl now token db ≡ first_step
      → change_for lib later salt current new first_step ≡ (granted tt, db')
      → (authenticate lib ttl' now' token db').0 ≡ denied authentication_required
  revoked_after ttl now later salt ttl' now' token current new db db' (denied d, mid) step h =
      absurd (cc)
  revoked_after ttl now later salt ttl' now' token current new db db' (granted u, mid) step h =
      let (s, there, own, renewed) = authenticate-granted ttl now token db mid u step in
      let (v, same, changed) = changed_sessions later salt current new u.id mid db' h in
      let has_token = λ (t : Login). t.token_hash == lib.token_hash token in
      let gone = λ (t : Login). t.user_id == v.id in
      let r = renew lib (now + ttl) s s in
      let found_mid : first has_token (map (renew lib (now + ttl) s) db.sessions) ≡ some r =
        first-map has_token (renew lib (now + ttl) s) db.sessions
          (λ t. ap (λ (x : Text). x == lib.token_hash token) (renew-token (now + ttl) s t)) there in
      let found : session_of lib token db' ≡ some (revoke gone later r) =
        rw (changed, renewed)
          (first-map has_token (revoke gone later) (map (renew lib (now + ttl) s) db.sessions)
            (λ t. ap (λ (x : Text). x == lib.token_hash token) (revoke-token gone later t))
            found_mid) in
      authenticate_revoked ttl' now' token db' (revoke gone later r) found
        (revoke-is_none gone later r (ground (arith, renew-user (now + ttl) s s, own, same)))

  -- Once `change_password` has returned, the token that it was called with authenticates no one, at
  -- whatever time it is tried.
  pub change_password-revokes :
      (ttl now later salt now' : ℕ) (token current new : Text) (db db' : AuthTables)
      → change_password lib ttl now later salt token current new db ≡ (granted tt, db')
      → (authenticate lib ttl now' token db').0 ≡ denied authentication_required
  unfolding change_password
  change_password-revokes ttl now later salt now' token current new db db' h =
      revoked_after ttl now later salt ttl now' token current new db db'
        (authenticate lib ttl now token db) refl h
