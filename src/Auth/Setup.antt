-- ===== src/Auth/Setup.antt =====
-- A set-up token is good for one use.
use tuntu.Prelude.{
  ℕ, ◌≡◌, ◌≢◌, refl, false, List, [], ◌∷◌, map, length, keep, Text, ◌==◌, nat_eq, list_eq, arith,
  Bool-cases, inl, inr, ◌≤◌,
}
use tuntu.Auth.{
  User, SetupToken, AuthTables, granted, Library, validate_username, validate_password,
}
use tuntu.Auth.Service.{
  AuthenticatedUser, is_claimed, claim_token, consume_setup_token, spend_token, set_owner,
}
use tuntu.Auth.Sessions.{within-granted, bind-granted}

module _ (lib : Library) where
  not_twice :
      (now now' : ℕ) (token : Text) (t : SetupToken)
      → now ≤ now'
      → is_claimed lib now' token (claim_token lib now token t) ≡ false
  not_twice now now' token t order = ground (arith, order)

  claimed_once :
      (now now' : ℕ) (token : Text) (ts : List SetupToken)
      → now ≤ now'
      → keep (is_claimed lib now' token) (map (claim_token lib now token) ts) ≡ []
  claimed_once now now' token [] order = refl
  claimed_once now now' token (t ∷ ts) order =
      rw (not_twice now now' token t order) (claimed_once now now' token ts order)

  set_owner-tokens :
      (now new_id : ℕ) (name hash : Text) (users : List User) (db db' : AuthTables)
      (u : AuthenticatedUser)
      → set_owner lib now new_id name hash users db ≡ granted (u, db')
      → db'.setup_tokens ≡ db.setup_tokens
  set_owner-tokens now new_id name hash [] db db' u h = ground (arith, h)
  set_owner-tokens now new_id name hash (v ∷ vs) db db' u h = ground (arith, h)

  spend_token-tokens :
      (now new_id : ℕ) (token name hash : Text) (db db' : AuthTables) (u : AuthenticatedUser)
      → spend_token lib now new_id token name hash db ≡ granted (u, db')
      → (db'.setup_tokens ≡ map (claim_token lib now token) db.setup_tokens)
        × (length (keep (is_claimed lib now token) db.setup_tokens) ≡ 1)
  spend_token-tokens now new_id token name hash db db' u h =
      elim (Bool-cases (length (keep (is_claimed lib now token) db.setup_tokens) == 1)) [
        | inl one ↦ (
          set_owner-tokens now new_id name hash db.users _ db' u (rw one at h),
          ground (arith, one),
        )
        | inr other ↦ absurd (ground (arith, h, other))
      ]

  consume-tokens :
      (now new_id salt : ℕ) (token username password : Text) (db db' : AuthTables)
      (u : AuthenticatedUser)
      → consume_setup_token lib now new_id salt token username password db ≡ (granted u, db')
      → (db'.setup_tokens ≡ map (claim_token lib now token) db.setup_tokens)
        × (length (keep (is_claimed lib now token) db.setup_tokens) ≡ 1)
  unfolding consume_setup_token
  consume-tokens now new_id salt token username password db db' u h =
      let (name, _, k) =
        bind-granted (validate_username username) _ (within-granted db _ u db' h) in
      let (_, _, l) = bind-granted (validate_password password) _ k in
      spend_token-tokens now new_id token name (lib.hash salt password) db db' u l

  -- A set-up token that was accepted once is accepted at no later time, whatever name and password
  -- come with it.
  pub consume_setup_token_once :
      (now new_id salt now' new_id' salt' : ℕ) (token username password username' password' : Text)
      (db db' db'' : AuthTables) (u u' : AuthenticatedUser)
      → now ≤ now'
      → consume_setup_token lib now new_id salt token username password db ≡ (granted u, db')
      → consume_setup_token lib now' new_id' salt' token username' password' db'
        ≢ (granted u', db'')
  consume_setup_token_once now new_id salt now' new_id' salt' token username password username'
        password' db db' db'' u u' order h again =
      let (spent, _) = consume-tokens now new_id salt token username password db db' u h in
      let (_, one) =
        consume-tokens now' new_id' salt' token username' password' db' db'' u' again in
      let none_left : keep (is_claimed lib now' token) db'.setup_tokens ≡ [] =
        rw spent (claimed_once now now' token db.setup_tokens order) in
      absurd (ground (arith, one, none_left))
