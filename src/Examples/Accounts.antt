-- ===== src/Examples/Accounts.antt =====
-- The theorems on accounts at a concrete user.
use tuntu.Prelude.{
  first, list_eq, nat_eq, ◌==◌, ◌+◌, ◌≡◌, ◌≢◌, refl, arith, true, false, some, none, [], ◌∷◌, map,
  Text, codes,
}
use tuntu.Magnet.{lower, strip}
use tuntu.Auth.{
  User, AuthTables, Library, granted, denied, authentication_required, validate_username,
  validate_password, SecretGrant,
}
use tuntu.Auth.Service.{login, authenticate, change_password, consume_setup_token}
use tuntu.Auth.Sessions.{change_password-revokes}
use tuntu.Auth.Admits.{Admits}
use tuntu.Auth.Logins.{login-authenticate}
use tuntu.Auth.Setup.{consume_setup_token_once}

-- An account, with a library that hashes nothing.
abbrev plain_library : Library
plain_library = record {
  token_hash = λ t. t;
  hash = λ salt password. password;
  verify = λ stored password. stored == password;
  check_needs_rehash = λ stored. false;
  casefold = map lower;
  lower = map lower;
}

abbrev secret : Text
secret = codes "correct horse"

abbrev other_secret : Text
other_secret = codes "battery staple"

abbrev raw_token : Text
raw_token = codes "t"

abbrev owner : User
owner = record { id = 1; username = codes "owner"; password_hash = secret; session_version = 1 }

abbrev owned : AuthTables
owned = record { users = owner ∷ []; sessions = []; setup_tokens = [] }

abbrev logged_in : AuthTables
logged_in = (login plain_library 50 10 0 (codes "s") raw_token (codes "Owner") secret owned).1

abbrev grant : SecretGrant
grant = record { token = raw_token; expires_at = 60 }

login-authenticate_example :
    (v : User) × (first
        (λ (u : User). map lower u.username == map lower (strip (codes "Owner")))
        owned.users
      ≡ some v)
    × ((v.password_hash == secret) ≡ true)
    × (grant.expires_at ≡ 10 + 50)
    × ((authenticate plain_library 50 20 raw_token logged_in).0
        ≡ granted (record { id = v.id; username = v.username }))
unfolding login strip
login-authenticate_example =
    login-authenticate plain_library 50 10 20 0 (codes "s") raw_token (codes "Owner") secret owned
      logged_in grant refl (omega arith) refl

abbrev new_password_set : AuthTables
new_password_set =
    (change_password plain_library 50 20 21 0 raw_token secret other_secret logged_in).1

change_password-revokes_example :
    (authenticate plain_library 50 30 raw_token new_password_set).0 ≡ denied authentication_required
unfolding change_password authenticate login validate_password strip
change_password-revokes_example =
    change_password-revokes plain_library 50 20 21 0 30 raw_token secret other_secret logged_in
      new_password_set refl

abbrev set_up : AuthTables
set_up = record {
  users = [];
  sessions = [];
  setup_tokens = record { token_hash = raw_token; expires_at = 90; used_at = none } ∷ [];
}

abbrev set_up_done : AuthTables
set_up_done = (consume_setup_token plain_library 20 1 0 raw_token (codes "owner") secret set_up).1

consume_setup_token_once_example :
    consume_setup_token plain_library 30 2 0 raw_token (codes "other") secret set_up_done
    ≢ (granted (record { id = 2; username = codes "other" }), set_up_done)
unfolding consume_setup_token validate_username validate_password strip
consume_setup_token_once_example =
    consume_setup_token_once plain_library 20 1 0 30 2 0 raw_token (codes "owner") secret
      (codes "other") secret set_up set_up_done set_up_done
      (record { id = 1; username = codes "owner" }) (record { id = 2; username = codes "other" })
      (omega arith) refl
