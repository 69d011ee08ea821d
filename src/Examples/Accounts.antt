-- ===== src/Examples/Accounts.antt =====
-- Accounts: sign-in, tokens, names and deletion on small tables, with a toy token format.
use convoy_backend.Web.{refusal}
use convoy_backend.Auth.SignIn.{upsert_oauth_user-SignedIn, SignedIn, sign_in_again}
use convoy_backend.Auth.Closing.{Closed-refuses, erased-Closed, delete_account-Closed, Closed}
use convoy_backend.Httpx.{err_internal, connection_lost, err_unauthorized}
use convoy_backend.Auth.Naming.{guest-split_rune, guest-Enrolled, Unserved, Served}
use convoy_backend.Text.Cut.{byte_len, cut, cut_over}
use convoy_backend.Auth.Deletion.{erase, delete_account}
use convoy_backend.Exec.Leads.{Outcome, Leads}
use convoy_backend.Auth.Guest.{guest, handle_guest, insert_user_rows, insert_user, GuestRequest}
use convoy_backend.Auth.OAuth.{insert_identity_rows, upsert_oauth_user}
use convoy_backend.Auth.Providers.{
  verify-Vetted, google_identity, google_verified, google_issuers, Vetted, bool_flag, google_verify,
  Identity, IdParser, IdClaims,
}
use convoy_backend.Base.{
  lt→ltb, ◌∙◌, ◌∙◌, sym, ap, arith, ◌⊎◌, true, ◌⊎◌, false, zero, refl, length, ltb, suc, ◌≤◌, ◌≡◌,
  if◌then◌else◌, ◌∷◌, some, ◌≤◌, [], if◌then◌else◌, ◌≡◌, none, Option, ◌++◌, ◌∷◌,
}
use convoy_backend.Examples.{body, ℕ, ◌∷◌, some, users_only, convoy, session_of}
use convoy_backend.Text.{same_text, runes, trim_space, Text}
use convoy_backend.Exec.{ok, err, attempt, pure, raise, ◌>>=◌}
use convoy_backend.Schema.{Db}
use convoy_backend.Schema.Query.{OnDb, read, write, transaction}
use convoy_backend.Auth.Tokens.{Jwt, Parsed, Signer, issue}
use convoy_backend.Auth.Users.{Account, authenticate, bearer, load_user}
use convoy_backend.Auth.Session.{Documented, authenticate-issue}

-- a token is its expiry and its subject
abbrev parse_toy : ℕ → Text → Option Parsed
parse_toy now [] = none
parse_toy now (e ∷ s) = if ltb now e then some (record { valid = true; sub = some s }) else none

abbrev first_code : Text → Option ℕ
first_code [] = none
first_code (c ∷ s) = some c

abbrev toy : Jwt
toy = record {
  signed = λ secret c. some (c.exp ∷ c.sub);
  parse = λ key now token. parse_toy now token;
  uuid_text = λ id. id ∷ [];
  uuid_parse = first_code;
}

abbrev signer : Signer
signer = record { jwt = toy; secret = b's' ∷ []; ttl = 30 }

toy-Documented : Documented toy
toy-Documented = record {
  parses = λ secret token c key now e k l.
      let same : c.exp ∷ c.sub ≡ token = cc e in
      ap (parse_toy now) (sym same) ∙ rw (lt→ltb _ _ l) refl;
  expires = λ secret token c key now e k l.
      let same : c.exp ∷ c.sub ≡ token = cc e in
      ap (parse_toy now) (sym same) ∙ rw (not_before now c.exp l) refl;
  reads = λ id. refl;
}
  where
    not_before : (now e : ℕ) → e ≤ now → ltb now e ≡ false
    not_before now e l = ground arith

-- the token of user 7, of the time 10, used at 20
abbrev token : Text
token = 40 ∷ 7 ∷ []

authenticate-issue_example :
    authenticate signer 20 (bearer ++ token) (session_of convoy) ≡ load_user 7 (session_of convoy)
unfolding issue
authenticate-issue_example =
    authenticate-issue signer toy-Documented 7 10 token refl 20 (session_of convoy)

abbrev ada : Account
ada = record { id = 7; display_name = b'U' ∷ []; avatar_url = none; email = none }

deleted_ada : Closed 7 convoy (delete_account (some ada) (session_of convoy)).1.db
unfolding delete_account erase transaction write ◌>>=◌ pure
deleted_ada = erased-Closed 7 201 202 203 convoy

delete_account-Closed_example : Closed 7 convoy (delete_account (some ada) (session_of convoy)).1.db
unfolding delete_account erase transaction write ◌>>=◌ pure
delete_account-Closed_example =
    ((delete_account-Closed ada convoy).at (session_of convoy) (record { holds = refl })).holds

Closed-refuses_example :
    ((authenticate signer 20
        (bearer ++ token)
        (session_of (delete_account (some ada) (session_of convoy)).1.db)).0
      ≡ err err_unauthorized)
    ⊎ ((authenticate signer 20
          (bearer ++ token)
          (session_of (delete_account (some ada) (session_of convoy)).1.db)).0
        ≡ err connection_lost)
unfolding issue
Closed-refuses_example =
    Closed-refuses signer toy-Documented 7 10 20 token convoy
      (session_of (delete_account (some ada) (session_of convoy)).1.db) refl deleted_ada

-- a Google identity that is new
abbrev google_ada : Identity
google_ada = record {
  provider = runes "google";
  subject = b'x' ∷ [];
  email = b'a' ∷ b'@' ∷ b'b' ∷ [];
  display_name = b'A' ∷ [];
  avatar_url = [];
}

abbrev after_ada : Db
after_ada = (upsert_oauth_user google_ada (cut_over 40 (b'A' ∷ [])) (session_of users_only)).1.db

abbrev new_ada : Account
new_ada = record {
  id = 52;
  display_name = b'A' ∷ [];
  avatar_url = none;
  email = some (b'a' ∷ b'@' ∷ b'b' ∷ []);
}

upsert_oauth_user-SignedIn_example : SignedIn google_ada (b'A' ∷ []) users_only new_ada after_ada
unfolding upsert_oauth_user insert_user insert_user_rows insert_identity_rows transaction read write
    attempt ◌>>=◌ pure raise cut_over byte_len
upsert_oauth_user-SignedIn_example =
    ((upsert_oauth_user-SignedIn google_ada (b'A' ∷ []) users_only).at (session_of users_only)
      (record { holds = refl })).holds

-- the same identity under another name
abbrev renamed_ada : Identity
renamed_ada = record google_ada { display_name = b'B' ∷ []; email = [] }

signed_ada : SignedIn google_ada (b'A' ∷ []) users_only new_ada after_ada
unfolding upsert_oauth_user insert_user insert_user_rows insert_identity_rows transaction read write
    attempt ◌>>=◌ pure raise cut_over byte_len
signed_ada =
    ((upsert_oauth_user-SignedIn google_ada (b'A' ∷ []) users_only).at (session_of users_only)
      (record { holds = refl })).holds

sign_in_again_example :
    Leads
      (OnDb (λ t. t ≡ after_ada))
      (upsert_oauth_user renamed_ada (cut_over 40 (b'B' ∷ [])))
      (λ b. OnDb (λ db. (b.id ≡ new_ada.id) × (length db.users ≡ length after_ada.users)))
      (OnDb (λ t. t ≡ after_ada))
sign_in_again_example =
    sign_in_again google_ada renamed_ada (b'A' ∷ []) (b'B' ∷ []) users_only after_ada new_ada
      signed_ada refl refl

-- a name of 39 ASCII bytes and a rune of 2 bytes
abbrev nines : ℕ → Text
nines zero = 0xe9 ∷ []
nines (suc n) = b'9' ∷ nines n

abbrev nines_only : ℕ → Text
nines_only zero = []
nines_only (suc n) = b'9' ∷ nines_only n

abbrev long_name : GuestRequest
long_name = record { display_name = nines 39; avatar_url = none }

guest-split_rune_example :
    (handle_guest signer 10 (body long_name) (session_of users_only)).0 ≡ ok (refusal err_internal)
unfolding cut_over cut byte_len trim_space
guest-split_rune_example =
    guest-split_rune signer 10 long_name users_only (nines_only 39) 0xe9 1 (session_of users_only)
      refl refl

abbrev short_name : GuestRequest
short_name = record { display_name = b' ' ∷ b'J' ∷ b'o' ∷ []; avatar_url = none }

guest-Enrolled_example :
    Outcome
      (λ res. OnDb (Served signer 10 short_name users_only res))
      (OnDb (Unserved signer 10 short_name users_only))
      (guest signer 10 (body short_name) (session_of users_only)).0
      (guest signer 10 (body short_name) (session_of users_only)).1
guest-Enrolled_example =
    (guest-Enrolled signer 10 short_name users_only).at (session_of users_only)
      (record { holds = refl })

-- a Google token of audience c, for subject x, whose email address is not verified
abbrev claims : IdClaims
claims = record {
  iss = some (runes "accounts.google.com");
  aud = some (b'c' ∷ []);
  sub = some (b'x' ∷ []);
  exp = some 50;
  email = some (b'a' ∷ []);
  email_verified = bool_flag false;
  name = none;
  picture = none;
}

abbrev only_google : IdParser
only_google method now t = if same_text method (runes "RS256") then some (true, claims) else none

verify-Vetted_example :
    Vetted google_issuers
      ((b'c' ∷ []) ∷ [])
      20
      google_verified
      (only_google (runes "RS256") 20 (trim_space (b't' ∷ [])))
      (google_identity claims)
unfolding google_verify trim_space
verify-Vetted_example =
    (verify-Vetted only_google ((b'c' ∷ []) ∷ []) 20 (b't' ∷ []) (google_identity claims)).0 refl
