-- ===== src/Auth/OAuth.antt =====
-- HandleGoogle and HandleApple of internal/auth/auth.go. The verifier of a provider is a parameter.
use convoy_backend.Base.{
  true, ◌++◌, ◌++◌, not, ◌==◌, ◌||◌, ◌&&◌, ◌∷◌, some, ◌==◌, ◌&&◌, none, ◌||◌, [], false, Option, ℕ,
  if◌then◌else◌, Bool,
}
use convoy_backend.Text.{Text, runes, trim_space, is_empty, same_text}
use convoy_backend.Text.Cut.{Cut, cut_over}
use convoy_backend.Httpx.{
  Error, api_err, no_rows, unique_violation, foreign_key_violation, check_violation,
}
use convoy_backend.Exec.{Result, ok, err, Exec, pure, raise, attempt, ◌>>=◌, ◌>>◌}
use convoy_backend.Schema.{UserRow, IdentityRow, Db}
use convoy_backend.Schema.Query.{Session, read, write, change, transaction}
use convoy_backend.Base.Rows.{first_where, exists_where, update_where}
use convoy_backend.Rooms.Store.Rows.{user_exists}
use convoy_backend.Web.{reply, served, Answer, Decoded, decoded}
use convoy_backend.Auth.Tokens.{Signer, issue, issued}
use convoy_backend.Auth.Users.{Account, account_of, live_user}
use convoy_backend.Auth.Providers.{Identity}
use convoy_backend.Auth.Guest.{TokenResponse, insert_user}

abbrev pub Verifier : Type 0
Verifier = Text → Option Identity

pub record OauthRequest : Type 0 where
  pub id_token : Text
  pub display_name : Text
  pub email : Text

-- what the body of the request fills in where the provider has nothing
abbrev pub fallback : Text → Text → Text
fallback given sent = if is_empty given && not (is_empty sent) then trim_space sent else given

-- email[:strings.Index(email, "@")], or all of it if there is no "@"
abbrev pub before_at : Text → Text
before_at [] = []
before_at (c ∷ s) = let rest = before_at s in if c == b'@' then [] else c ∷ rest

abbrev pub contains_at : Text → Bool
contains_at [] = false
contains_at (c ∷ s) = c == b'@' || contains_at s

-- `if at := strings.Index(id.Email, "@"); at > 0`
abbrev pub email_name : Text → Text
email_name email = if contains_at email then before_at email else []

abbrev pub or_default : Text → Text
or_default name = if is_empty name then runes "convoy_user" else name

-- the name that is stored, before the cut
unfoldable pub chosen_name : Identity → OauthRequest → Text
chosen_name id req =
    let name = fallback id.display_name req.display_name in
    if is_empty name then or_default (email_name (fallback id.email req.email)) else name

-- an empty text is stored as NULL
abbrev pub optional : Text → Option Text
optional [] = none
optional (c ∷ s) = some (c ∷ s)

-- WHERE provider = $1 AND subject = $2
abbrev pub is_identity : Text → Text → IdentityRow → Bool
is_identity provider subject i = same_text i.provider provider && same_text i.subject subject

abbrev pub identity_user : Option IdentityRow → Result ℕ
identity_user none = err no_rows
identity_user (some i) = ok i.user_id

abbrev pub lookup_identity : Identity → Db → Result ℕ
lookup_identity i db =
    identity_user (first_where (is_identity i.provider i.subject) db.user_identities)

abbrev pub has_email : Text → Option Text → Bool
has_email email none = false
has_email email (some e) = same_text e email

-- UPDATE users SET email = $1 WHERE id = $2 AND (email IS DISTINCT FROM $1)
unfoldable pub email_rows : ℕ → Text → Db → Db
email_rows user email db = record db {
  users =
      update_where (λ (u : UserRow). u.id == user && not (has_email email u.email))
        (λ u. record u { email = some email }) db.users;
}

-- A statement that failed leaves the transaction aborted: the next one fails too.
abbrev pub unless_aborted : Result (Unit {0}) → Exec Session (Unit {0})
unless_aborted (ok u) = pure tt
unless_aborted (err e) = raise e

-- the error of the update is dropped, and stands at the next statement
unfoldable pub refresh_email : ℕ → Text → Exec Session (Unit {0})
refresh_email user [] = pure tt
refresh_email user (c ∷ s) = do
  r ← attempt (change (λ now db. email_rows user (c ∷ s) db))
  unless_aborted r

abbrev pub is_provider : Text → Bool
is_provider p =
    same_text p (runes "google") || same_text p (runes "apple") || same_text p (runes "guest")

abbrev pub new_identity : ℕ → Identity → ℕ → ℕ → IdentityRow
new_identity user i now id = record {
  id = id;
  user_id = user;
  provider = i.provider;
  subject = i.subject;
  email = optional i.email;
  created_at = now;
}

-- INSERT INTO user_identities, with its constraints
unfoldable pub insert_identity_rows : ℕ → Identity → ℕ → ℕ → Db → Result (Unit {0} × Db)
insert_identity_rows user i now id db =
    if exists_where (λ (r : IdentityRow). r.id == id || is_identity i.provider i.subject r)
      db.user_identities
    then err unique_violation
    else if not (is_provider i.provider)
    then err check_violation
    else if user_exists db user
    then ok
        (tt, record db { user_identities = db.user_identities ++ new_identity user i now id ∷ [] })
    else err foreign_key_violation

-- the first sign-in
unfoldable pub create_account : Identity → Cut → Exec Session ℕ
create_account i name = do
  u ← insert_user name (optional i.avatar_url) (optional i.email)
  write (λ now id db. insert_identity_rows u.id i now id db)
  pure u.id

-- errors.Is(err, pgx.ErrNoRows)
abbrev pub is_no_rows : Error → Bool
is_no_rows no_rows = true
is_no_rows e = false

-- `switch` on the error of the lookup
abbrev pub found_or_created : Identity → Cut → Result ℕ → Exec Session ℕ
found_or_created i name (ok user) = do refresh_email user i.email; pure user
found_or_created i name (err e) = if is_no_rows e then create_account i name else raise e

abbrev pub scanned : Option UserRow → Result Account
scanned none = err no_rows
scanned (some u) = ok (account_of u)

-- upsertOAuthUser
unfoldable pub upsert_oauth_user : Identity → Cut → Exec Session Account
unfolding refresh_email create_account
upsert_oauth_user i name = transaction (do
  found ← attempt (read λ db. lookup_identity i db)
  user ← found_or_created i name found
  read λ db. scanned (first_where (live_user user) db.users))

abbrev pub identified : Option Identity → Exec Session Identity
identified none = raise (api_err 401 "invalid_id_token" "could not verify id token")
identified (some i) = pure i

-- handleOAuth up to its last error
unfoldable pub oauth : Signer → Verifier → ℕ → Decoded OauthRequest → Exec Session TokenResponse
oauth signer check now req = do
  r ← decoded req
  i ← identified (check r.id_token)
  u ←
      upsert_oauth_user (record i { email = fallback i.email r.email })
        (cut_over 40 (chosen_name i r))
  token ← issued (issue signer now u.id)
  pure (record { token = token; user = u })

-- a provider that is not configured has no verifier
abbrev configured : Option Verifier → Error → Exec Session Verifier
configured none e = raise e
configured (some v) e = pure v

module _ (signer : Signer) (provider : Option Verifier) (now : ℕ) (req : Decoded OauthRequest) where
  unfoldable pub handle_google : Exec Session (Answer TokenResponse)
  handle_google =
      served
        (do
          v ← configured provider (api_err 503 "google_disabled" "google sign-in is not configured")
          oauth signer v now req)
        (reply 200)

  unfoldable pub handle_apple : Exec Session (Answer TokenResponse)
  handle_apple =
      served
        (do
          v ←
              configured provider
                (api_err 503 "apple_disabled" "sign in with apple is not configured")
          oauth signer v now req)
        (reply 200)
