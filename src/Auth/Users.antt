-- ===== src/Auth/Users.antt =====
-- The users that internal/auth/auth.go loads: LoadUser, and Middleware in front of every handler.
use convoy_backend.Base.{is_some, ◌&&◌, ◌&&◌, some, none, ◌==◌, ◌==◌, some, not, Bool, Option, ℕ}
use convoy_backend.Text.{Text, runes, has_prefix, trim_prefix}
use convoy_backend.Httpx.{err_unauthorized, write_err}
use convoy_backend.Exec.{Result, ok, err, Exec, pure, raise, attempt, refuse, ◌>>=◌, ◌>>◌}
use convoy_backend.Schema.{UserRow}
use convoy_backend.Schema.Query.{Session, read}
use convoy_backend.Base.Rows.{first_where}
use convoy_backend.Web.{Answer, refusal}
use convoy_backend.Auth.Tokens.{Signer, verify}

-- User, without the entitlements
pub record Account : Type 0 where
  pub id : ℕ
  pub display_name : Text
  pub avatar_url : Option Text
  pub email : Option Text

-- RETURNING id, display_name, avatar_url, email
abbrev pub account_of : UserRow → Account
account_of u = record {
  id = u.id;
  display_name = u.display_name;
  avatar_url = u.avatar_url;
  email = u.email;
}

-- WHERE id = $1 AND deleted_at IS NULL
abbrev pub live_user : ℕ → UserRow → Bool
live_user id u = (u.id == id) && not (is_some u.deleted_at)

abbrev pub loaded : Option UserRow → Result UserRow
loaded none = err err_unauthorized
loaded (some u) = ok u

unfoldable pub load_user : ℕ → Exec Session UserRow
load_user id = read (λ db. loaded (first_where (live_user id) db.users))

abbrev pub bearer : Text
bearer = runes "Bearer "

abbrev pub verified : {S : Type 0} → Option ℕ → Exec S ℕ
verified none = raise err_unauthorized
verified (some id) = pure id

-- Middleware up to the call of the next handler, from the Authorization header
unfoldable pub authenticate : Signer → ℕ → Text → Exec Session UserRow
authenticate signer now header = do
  refuse (not (has_prefix header bearer)) err_unauthorized
  id ← verified (verify signer now (trim_prefix header bearer))
  load_user id

abbrev pub pass_on :
    {A : Type 0} → (Account → Exec Session (Answer A)) → Result UserRow → Exec Session (Answer A)
pass_on next (ok u) = next (account_of u)
pass_on next (err e) = pure (refusal (write_err e))

unfoldable pub middleware :
    {A : Type 0} → Signer → (Account → Exec Session (Answer A)) → ℕ → Text → Exec Session (Answer A)
middleware signer next now header = do r ← attempt (authenticate signer now header); pass_on next r
