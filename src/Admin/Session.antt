-- ===== src/Admin/Session.antt =====
-- The administrator's session of internal/admin/admin.go: the signed cookie, requireAuth, login and
-- logout. HMAC with base64 is a parameter; the clock counts nanoseconds, and a cookie carries seconds.
use convoy_backend.Base.{
  ◌||◌, ◌||◌, ◌*◌, ◌/◌, leb, ◌^◌, ◌*◌, ◌==◌, ◌+◌, some, none, ◌==◌, ◌+◌, if◌then◌else◌, ◌∷◌, [],
  ◌-◌, ◌&&◌, if◌then◌else◌, false, ◌-◌, ◌&&◌, some, ◌∷◌, ◌∷◌, Option, not, ltb, Bool, ℕ, List, ◌++◌,
}
use convoy_backend.Text.{Text, runes, trim_space, is_empty, same_text}
use convoy_backend.Text.Cut.{byte_len}
use convoy_backend.Admin.Decimal.{Int64, plus, minus, sprint, sscan}

-- the password, the secret, and the base64 text of the HMAC of a payload under a secret
pub record Admin : Type 0 where
  pub password : Text
  pub cookie_secret : Text
  pub mac : Text → Text → Text

-- New: whether the dashboard is enabled, for a pool that is not nil and templates that parse
unfoldable pub enabled : Admin → Bool
enabled m = not (is_empty (trim_space m.password)) && not (ltb (byte_len m.cookie_secret) 16)

abbrev pub session_version : Text
session_version = runes "v1"

-- time.Second
abbrev pub second : ℕ
second = 1000000000

-- 7 * 24 * time.Hour
abbrev pub session_lifetime : ℕ
session_lifetime = 7 * 24 * 3600 * second

abbrev pub dot : Text
dot = runes "."

abbrev pub payload_of : Text → Text → Text
payload_of version issued = version ++ dot ++ issued

-- signSession
unfoldable pub sign_session : Admin → ℕ → Text
sign_session m issued_at =
    let payload = payload_of session_version (sprint issued_at) in
    payload ++ dot ++ m.mac m.cookie_secret payload

abbrev pub cons_part : ℕ → List Text → List Text
cons_part c [] = (c ∷ []) ∷ []
cons_part c (p ∷ ps) = (c ∷ p) ∷ ps

-- strings.Split(s, ".")
unfoldable pub split_dots : Text → List Text
split_dots [] = [] ∷ []
split_dots (c ∷ s) = let rest = split_dots s in if c == b'.' then [] ∷ rest else cons_part c rest

-- time.Unix counts the seconds since the year 1 in an int64. From this time on the count overflows, and
-- the time lies in the remote past.
abbrev pub unix_limit : ℕ
unix_limit = 2 ^ 63 - 62135596800

-- time.Since(time.Unix(issued, 0)) > sessionLifetime; a time in the future is not too old
abbrev pub too_old : ℕ → Int64 → Bool
too_old now (plus issued) = leb unix_limit issued || ltb session_lifetime (now - issued * second)
too_old now (minus issued) = ltb session_lifetime (now + issued * second)

abbrev pub in_time : ℕ → Option Int64 → Bool
in_time now none = false
in_time now (some issued) = not (too_old now issued)

abbrev pub parts_verified : Admin → ℕ → List Text → Bool
parts_verified m now (version ∷ issued ∷ sig ∷ []) =
    same_text version session_version
    && same_text (m.mac m.cookie_secret (payload_of version issued)) sig
    && in_time now (sscan issued)
parts_verified m now parts = false

-- verifySession
unfoldable pub verify_session : Admin → ℕ → Text → Bool
unfolding split_dots
verify_session m now value = parts_verified m now (split_dots value)

-- what a handler of the dashboard answers; a cookie that is set, and one that is cleared
pub data Page : Type 0 where
  rendered : Page
  redirect : Text → Page
  signed_in : Text → Page
  signed_out : Page
  unauthorized : Page
  failed_page : ℕ → Page

abbrev pub has_session : Admin → ℕ → Option Text → Bool
has_session m now none = false
has_session m now (some cookie) = verify_session m now cookie

-- requireAuth, of the cookie and of HX-Request
unfoldable pub require_auth : {A : Type 0} → (Page → A) → Admin → ℕ → Option Text → Bool → A → A
require_auth page m now cookie is_htmx next =
    if has_session m now cookie
    then next
    else if is_htmx
    then page unauthorized
    else page (redirect (runes "/admin/login"))

-- loginPage
unfoldable pub login_page : Admin → ℕ → Option Text → Page
login_page m now cookie = if has_session m now cookie then redirect (runes "/admin/") else rendered

-- loginSubmit, of the form's password, if the form parses; setSession signs time.Now().Unix()
unfoldable pub login_submit : Admin → ℕ → Option Text → Page
login_submit m now none = redirect (runes "/admin/login?err=bad_request")
login_submit m now (some pw) =
    if same_text pw m.password
    then signed_in (sign_session m (now / second))
    else redirect (runes "/admin/login?err=invalid")

-- logout
unfoldable pub logout : Page
logout = signed_out
