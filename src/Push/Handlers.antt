-- ===== src/Push/Handlers.antt =====
-- internal/push/handlers.go: the registration of a token.
use convoy_backend.Base.{not, ◌||◌, ◌||◌, Option, Bool, ℕ}
use convoy_backend.Text.{Text, runes, trim_space, to_lower, is_empty, has_prefix}
use convoy_backend.Httpx.{api_err}
use convoy_backend.Exec.{Exec, refuse, ◌>>=◌, ◌>>◌}
use convoy_backend.Web.{Decoded, Answer, no_body, served, decoded, in_context}
use convoy_backend.Schema.Query.{Session}
use convoy_backend.Push.Store.{known_platform, upsert}

pub record RegisterReq : Type 0 where
  pub token : Text
  pub platform : Text

abbrev pub is_expo_token : Text → Bool
is_expo_token t = has_prefix t (runes "ExponentPushToken[") || has_prefix t (runes "ExpoPushToken[")

-- Save up to its last error; `table` is unicode.ToLower beyond ASCII
unfoldable pub register : (ℕ → ℕ) → Option ℕ → Decoded RegisterReq → Exec Session (Unit {0})
register table context req = do
  user ← in_context context
  r ← decoded req
  let token = trim_space r.token
  let platform = to_lower table (trim_space r.platform)
  refuse (is_empty token || not (known_platform platform))
      (api_err 400 "invalid_token" "token and platform required")
  refuse (not (is_expo_token token)) (api_err 400 "invalid_token" "expected Expo Push token")
  upsert user token platform

unfoldable pub save : (ℕ → ℕ) → Option ℕ → Decoded RegisterReq → Exec Session (Answer (Unit {0}))
save table context req = served (register table context req) (λ _. no_body 204)
