-- ===== src/Livekit.antt =====
-- internal/livekit/token.go. The LiveKit SDK, which signs the token, is a parameter.
use convoy_backend.Base.{ℕ, Bool, ◌&&◌, not, [], ◌∷◌, ◌++◌, Option, none, some, if◌then◌else◌}
use convoy_backend.Text.{trim_prefix, has_prefix, runes, Text, trim_space, is_empty}

pub record Config : Type 0 where
  pub url : Text
  pub api_key : Text
  pub api_secret : Text

abbrev pub enabled : Config → Bool
enabled c = not (is_empty c.url) && not (is_empty c.api_key) && not (is_empty c.api_secret)

abbrev wss : Text
wss = runes "wss://"

abbrev ws : Text
ws = runes "ws://"

abbrev https : Text
https = runes "https://"

abbrev http : Text
http = runes "http://"

abbrev with_scheme : Text → Text
with_scheme raw =
    if has_prefix raw wss
    then raw
    else if has_prefix raw ws
    then raw
    else if has_prefix raw https
    then wss ++ trim_prefix raw https
    else if has_prefix raw http
    then ws ++ trim_prefix raw http
    else wss ++ raw

unfoldable pub normalize_url : Text → Text
normalize_url url = let raw = trim_space url in if is_empty raw then [] else with_scheme raw

-- What the SDK makes of the key, the secret, the room, the identity and the name, which is set only
-- if it is not empty; `none` is an error of ToJWT.
pub record Sdk : Type 0 where
  pub to_jwt : Text → Text → ℕ → ℕ → Option Text → Option Text

abbrev shown_name : Text → Option Text
shown_name [] = none
shown_name (c ∷ s) = some (c ∷ s)

unfoldable pub issue_room_token : Sdk → Config → ℕ → ℕ → Text → Option Text
issue_room_token sdk cfg room user name =
    if enabled cfg then sdk.to_jwt cfg.api_key cfg.api_secret room user (shown_name name) else none
