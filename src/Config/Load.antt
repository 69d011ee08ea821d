-- ===== src/Config/Load.antt =====
-- internal/config/config.go. The environment, the date and time.ParseDuration are parameters;
-- durations are nanoseconds.
use convoy_backend.Base.{
  suc, ◌-◌, some, ◌==◌, none, ◌==◌, ◌-◌, ◌∷◌, [], ◌%◌, ◌∷◌, ◌^◌, some, ltb, List, ℕ, if◌then◌else◌,
  ◌*◌, Option,
}
use convoy_backend.Text.{Text, runes, trim_space, is_empty}
use convoy_backend.Text.Cut.{byte_len}
use convoy_backend.Httpx.{other}
use convoy_backend.Exec.{Result, ok, err}
use convoy_backend.Base.Int.{ℤ, pos, negsuc}

-- os.Getenv: an empty text for a variable that is not set
abbrev pub Environ : Type 0
Environ = Text → Text

abbrev pub getenv : Environ → Text → Text → Text
getenv env k fallback = if is_empty (env k) then fallback else env k

abbrev pub cons_field : ℕ → List Text → List Text
cons_field c [] = (c ∷ []) ∷ []
cons_field c (p ∷ ps) = (c ∷ p) ∷ ps

-- strings.Split(s, ",")
unfoldable pub split_commas : Text → List Text
split_commas [] = [] ∷ []
split_commas (c ∷ s) =
    let rest = split_commas s in if c == b',' then [] ∷ rest else cons_field c rest

-- `for _, p := range parts`
unfoldable pub kept_parts : List Text → List Text
kept_parts [] = []
kept_parts (p ∷ ps) =
    let rest = kept_parts ps in if is_empty (trim_space p) then rest else trim_space p ∷ rest

-- splitCSV; nil is the empty list
unfoldable pub split_csv : Text → List Text
unfolding split_commas kept_parts
split_csv s = if is_empty s then [] else kept_parts (split_commas s)

-- strconv.Atoi and time.ParseDuration
pub record Parsers : Type 0 where
  pub atoi : Text → Option ℤ
  pub parse_duration : Text → Option ℤ

abbrev pub second : ℕ
second = 1000000000

-- time.Duration(n) * time.Second, wrapped to int64
abbrev pub to_int64 : ℕ → ℤ
to_int64 n = let m = n % 2 ^ 64 in if ltb m (2 ^ 63) then pos m else negsuc (2 ^ 64 - m - 1)

abbrev pub seconds : ℤ → ℤ
seconds (pos n) = to_int64 (n * second)
seconds (negsuc n) = to_int64 (2 ^ 64 - (suc n * second) % 2 ^ 64)

abbrev pub duration_or : ℤ → Option ℤ → ℤ
duration_or fallback none = fallback
duration_or fallback (some d) = d

abbrev pub number_or : Option ℤ → ℤ → ℤ
number_or none d = d
number_or (some n) d = seconds n

unfoldable pub get_duration : Environ → Parsers → Text → ℤ → ℤ
get_duration env p k fallback =
    let v = env k in
    if is_empty v
    then fallback
    else number_or (p.atoi v) (duration_or fallback (p.parse_duration v))

pub record Config : Type 0 where
  pub port : Text
  pub database_url : Text
  pub jwt_secret : Text
  pub jwt_ttl : ℤ
  pub allowed_origins : List Text
  pub ws_write_timeout : ℤ
  pub ws_read_timeout : ℤ
  pub ws_ping_interval : ℤ
  pub livekit_url : Text
  pub livekit_api_key : Text
  pub livekit_api_secret : Text
  pub admin_password : Text
  pub admin_cookie_secret : Text
  pub expo_access_token : Text
  pub google_client_ids : List Text
  pub apple_client_ids : List Text
  pub privacy_contact_email : Text
  pub privacy_effective_date : Text
  pub app_name : Text

abbrev pub loaded_config : Environ → Parsers → Text → Config
loaded_config env p today = record {
  port = getenv env (runes "PORT") (runes "8080");
  database_url = env (runes "DATABASE_URL");
  jwt_secret = env (runes "JWT_SECRET");
  jwt_ttl = get_duration env p (runes "JWT_TTL") (pos (2592000 * second));
  allowed_origins = runes "*" ∷ [];
  ws_write_timeout = get_duration env p (runes "WS_WRITE_TIMEOUT") (pos (10 * second));
  ws_read_timeout = get_duration env p (runes "WS_READ_TIMEOUT") (pos (60 * second));
  ws_ping_interval = get_duration env p (runes "WS_PING_INTERVAL") (pos (25 * second));
  livekit_url = env (runes "LIVEKIT_URL");
  livekit_api_key = env (runes "LIVEKIT_API_KEY");
  livekit_api_secret = env (runes "LIVEKIT_API_SECRET");
  admin_password = env (runes "ADMIN_PASSWORD");
  admin_cookie_secret = env (runes "ADMIN_COOKIE_SECRET");
  expo_access_token = env (runes "EXPO_ACCESS_TOKEN");
  google_client_ids = split_csv (env (runes "GOOGLE_CLIENT_IDS"));
  apple_client_ids = split_csv (env (runes "APPLE_CLIENT_IDS"));
  privacy_contact_email = env (runes "PRIVACY_CONTACT_EMAIL");
  privacy_effective_date = getenv env (runes "PRIVACY_EFFECTIVE_DATE") today;
  app_name = getenv env (runes "APP_NAME") (runes "Convoy");
}

-- Load, after the .env file has been read into the environment
unfoldable pub load : Environ → Parsers → Text → Result Config
unfolding get_duration
load env p today =
    let c = loaded_config env p today in
    if is_empty c.database_url
    then err (other "DATABASE_URL is required")
    else if ltb (byte_len c.jwt_secret) 16
    then err (other "JWT_SECRET must be at least 16 characters")
    else ok c
