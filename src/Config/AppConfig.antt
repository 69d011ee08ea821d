-- ===== src/Config/AppConfig.antt =====
-- internal/config/appconfig.go
use convoy_backend.Base.{
  ◌∷◌, [], none, some, ◌∷◌, ◌∷◌, false, ◌++◌, true, some, ◌++◌, Option, ℕ, if◌then◌else◌, Bool,
}
use convoy_backend.Text.{Text, runes, trim_space, is_empty, same_text}
use convoy_backend.Httpx.{Error, no_rows}
use convoy_backend.Exec.{Result, ok, err, Exec, attempt, pure, ◌>>=◌}
use convoy_backend.Schema.{Db, ConfigRow}
use convoy_backend.Schema.Query.{Session, read, change}
use convoy_backend.Base.Rows.{first_where, exists_where, update_where}
use convoy_backend.Web.{Answer, reply}

abbrev pub has_key : Text → ConfigRow → Bool
has_key k r = same_text r.key k

abbrev pub value_of : Option ConfigRow → Result Text
value_of none = err no_rows
value_of (some r) = ok r.value

unfoldable pub get : Text → Exec Session Text
get key = read λ db. value_of (first_where (has_key key) db.app_config)

abbrev pub new_setting : Text → Text → ℕ → ConfigRow
new_setting key value now = record { key = key; value = value; updated_at = now }

-- INSERT ... ON CONFLICT (key) DO UPDATE
unfoldable pub set_rows : Text → Text → ℕ → Db → Db
set_rows key value now db = record db {
  app_config =
      if exists_where (has_key key) db.app_config
      then update_where (has_key key) (λ r. record r { value = value; updated_at = now })
          db.app_config
      else db.app_config ++ new_setting key value now ∷ [];
}

unfoldable pub set : Text → Text → Exec Session (Unit {0})
set key value = change λ now db. set_rows key value now db

abbrev pub key_min_client_version : Text
key_min_client_version = runes "min_client_version"

-- a missing or blank value, and any error, mean no floor
abbrev pub floor_of : Result Text → Text
floor_of (err e) = runes "0.0.0"
floor_of (ok v) = if is_empty (trim_space v) then runes "0.0.0" else trim_space v

unfoldable pub min_client_version : Exec Session Text
min_client_version = do v ← attempt (get key_min_client_version); pure (floor_of v)

-- Handler; the entitlements of the answer are empty
unfoldable pub handler : Exec Session (Answer Text)
handler = do v ← min_client_version; pure (reply 200 v)

-- IsNotFound; the error ErrNotFound of this package is never returned
abbrev pub is_not_found : Error → Bool
is_not_found no_rows = true
is_not_found e = false
