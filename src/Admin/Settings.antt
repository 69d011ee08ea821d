-- ===== src/Admin/Settings.antt =====
-- internal/admin/settings.go
use convoy_backend.Base.{
  ◌==◌, ◌∷◌, [], ◌==◌, true, ◌∷◌, none, false, some, Option, Bool, if◌then◌else◌,
}
use convoy_backend.Text.{Text, runes, trim_space}
use convoy_backend.Exec.{Result, ok, err, Exec, attempt, pure, ◌>>=◌}
use convoy_backend.Schema.Query.{Session}
use convoy_backend.Admin.Decimal.{is_digit}
use convoy_backend.Config.AppConfig.{set, key_min_client_version, min_client_version}

abbrev pub past_digits : Text → Text
past_digits [] = []
past_digits (c ∷ s) = let rest = past_digits s in if is_digit c then rest else c ∷ s

-- \d+, which takes all the digits there are
abbrev pub some_digits : Text → Option Text
some_digits [] = none
some_digits (c ∷ s) = if is_digit c then some (past_digits s) else none

-- \.
abbrev pub a_dot : Option Text → Option Text
a_dot none = none
a_dot (some []) = none
a_dot (some (c ∷ s)) = if c == b'.' then some s else none

abbrev pub and_digits : Option Text → Option Text
and_digits none = none
and_digits (some s) = some_digits s

abbrev pub at_end : Option Text → Bool
at_end none = false
at_end (some []) = true
at_end (some (c ∷ s)) = false

-- semverRE: ^\d+\.\d+\.\d+$
unfoldable pub is_semver : Text → Bool
is_semver s = at_end (and_digits (a_dot (and_digits (a_dot (some_digits s)))))

pub data SettingsPage : Type 0 where
  settings : Text → SettingsPage
  not_configured : SettingsPage
  to_settings : Text → SettingsPage

-- settingsPage, for a store that is there or nil
unfoldable pub settings_page : Bool → Exec Session SettingsPage
settings_page false = pure not_configured
settings_page true = do v ← min_client_version; pure (settings v)

abbrev pub saved_or : Result (Unit {0}) → SettingsPage
saved_or (ok u) = to_settings (runes "flash=saved")
saved_or (err e) = to_settings (runes "err=db")

abbrev pub save_version : Text → Exec Session SettingsPage
save_version min =
    if is_semver min
    then (do r ← attempt (set key_min_client_version min); pure (saved_or r))
    else pure (to_settings (runes "err=bad_version"))

-- settingsSubmit, of the form's min_client_version, if the form parses
unfoldable pub settings_submit : Bool → Option Text → Exec Session SettingsPage
settings_submit false form = pure not_configured
settings_submit true none = pure (to_settings (runes "err=bad_form"))
settings_submit true (some version) = save_version (trim_space version)
