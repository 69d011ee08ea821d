-- ===== src/Auth/Profile.antt =====
-- HandlePatchMe of internal/auth/auth.go.
use convoy_backend.Base.{take, some, none, length, ltb, some, Option, ℕ, if◌then◌else◌}
use convoy_backend.Text.{Text, trim_space, is_empty}
use convoy_backend.Httpx.{Error, api_err, err_unauthorized, no_rows}
use convoy_backend.Exec.{Result, ok, err, Exec, refuse, map_err, ◌>>=◌, ◌>>◌}
use convoy_backend.Schema.{UserRow, Db}
use convoy_backend.Schema.Query.{Session, write}
use convoy_backend.Base.Rows.{first_where, update_where}
use convoy_backend.Web.{Decoded, Answer, reply, served, decoded, in_context}
use convoy_backend.Auth.Users.{Account, account_of, live_user}

abbrev pub renamed_to : Text → UserRow → UserRow
renamed_to name u = record u { display_name = name }

-- the row of RETURNING, with the new table, or pgx.ErrNoRows
abbrev pub one_row : Db → Option UserRow → Result (Account × Db)
one_row db none = err no_rows
one_row db (some u) = ok (account_of u, db)

-- UPDATE users SET display_name = $1 WHERE id = $2 AND deleted_at IS NULL RETURNING ...
unfoldable pub rename_user_rows : ℕ → Text → Db → Result (Account × Db)
rename_user_rows id name db =
    let users = update_where (live_user id) (renamed_to name) db.users in
    one_row (record db { users = users }) (first_where (live_user id) users)

-- a user who was deleted in between gets the answer to a stale token
abbrev pub stale : Error → Error
stale no_rows = err_unauthorized
stale e = e

abbrev pub max_runes : Text → Text
max_runes name = if ltb 40 (length name) then take 40 name else name

-- HandlePatchMe up to its last error
unfoldable pub patch : Option Account → Decoded Text → Exec Session Account
patch context req = do
  u ← in_context context
  text ← decoded req
  let name = trim_space text
  refuse (is_empty name) (api_err 400 "invalid_name" "displayName required")
  refuse (ltb (length name) 2)
      (api_err 400 "name_too_short" "displayName must be at least 2 characters")
  map_err stale (write (λ now _ db. rename_user_rows u.id (max_runes name) db))

unfoldable pub handle_patch_me : Option Account → Decoded Text → Exec Session (Answer Account)
handle_patch_me context req = served (patch context req) (reply 200)
