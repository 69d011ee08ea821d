-- ===== src/Auth/Guest.antt =====
-- HandleGuest and HandleMe of internal/auth/auth.go.
use convoy_backend.Base.{
  ◌∷◌, [], ◌∷◌, ◌∷◌, ◌++◌, ◌++◌, if◌then◌else◌, if◌then◌else◌, none, Option, ℕ,
}
use convoy_backend.Text.{Text, trim_space, is_empty}
use convoy_backend.Text.Cut.{Cut, cut_over, column}
use convoy_backend.Httpx.{api_err, unique_violation}
use convoy_backend.Exec.{Result, ok, err, Exec, refuse, pure, ◌>>=◌, ◌>>◌}
use convoy_backend.Schema.{UserRow, Db}
use convoy_backend.Schema.Query.{Session, write}
use convoy_backend.Rooms.Store.Rows.{user_exists}
use convoy_backend.Web.{Decoded, Answer, reply, served, decoded, in_context}
use convoy_backend.Auth.Tokens.{Signer, issue, issued}
use convoy_backend.Auth.Users.{Account, account_of}

pub record GuestRequest : Type 0 where
  pub display_name : Text
  pub avatar_url : Option Text

pub record TokenResponse : Type 0 where
  pub token : Text
  pub user : Account

abbrev pub new_user : Text → Option Text → Option Text → ℕ → ℕ → UserRow
new_user name avatar email now id = record {
  id = id;
  display_name = name;
  avatar_url = avatar;
  email = email;
  created_at = now;
  deleted_at = none;
}

abbrev pub insert_named :
    Option Text → Option Text → ℕ → ℕ → Db → Result Text → Result (Account × Db)
insert_named avatar email now id db (err e) = err e
insert_named avatar email now id db (ok name) =
    if user_exists db id
    then err unique_violation
    else ok (
      account_of (new_user name avatar email now id),
      record db { users = db.users ++ new_user name avatar email now id ∷ [] },
    )

-- INSERT INTO users (display_name, avatar_url, email) VALUES ... RETURNING ...
unfoldable pub insert_user_rows :
    Cut → Option Text → Option Text → ℕ → ℕ → Db → Result (Account × Db)
insert_user_rows name avatar email now id db = insert_named avatar email now id db (column name)

unfoldable pub insert_user : Cut → Option Text → Option Text → Exec Session Account
insert_user name avatar email = write (insert_user_rows name avatar email)

-- HandleGuest up to its last error
unfoldable pub guest : Signer → ℕ → Decoded GuestRequest → Exec Session TokenResponse
guest signer now req = do
  r ← decoded req
  refuse (is_empty (trim_space r.display_name)) (api_err 400 "invalid_name" "displayName required")
  u ← insert_user (cut_over 40 (trim_space r.display_name)) r.avatar_url none
  token ← issued (issue signer now u.id)
  pure (record { token = token; user = u })

unfoldable pub handle_guest :
    Signer → ℕ → Decoded GuestRequest → Exec Session (Answer TokenResponse)
handle_guest signer now req = served (guest signer now req) (reply 201)

unfoldable pub handle_me : Option Account → Exec Session (Answer Account)
handle_me context = served (in_context context) (reply 200)
