-- ===== src/Auth/Deletion.antt =====
-- HandleDeleteAccount of internal/auth/auth.go.
use convoy_backend.Base.{is_none, ◌&&◌, ◌&&◌, ◌==◌, ◌==◌, true, Bool, some, Option, ℕ}
use convoy_backend.Exec.{Exec, ◌>>=◌, ◌>>◌}
use convoy_backend.Schema.{RoomRow, MemberRow, Db}
use convoy_backend.Schema.Query.{Session, change, transaction}
use convoy_backend.Base.Rows.{update_where}
use convoy_backend.Web.{Answer, no_body, served, in_context}
use convoy_backend.Auth.Users.{Account, live_user}

-- UPDATE users SET deleted_at = now() WHERE id = $1 AND deleted_at IS NULL
unfoldable pub stamp_deleted : ℕ → ℕ → Db → Db
stamp_deleted user now db = record db {
  users = update_where (live_user user) (λ u. record u { deleted_at = some now }) db.users;
}

abbrev pub is_open_owned : ℕ → RoomRow → Bool
is_open_owned user r = r.owner_id == user && is_none r.ended_at

-- UPDATE rooms SET ended_at = now() WHERE owner_id = $1 AND ended_at IS NULL
unfoldable pub end_owned : ℕ → ℕ → Db → Db
end_owned user now db = record db {
  rooms = update_where (is_open_owned user) (λ r. record r { ended_at = some now }) db.rooms;
}

abbrev pub is_present_member : ℕ → MemberRow → Bool
is_present_member user m = m.user_id == user && is_none m.left_at

-- UPDATE room_members SET kicked = true, left_at = now() WHERE user_id = $1 AND left_at IS NULL
unfoldable pub kick_everywhere : ℕ → ℕ → Db → Db
kick_everywhere user now db = record db {
  room_members =
      update_where (is_present_member user) (λ m. record m { kicked = true; left_at = some now })
        db.room_members;
}

-- the three statements, in the order of the code
unfoldable pub erase : ℕ → Exec Session (Unit {0})
erase user = do
  change (λ now db. stamp_deleted user now db)
  change (λ now db. end_owned user now db)
  change (λ now db. kick_everywhere user now db)

unfoldable pub delete_account : Option Account → Exec Session (Unit {0})
delete_account context = do u ← in_context context; transaction (erase u.id)

unfoldable pub handle_delete_account : Option Account → Exec Session (Answer (Unit {0}))
handle_delete_account context = served (delete_account context) (λ _. no_body 204)
