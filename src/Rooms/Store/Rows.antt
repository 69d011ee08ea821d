-- ===== src/Rooms/Store/Rows.antt =====
-- The tests of the `WHERE` clauses of internal/rooms/store.go, and the shapes that rows scan into.
use convoy_backend.Base.{ℕ, Bool, ◌&&◌, not, ◌==◌, Option, is_none}
use convoy_backend.Base.Rows.{first_where, exists_where}
use convoy_backend.Schema.{Db, UserRow, RoomRow, MemberRow}
use convoy_backend.Rooms.Types.{Room}

-- WHERE id = $1
abbrev pub has_room_id : ℕ → RoomRow → Bool
has_room_id id r = r.id == id

-- WHERE id = $1 AND ended_at IS NULL
abbrev pub is_open : ℕ → RoomRow → Bool
is_open id r = r.id == id && is_none r.ended_at

-- WHERE room_id = $1 AND user_id = $2
abbrev pub is_row_of : ℕ → ℕ → MemberRow → Bool
is_row_of room user m = m.room_id == room && m.user_id == user

-- ... AND left_at IS NULL
abbrev pub is_active : ℕ → ℕ → MemberRow → Bool
is_active room user m = is_row_of room user m && is_none m.left_at

-- ... AND left_at IS NULL AND kicked = FALSE
abbrev pub is_active_unkicked : ℕ → ℕ → MemberRow → Bool
is_active_unkicked room user m = is_active room user m && not m.kicked

abbrev pub user_of : Db → ℕ → Option UserRow
user_of db user = first_where (λ u. u.id == user) db.users

-- foreign keys
abbrev pub user_exists : Db → ℕ → Bool
user_exists db user = exists_where (λ (u : UserRow). u.id == user) db.users

abbrev pub room_exists : Db → ℕ → Bool
room_exists db room = exists_where (has_room_id room) db.rooms

-- RETURNING id, code, name, owner_id, created_at, ended_at
abbrev pub room_of : RoomRow → Room
room_of r = record {
  id = r.id;
  code = r.code;
  name = r.name;
  owner_id = r.owner_id;
  created_at = r.created_at;
  ended_at = r.ended_at;
}
