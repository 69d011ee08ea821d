-- ===== src/Rooms/Store/Member.antt =====
-- The methods of internal/rooms/store.go on `room_members`.
use convoy_backend.Base.{
  ℕ, Bool, true, false, ◌&&◌, not, ◌==◌, leb, List, ◌++◌, ◌∷◌, [], Option, none, some, is_none,
  if◌then◌else◌,
}
use convoy_backend.Base.Rows.{first_where, exists_where, update_where, where_rows, order_by}
use convoy_backend.Httpx.{room_not_found, foreign_key_violation}
use convoy_backend.Exec.{Result, ok, err, Exec}
use convoy_backend.Schema.{Db, UserRow, MemberRow, Role, member}
use convoy_backend.Schema.Query.{Session, read, write, change}
use convoy_backend.Rooms.Types.{Member, ActiveRoom}
use convoy_backend.Rooms.Store.Rows.{
  is_open, is_row_of, is_active, is_active_unkicked, user_of, user_exists, room_exists,
}

abbrev pub new_member : ℕ → ℕ → ℕ → MemberRow
new_member room user now = record {
  room_id = room;
  user_id = user;
  role = member;
  muted = false;
  kicked = false;
  joined_at = now;
  left_at = none;
}

abbrev pub rejoined : MemberRow → MemberRow
rejoined m = record m { left_at = none; kicked = false }

-- INSERT ... ON CONFLICT (room_id, user_id) DO UPDATE SET left_at = NULL, kicked = FALSE
unfoldable pub upsert_rows : ℕ → ℕ → ℕ → ℕ → Db → Result (Unit {0} × Db)
upsert_rows room user now _ db =
    if exists_where (is_row_of room user) db.room_members
    then ok (
      tt,
      record db { room_members = update_where (is_row_of room user) rejoined db.room_members },
    )
    else if room_exists db room && user_exists db user
    then ok (tt, record db { room_members = db.room_members ++ new_member room user now ∷ [] })
    else err foreign_key_violation

unfoldable pub upsert_member : ℕ → ℕ → Exec Session (Unit {0})
upsert_member room user = write (upsert_rows room user)

unfoldable pub left_rows : ℕ → ℕ → ℕ → Db → Db
left_rows room user now db = record db {
  room_members =
      update_where (is_active room user) (λ m. record m { left_at = some now }) db.room_members;
}

unfoldable pub mark_left : ℕ → ℕ → Exec Session (Unit {0})
mark_left room user = change (left_rows room user)

unfoldable pub muted_rows : ℕ → ℕ → Bool → Db → Result (Unit {0} × Db)
muted_rows room user muted db =
    if exists_where (is_active room user) db.room_members
    then ok (
      tt,
      record db {
        room_members =
            update_where (is_active room user) (λ m. record m { muted = muted }) db.room_members;
      },
    )
    else err room_not_found

unfoldable pub set_muted : ℕ → ℕ → Bool → Exec Session (Unit {0})
set_muted room user muted = write (λ now _ db. muted_rows room user muted db)

abbrev pub kicked_out : ℕ → MemberRow → MemberRow
kicked_out now m = record m { kicked = true; left_at = some now }

unfoldable pub kick_rows : ℕ → ℕ → ℕ → Db → Result (Unit {0} × Db)
kick_rows room user now db =
    if exists_where (is_active room user) db.room_members
    then ok (
      tt,
      record db {
        room_members = update_where (is_active room user) (kicked_out now) db.room_members;
      },
    )
    else err room_not_found

unfoldable pub kick : ℕ → ℕ → Exec Session (Unit {0})
kick room user = write (λ now _ db. kick_rows room user now db)

abbrev pub member_of : MemberRow → UserRow → Member
member_of m u = record {
  user_id = m.user_id;
  display_name = u.display_name;
  avatar_url = u.avatar_url;
  role = m.role;
  muted = m.muted;
  joined_at = m.joined_at;
}

-- JOIN users u ON u.id = rm.user_id
abbrev join_one : Db → Option MemberRow → Result Member
join_one db none = err room_not_found
join_one db (some m) = elim (user_of db m.user_id) [
  | none ↦ err room_not_found
  | some u ↦ ok (member_of m u)
]

unfoldable pub get_member : ℕ → ℕ → Exec Session Member
get_member room user = read λ db. join_one db (first_where (is_active room user) db.room_members)

unfoldable pub join_members : Db → List MemberRow → List Member
join_members db [] = []
join_members db (m ∷ ms) =
    let rest = join_members db ms in
    elim (user_of db m.user_id) [ none ↦ rest | some u ↦ member_of m u ∷ rest ]

abbrev in_room : ℕ → MemberRow → Bool
in_room room m = m.room_id == room && is_none m.left_at

unfoldable pub list_members : ℕ → Exec Session (List Member)
list_members room = read λ db. ok (
    join_members db
      (order_by (λ m n. leb m.joined_at n.joined_at) (where_rows (in_room room) db.room_members)))

abbrev pub role_and_muted : Option MemberRow → Result (Role × Bool)
role_and_muted none = err room_not_found
role_and_muted (some m) = ok (m.role, m.muted)

unfoldable pub active_membership : ℕ → ℕ → Exec Session (Role × Bool)
active_membership room user =
    read λ db. role_and_muted (first_where (is_active_unkicked room user) db.room_members)

-- JOIN rooms r ON r.id = rm.room_id ... AND r.ended_at IS NULL; the presence count comes later
unfoldable pub join_rooms : Db → List MemberRow → List ActiveRoom
join_rooms db [] = []
join_rooms db (m ∷ ms) =
    let rest = join_rooms db ms in
    elim (first_where (is_open m.room_id) db.rooms) [
      | none ↦ rest
      | some r ↦
          record {
            id = r.id;
            code = r.code;
            name = r.name;
            role = m.role;
            member_count = 0;
            joined_at = m.joined_at;
          }
          ∷ rest
    ]

abbrev belongs : ℕ → MemberRow → Bool
belongs user m = m.user_id == user && is_none m.left_at && not m.kicked

unfoldable pub list_active_rooms_for_user : ℕ → Exec Session (List ActiveRoom)
list_active_rooms_for_user user = read λ db. ok (
    join_rooms db
      (order_by (λ m n. leb n.joined_at m.joined_at) (where_rows (belongs user) db.room_members)))
