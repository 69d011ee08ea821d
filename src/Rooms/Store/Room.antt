-- ===== src/Rooms/Store/Room.antt =====
-- The methods of internal/rooms/store.go that write `rooms`: creation, end, name, ownership.
use convoy_backend.Base.{
  false, ℕ, Bool, ◌&&◌, not, ◌++◌, ◌∷◌, [], Option, none, some, is_none, if◌then◌else◌,
}
use convoy_backend.Base.Rows.{first_where, exists_where, update_where}
use convoy_backend.Text.{same_text, Text}
use convoy_backend.Httpx.{room_not_found, unique_violation, foreign_key_violation}
use convoy_backend.Exec.{Result, ok, err, Exec, pure, ◌>>=◌, ◌>>◌}
use convoy_backend.Schema.{MemberRow, Role, Db, RoomRow, owner, member}
use convoy_backend.Schema.Query.{Session, read, write, change, transaction}
use convoy_backend.Rooms.Types.{Room}
use convoy_backend.Rooms.Store.Rows.{
  has_room_id, is_open, is_row_of, is_active_unkicked, user_exists, room_exists, room_of,
}

-- WHERE code = $1 AND ended_at IS NULL
abbrev pub has_open_code : Text → RoomRow → Bool
has_open_code code r = same_text r.code code && is_none r.ended_at

abbrev pub new_room : ℕ → Text → Option Text → ℕ → ℕ → RoomRow
new_room id code name owner_id now = record {
  id = id;
  code = code;
  name = name;
  owner_id = owner_id;
  created_at = now;
  ended_at = none;
  dest_lat = none;
  dest_lng = none;
  dest_name = none;
  dest_notes = none;
  dest_set_at = none;
  dest_set_by = none;
}

-- INSERT INTO rooms: the primary key, the index on open codes, the foreign key on the owner
unfoldable pub insert_room : ℕ → Text → Option Text → ℕ → ℕ → Db → Result (Room × Db)
insert_room owner_id code name now id db =
    if exists_where (has_room_id id) db.rooms
    then err unique_violation
    else if exists_where (has_open_code code) db.rooms
    then err unique_violation
    else if not (user_exists db owner_id)
    then err foreign_key_violation
    else let r = new_room id code name owner_id now in
      ok (room_of r, record db { rooms = db.rooms ++ r ∷ [] })

abbrev pub new_owner : ℕ → ℕ → ℕ → MemberRow
new_owner room user now = record {
  room_id = room;
  user_id = user;
  role = owner;
  muted = false;
  kicked = false;
  joined_at = now;
  left_at = none;
}

-- INSERT INTO room_members (room_id, user_id, role)
unfoldable pub insert_owner : ℕ → ℕ → ℕ → ℕ → Db → Result (Unit {0} × Db)
insert_owner room user now _ db =
    if exists_where (is_row_of room user) db.room_members
    then err unique_violation
    else if not (room_exists db room && user_exists db user)
    then err foreign_key_violation
    else ok (tt, record db { room_members = db.room_members ++ new_owner room user now ∷ [] })

unfoldable pub create_room : ℕ → Text → Option Text → Exec Session Room
create_room owner_id code name =
    transaction
      (do r ← write (insert_room owner_id code name); write (insert_owner r.id owner_id); pure r)

abbrev or_not_found : {A : Type 0} → Option A → Result A
or_not_found none = err room_not_found
or_not_found (some a) = ok a

abbrev pub scan_room : Option RoomRow → Result Room
scan_room none = err room_not_found
scan_room (some r) = ok (room_of r)

unfoldable pub get_by_id : ℕ → Exec Session Room
get_by_id id = read (λ db. scan_room (first_where (has_room_id id) db.rooms))

unfoldable pub get_active_by_code : Text → Exec Session Room
get_active_by_code code = read (λ db. scan_room (first_where (has_open_code code) db.rooms))

unfoldable pub end_rows : ℕ → ℕ → ℕ → Db → Result (Unit {0} × Db)
end_rows room now _ db =
    if exists_where (is_open room) db.rooms
    then ok (
      tt,
      record db {
        rooms = update_where (is_open room) (λ r. record r { ended_at = some now }) db.rooms;
      },
    )
    else err room_not_found

unfoldable pub end_room : ℕ → Exec Session (Unit {0})
end_room room = write (end_rows room)

abbrev renamed : Option Text → RoomRow → RoomRow
renamed name r = record r { name = name }

abbrev pub name_rows : ℕ → Option Text → Db → Option RoomRow → Result (Room × Db)
name_rows room name db none = err room_not_found
name_rows room name db (some r) = ok (
  room_of (renamed name r),
  record db { rooms = update_where (is_open room) (renamed name) db.rooms },
)

unfoldable pub update_name : ℕ → Option Text → Exec Session Room
update_name room name =
    write λ now _ db. name_rows room name db (first_where (is_open room) db.rooms)

-- UPDATE rooms SET owner_id = $2
unfoldable pub set_owner_rows : ℕ → ℕ → Db → Result (Unit {0} × Db)
set_owner_rows room new db =
    if not (exists_where (is_open room) db.rooms)
    then err room_not_found
    else if not (user_exists db new)
    then err foreign_key_violation
    else ok (
      tt,
      record db { rooms = update_where (is_open room) (λ r. record r { owner_id = new }) db.rooms },
    )

-- UPDATE room_members SET role = $3
unfoldable pub set_role_rows : ℕ → ℕ → Role → Db → Db
set_role_rows room user role db = record db {
  room_members = update_where (is_row_of room user) (λ m. record m { role = role }) db.room_members;
}

abbrev pub may_own : ℕ → ℕ → Db → Result (Unit {0})
may_own room new db =
    if exists_where (is_active_unkicked room new) db.room_members then ok tt else err room_not_found

unfoldable pub transfer_ownership : ℕ → ℕ → ℕ → Exec Session (Unit {0})
transfer_ownership room old new = transaction (do
  read (may_own room new)
  write (λ now _ db. set_owner_rows room new db)
  change (λ now db. set_role_rows room new owner db)
  change (λ now db. set_role_rows room old member db))
