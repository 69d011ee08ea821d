-- ===== src/Rooms/Store/Destination.antt =====
-- The methods of internal/rooms/store.go on the destination columns of `rooms`.
use convoy_backend.Base.{Bool, ℕ, ◌&&◌, not, Option, none, some, is_some, if◌then◌else◌}
use convoy_backend.Base.Rows.{first_where, exists_where, update_where}
use convoy_backend.Text.{Text}
use convoy_backend.Float64.{Float64}
use convoy_backend.Httpx.{room_not_found, scan_failed, foreign_key_violation}
use convoy_backend.Exec.{Result, ok, err, Exec, pure, raise, ◌>>=◌}
use convoy_backend.Schema.{Db, RoomRow}
use convoy_backend.Schema.Query.{Session, read, write}
use convoy_backend.Rooms.Types.{Destination}
use convoy_backend.Rooms.Store.Rows.{has_room_id, is_open, user_exists}

-- dest_lat IS NOT NULL AND dest_lng IS NOT NULL
abbrev pub has_destination : RoomRow → Bool
has_destination r = is_some r.dest_lat && is_some r.dest_lng

-- Scan into a Destination: a NULL in a column that is no pointer is an error
abbrev scan_columns :
    Option Float64
    → Option Float64
    → Option ℕ
    → Option ℕ
    → Option Text
    → Option Text
    → Result Destination
scan_columns (some lat) (some lng) (some at) (some by) name notes =
    ok (record { lat = lat; lng = lng; name = name; notes = notes; set_at = at; set_by = by })
scan_columns _ _ _ _ name notes = err scan_failed

abbrev scan_destination : RoomRow → Result Destination
scan_destination r =
    scan_columns r.dest_lat r.dest_lng r.dest_set_at r.dest_set_by r.dest_name r.dest_notes

abbrev pub optional : Result Destination → Result (Option Destination)
optional (ok d) = ok (some d)
optional (err e) = err e

abbrev found_destination : Option RoomRow → Result (Option Destination)
found_destination none = ok none
found_destination (some r) = optional (scan_destination r)

abbrev placed_in : ℕ → RoomRow → Bool
placed_in room r = has_room_id room r && has_destination r

unfoldable pub get_destination : ℕ → Exec Session (Option Destination)
get_destination room = read λ db. found_destination (first_where (placed_in room) db.rooms)

abbrev pub placed : ℕ → Float64 → Float64 → Option Text → Option Text → ℕ → RoomRow → RoomRow
placed set_by lat lng name notes now r = record r {
  dest_lat = some lat;
  dest_lng = some lng;
  dest_name = name;
  dest_notes = notes;
  dest_set_at = some now;
  dest_set_by = some set_by;
}

-- UPDATE ... RETURNING: the row as `f` leaves it, where `p` finds one, and what Scan makes of it
abbrev pub returning :
    (RoomRow → Bool) → (RoomRow → RoomRow) → Db → Option RoomRow → Result (Result Destination × Db)
returning p f db none = err room_not_found
returning p f db (some r) =
    ok (scan_destination (f r), record db { rooms = update_where p f db.rooms })

-- The statement is committed before its row is scanned: an error of Scan leaves the update.
abbrev pub scanned_row : Result Destination → Exec Session Destination
scanned_row (ok d) = pure d
scanned_row (err e) = raise e

unfoldable pub set_destination_rows :
    ℕ
    → ℕ
    → Float64
    → Float64
    → Option Text
    → Option Text
    → ℕ
    → Db
    → Result (Result Destination × Db)
set_destination_rows room set_by lat lng name notes now db =
    if exists_where (is_open room) db.rooms && not (user_exists db set_by)
    then err foreign_key_violation
    else returning (is_open room) (placed set_by lat lng name notes now) db
        (first_where (is_open room) db.rooms)

unfoldable pub set_destination :
    ℕ → ℕ → Float64 → Float64 → Option Text → Option Text → Exec Session Destination
set_destination room set_by lat lng name notes = do
  d ← write (λ now _ db. set_destination_rows room set_by lat lng name notes now db)
  scanned_row d

abbrev pub described : Option Text → Option Text → RoomRow → RoomRow
described name notes r = record r { dest_name = name; dest_notes = notes }

abbrev pub open_and_placed : ℕ → RoomRow → Bool
open_and_placed room r = is_open room r && has_destination r

unfoldable pub describe_rows : ℕ → Option Text → Option Text → Db → Result (Result Destination × Db)
describe_rows room name notes db =
    returning (open_and_placed room) (described name notes) db
      (first_where (open_and_placed room) db.rooms)

unfoldable pub update_destination_meta : ℕ → Option Text → Option Text → Exec Session Destination
update_destination_meta room name notes = do
  d ← write (λ now _ db. describe_rows room name notes db)
  scanned_row d

-- The name and the notes stay in their columns.
abbrev pub unplaced : RoomRow → RoomRow
unplaced r = record r { dest_lat = none; dest_lng = none; dest_set_at = none; dest_set_by = none }

unfoldable pub clear_destination_rows : ℕ → Db → Result (Unit {0} × Db)
clear_destination_rows room db =
    if exists_where (is_open room) db.rooms
    then ok (tt, record db { rooms = update_where (is_open room) unplaced db.rooms })
    else err room_not_found

unfoldable pub clear_destination : ℕ → Exec Session (Unit {0})
clear_destination room = write λ now _ db. clear_destination_rows room db
