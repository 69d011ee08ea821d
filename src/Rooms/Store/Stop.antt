-- ===== src/Rooms/Store/Stop.antt =====
-- The methods of internal/rooms/store.go on `room_stops`.
use convoy_backend.Base.{
  [], ◌∷◌, Bool, ℕ, ◌&&◌, ◌||◌, ◌==◌, ltb, leb, ◌++◌, map, List, Option, none, some, if◌then◌else◌,
}
use convoy_backend.Base.Rows.{
  first_where, exists_where, update_where, delete_where, where_rows, order_by, next_above,
}
use convoy_backend.Text.{Text}
use convoy_backend.Float64.{Float64}
use convoy_backend.Httpx.{room_not_found, unique_violation, foreign_key_violation}
use convoy_backend.Exec.{Result, ok, err, Exec}
use convoy_backend.Schema.{Db, StopRow}
use convoy_backend.Schema.Query.{Session, read, write, change}
use convoy_backend.Rooms.Types.{Stop}
use convoy_backend.Rooms.Store.Rows.{user_exists, room_exists}

abbrev pub stop_in : ℕ → StopRow → Bool
stop_in room s = s.room_id == room

-- WHERE id = $1 AND room_id = $2
abbrev pub is_stop : ℕ → ℕ → StopRow → Bool
is_stop room id s = s.id == id && s.room_id == room

abbrev pub stop_of : StopRow → Stop
stop_of s = record {
  id = s.id;
  room_id = s.room_id;
  lat = s.lat;
  lng = s.lng;
  label = s.label;
  position = s.position;
  created_by = s.created_by;
  created_at = s.created_at;
}

-- ORDER BY position ASC, created_at ASC
abbrev pub stop_le : StopRow → StopRow → Bool
stop_le s t =
    ltb s.position t.position || (s.position == t.position && leb s.created_at t.created_at)

abbrev pub stops_of : ℕ → Db → List Stop
stops_of room db = map stop_of (order_by stop_le (where_rows (stop_in room) db.room_stops))

unfoldable pub list_stops : ℕ → Exec Session (List Stop)
list_stops room = read λ db. ok (stops_of room db)

abbrev pub new_stop : ℕ → ℕ → Float64 → Float64 → Option Text → ℕ → ℕ → Db → StopRow
new_stop room by lat lng label now id db = record {
  id = id;
  room_id = room;
  lat = lat;
  lng = lng;
  label = label;
  position = next_above (λ (s : StopRow). s.position) (where_rows (stop_in room) db.room_stops);
  created_by = by;
  created_at = now;
}

unfoldable pub add_stop_rows :
    ℕ → ℕ → Float64 → Float64 → Option Text → ℕ → ℕ → Db → Result (Stop × Db)
add_stop_rows room by lat lng label now id db =
    let s = new_stop room by lat lng label now id db in
    if exists_where (λ (t : StopRow). t.id == id) db.room_stops
    then err unique_violation
    else if room_exists db room && user_exists db by
    then ok (stop_of s, record db { room_stops = db.room_stops ++ s ∷ [] })
    else err foreign_key_violation

unfoldable pub add_stop : ℕ → ℕ → Float64 → Float64 → Option Text → Exec Session Stop
add_stop room by lat lng label = write (add_stop_rows room by lat lng label)

unfoldable pub clear_stop_rows : ℕ → Db → Db
clear_stop_rows room db = record db { room_stops = delete_where (stop_in room) db.room_stops }

unfoldable pub clear_stops : ℕ → Exec Session (Unit {0})
clear_stops room = change λ now db. clear_stop_rows room db

unfoldable pub remove_stop_rows : ℕ → ℕ → Db → Result (Unit {0} × Db)
remove_stop_rows room id db =
    if exists_where (is_stop room id) db.room_stops
    then ok (tt, record db { room_stops = delete_where (is_stop room id) db.room_stops })
    else err room_not_found

unfoldable pub remove_stop : ℕ → ℕ → Exec Session (Unit {0})
remove_stop room id = write λ now _ db. remove_stop_rows room id db

abbrev labelled : Option Text → StopRow → StopRow
labelled label s = record s { label = label }

abbrev pub label_found : ℕ → ℕ → Option Text → Db → Option StopRow → Result (Stop × Db)
label_found room id label db none = err room_not_found
label_found room id label db (some s) = ok (
  stop_of (labelled label s),
  record db { room_stops = update_where (is_stop room id) (labelled label) db.room_stops },
)

unfoldable pub label_rows : ℕ → ℕ → Option Text → Db → Result (Stop × Db)
label_rows room id label db =
    label_found room id label db (first_where (is_stop room id) db.room_stops)

unfoldable pub update_stop_label : ℕ → ℕ → Option Text → Exec Session Stop
update_stop_label room id label = write λ now _ db. label_rows room id label db
