-- ===== src/Rooms/Store/Marker.antt =====
-- The methods of internal/rooms/store.go on `personal_markers`.
use convoy_backend.Base.{[], ◌∷◌, Bool, ℕ, ◌&&◌, ◌==◌, ◌++◌, Option, none, some, if◌then◌else◌}
use convoy_backend.Base.Rows.{first_where, exists_where, update_where, delete_where}
use convoy_backend.Text.{Text}
use convoy_backend.Float64.{Float64}
use convoy_backend.Httpx.{foreign_key_violation}
use convoy_backend.Exec.{Result, ok, err, Exec}
use convoy_backend.Schema.{Db, MarkerRow}
use convoy_backend.Schema.Query.{Session, read, write, change}
use convoy_backend.Rooms.Types.{PersonalMarker}
use convoy_backend.Rooms.Store.Rows.{user_exists, room_exists}

-- WHERE room_id = $1 AND user_id = $2
abbrev pub is_marker_of : ℕ → ℕ → MarkerRow → Bool
is_marker_of room user m = m.room_id == room && m.user_id == user

abbrev pub marker_of : MarkerRow → PersonalMarker
marker_of m = record { lat = m.lat; lng = m.lng; label = m.label; updated_at = m.updated_at }

unfoldable pub get_personal_marker : ℕ → ℕ → Exec Session (Option PersonalMarker)
get_personal_marker room user = read λ db.
    ok (elim (first_where (is_marker_of room user) db.personal_markers) [
      | none ↦ none
      | some m ↦ some (marker_of m)
    ])

abbrev pub new_marker : ℕ → ℕ → Float64 → Float64 → Option Text → ℕ → MarkerRow
new_marker room user lat lng label now = record {
  room_id = room;
  user_id = user;
  lat = lat;
  lng = lng;
  label = label;
  updated_at = now;
}

abbrev pub moved : Float64 → Float64 → Option Text → ℕ → MarkerRow → MarkerRow
moved lat lng label now m = record m { lat = lat; lng = lng; label = label; updated_at = now }

-- INSERT ... ON CONFLICT (room_id, user_id) DO UPDATE
unfoldable pub upsert_marker_rows :
    ℕ → ℕ → Float64 → Float64 → Option Text → ℕ → Db → Result (PersonalMarker × Db)
upsert_marker_rows room user lat lng label now db =
    let m = new_marker room user lat lng label now in
    if exists_where (is_marker_of room user) db.personal_markers
    then ok (
      marker_of m,
      record db {
        personal_markers =
            update_where (is_marker_of room user) (moved lat lng label now) db.personal_markers;
      },
    )
    else if room_exists db room && user_exists db user
    then ok (marker_of m, record db { personal_markers = db.personal_markers ++ m ∷ [] })
    else err foreign_key_violation

unfoldable pub upsert_personal_marker :
    ℕ → ℕ → Float64 → Float64 → Option Text → Exec Session PersonalMarker
upsert_personal_marker room user lat lng label =
    write λ now _ db. upsert_marker_rows room user lat lng label now db

unfoldable pub delete_marker_rows : ℕ → ℕ → Db → Db
delete_marker_rows room user db = record db {
  personal_markers = delete_where (is_marker_of room user) db.personal_markers;
}

unfoldable pub delete_personal_marker : ℕ → ℕ → Exec Session (Unit {0})
delete_personal_marker room user = change λ now db. delete_marker_rows room user db
