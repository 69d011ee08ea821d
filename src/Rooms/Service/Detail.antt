-- ===== src/Rooms/Service/Detail.antt =====
-- The snapshots of rooms that the REST handlers return (internal/rooms/service.go).
use convoy_backend.Base.{ℕ, List, [], map, none, some}
use convoy_backend.Exec.{Exec, pure, gets, ◌>>=◌}
use convoy_backend.Rooms.Types.{RoomDetail, ActiveRoom}
use convoy_backend.Rooms.Store.Room.{get_by_id}
use convoy_backend.Rooms.Store.Member.{list_members, list_active_rooms_for_user}
use convoy_backend.Rooms.Store.Destination.{get_destination}
use convoy_backend.Rooms.Store.Marker.{get_personal_marker}
use convoy_backend.Rooms.Store.Stop.{list_stops}
use convoy_backend.Rooms.Service.Core.{Service, World, on_store}

module _ {H : Type 0} where
  abbrev present_in : Service H → ℕ → H → List ℕ
  present_in none room h = []
  present_in (some b) room h = b.present_user_ids room h

  abbrev emergencies_in : Service H → ℕ → H → List ℕ
  emergencies_in none room h = []
  emergencies_in (some b) room h = b.emergency_user_ids room h

  abbrev count_in : Service H → ℕ → H → ℕ
  count_in none room h = 0
  count_in (some b) room h = b.present_count room h

module _ {H : Type 0} (rt : Service H) where
  unfoldable pub detail : ℕ → ℕ → Exec (World H) RoomDetail
  detail room viewer = do
    r ← on_store (get_by_id room)
    members ← on_store (list_members room)
    dest ← on_store (get_destination room)
    pm ← on_store (get_personal_marker room viewer)
    stops ← on_store (list_stops room)
    present ← gets (λ w. present_in rt room w.live)
    emergencies ← gets (λ w. emergencies_in rt room w.live)
    pure (record {
      room = r;
      members = members;
      destination = dest;
      personal_marker = pm;
      stops = stops;
      present_user_ids = present;
      emergency_user_ids = emergencies;
    })

  abbrev counted_rooms : List ActiveRoom → H → List ActiveRoom
  counted_rooms rs h = map (λ (r : ActiveRoom). record r { member_count = count_in rt r.id h }) rs

  unfoldable pub list_active_for_user : ℕ → Exec (World H) (List ActiveRoom)
  list_active_for_user user = do
    rooms ← on_store (list_active_rooms_for_user user)
    gets (λ w. counted_rooms rooms w.live)
