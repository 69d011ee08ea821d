-- ===== src/Rooms/Service/Route.antt =====
-- Destination, personal markers and stops (internal/rooms/service.go).
use convoy_backend.Base.{ℕ, List, [], Option, none, some}
use convoy_backend.Text.{Text}
use convoy_backend.Float64.{Float64}
use convoy_backend.Httpx.{Error, api_err}
use convoy_backend.Exec.{Result, ok, err, Exec, pure, attempt, refuse, ◌>>=◌, ◌>>◌}
use convoy_backend.Rooms.Types.{Destination, PersonalMarker, Stop}
use convoy_backend.Rooms.Store.Destination
use convoy_backend.Rooms.Store.Marker
use convoy_backend.Rooms.Store.Stop
use convoy_backend.Rooms.Service.Core.{
  Service, World, on_store, notify, require_owner, assert_member,
}
use convoy_backend.Rooms.Service.Labels.{trim_label, trim_notes, bad_coords}

abbrev invalid_coords : Error
invalid_coords = api_err 400 "invalid_coords" "invalid coordinates"

module _ {H : Type 0} (rt : Service H) where
  unfoldable pub set_destination :
      ℕ → ℕ → Float64 → Float64 → Option Text → Option Text → Exec (World H) Destination
  set_destination room actor lat lng name notes = do
    require_owner room actor
    refuse (bad_coords lat lng) invalid_coords
    d ←
        on_store
          (Destination.set_destination room actor lat lng (trim_label name) (trim_notes notes))
    notify rt (λ b. b.broadcast_destination room (some d))
    pure d

  unfoldable pub update_destination_meta :
      ℕ → ℕ → Option Text → Option Text → Exec (World H) Destination
  update_destination_meta room actor name notes = do
    require_owner room actor
    d ← on_store (Destination.update_destination_meta room (trim_label name) (trim_notes notes))
    notify rt (λ b. b.broadcast_destination room (some d))
    pure d

  unfoldable pub clear_destination : ℕ → ℕ → Exec (World H) (Unit {0})
  clear_destination room actor = do
    require_owner room actor
    on_store (Destination.clear_destination room)
    on_store (Stop.clear_stops room)
    notify rt (λ b. b.broadcast_destination room none)
    notify rt (λ b. b.broadcast_stops room [])

  abbrev pub fan_out : ℕ → Result (List Stop) → Exec (World H) (Unit {0})
  fan_out room (ok stops) = notify rt (λ b. b.broadcast_stops room stops)
  fan_out room (err e) = pure tt

  abbrev pub broadcast_stops_by : Service H → ℕ → Exec (World H) (Unit {0})
  broadcast_stops_by none room = pure tt
  broadcast_stops_by (some b) room = do
    r ← attempt (on_store (Stop.list_stops room))
    fan_out room r

  unfoldable pub broadcast_stops : ℕ → Exec (World H) (Unit {0})
  broadcast_stops room = broadcast_stops_by rt room

  unfoldable pub add_stop : ℕ → ℕ → Float64 → Float64 → Option Text → Exec (World H) Stop
  add_stop room actor lat lng label = do
    require_owner room actor
    refuse (bad_coords lat lng) invalid_coords
    stop ← on_store (Stop.add_stop room actor lat lng (trim_label label))
    broadcast_stops room
    pure stop

  unfoldable pub update_stop_label : ℕ → ℕ → ℕ → Option Text → Exec (World H) Stop
  update_stop_label room actor id label = do
    require_owner room actor
    stop ← on_store (Stop.update_stop_label room id (trim_label label))
    broadcast_stops room
    pure stop

  unfoldable pub remove_stop : ℕ → ℕ → ℕ → Exec (World H) (Unit {0})
  remove_stop room actor id = do
    require_owner room actor
    on_store (Stop.remove_stop room id)
    broadcast_stops room

  unfoldable pub clear_stops : ℕ → ℕ → Exec (World H) (Unit {0})
  clear_stops room actor = do
    require_owner room actor
    on_store (Stop.clear_stops room)
    broadcast_stops room

module _ {H : Type 0} where
  -- No broadcaster takes part in the methods on personal markers.
  unfoldable pub set_personal_marker :
      ℕ → ℕ → Float64 → Float64 → Option Text → Exec (World H) PersonalMarker
  set_personal_marker room user lat lng label = do
    assert_member room user
    refuse (bad_coords lat lng) invalid_coords
    on_store (Marker.upsert_personal_marker room user lat lng (trim_label label))

  unfoldable pub clear_personal_marker : ℕ → ℕ → Exec (World H) (Unit {0})
  clear_personal_marker room user = do
    assert_member room user
    on_store (Marker.delete_personal_marker room user)
