-- ===== src/Rooms/Service/Moderation.antt =====
-- What the owner does to the room and its members (internal/rooms/service.go).
use convoy_backend.Base.{ℕ, Bool, ◌||◌, ltb, ◌==◌, length, Option, none, some}
use convoy_backend.Text.{Text, trim_space}
use convoy_backend.Httpx.{Error, api_err}
use convoy_backend.Exec.{Result, ok, err, Exec, pure, attempt, refuse, ◌>>=◌, ◌>>◌}
use convoy_backend.Rooms.Types.{Room, Destination}
use convoy_backend.Rooms.Store.Room
use convoy_backend.Rooms.Store.Member
use convoy_backend.Rooms.Store.Destination.{get_destination}
use convoy_backend.Rooms.Store.Marker.{upsert_personal_marker}
use convoy_backend.Rooms.Service.Core.{
  Service, World, on_store, notify, require_owner, assert_member,
}

abbrev min_room_name_len : ℕ
min_room_name_len = 1

abbrev max_room_name_len : ℕ
max_room_name_len = 40

abbrev bad_name_len : ℕ → Bool
bad_name_len n = ltb n min_room_name_len || ltb max_room_name_len n

abbrev self_action : Error
self_action = api_err 400 "self_action" "cannot moderate yourself"

module _ {H : Type 0} (rt : Service H) where
  unfoldable pub rename : ℕ → ℕ → Text → Exec (World H) Room
  rename room actor name = do
    require_owner room actor
    let trimmed = trim_space name
    refuse (bad_name_len (length trimmed))
        (api_err 400 "invalid_name" "room name must be 1–40 characters")
    r ← on_store (Room.update_name room (some trimmed))
    notify rt (λ b. b.broadcast_room_renamed room r.name)
    pure r

  -- the outgoing owner keeps the shared destination as a personal marker
  abbrev pub keep_destination : ℕ → ℕ → Result (Option Destination) → Exec (World H) (Unit {0})
  keep_destination room actor (ok (some d)) = do
    attempt (on_store (upsert_personal_marker room actor d.lat d.lng d.name))
    pure tt
  keep_destination room actor (ok none) = pure tt
  keep_destination room actor (err e) = pure tt

  unfoldable pub transfer_ownership : ℕ → ℕ → ℕ → Exec (World H) (Unit {0})
  transfer_ownership room actor target = do
    require_owner room actor
    refuse (actor == target) (api_err 400 "self_action" "you are already the owner")
    assert_member room target
    dest ← attempt (on_store (get_destination room))
    keep_destination room actor dest
    on_store (Room.transfer_ownership room actor target)
    notify rt (λ b. b.broadcast_owner_changed room target actor)

  unfoldable pub mute : ℕ → ℕ → ℕ → Bool → Exec (World H) (Unit {0})
  mute room actor target muted = do
    require_owner room actor
    refuse (actor == target) self_action
    on_store (Member.set_muted room target muted)
    notify rt (λ b. b.broadcast_mute room target muted actor)

  unfoldable pub kick : ℕ → ℕ → ℕ → Exec (World H) (Unit {0})
  kick room actor target = do
    require_owner room actor
    refuse (actor == target) (api_err 400 "self_action" "cannot kick yourself")
    on_store (Member.kick room target)
    notify rt (λ b. b.kick_connection room target actor)

  unfoldable pub end : ℕ → ℕ → Exec (World H) (Unit {0})
  end room actor = do
    require_owner room actor
    on_store (Room.end_room room)
    notify rt (λ b. b.broadcast_room_ended room)
