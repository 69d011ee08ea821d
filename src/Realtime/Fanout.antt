-- ===== src/Realtime/Fanout.antt =====
-- internal/realtime/hub.go: `broadcast`, the methods of rooms.Broadcaster and `snapshot`.
use convoy_backend.Base.{
  false, ℕ, String, Bool, ◌==◌, List, [], ◌∷◌, Option, none, some, if◌then◌else◌,
}
use convoy_backend.Base.Maps.{Map, lookup, keys}
use convoy_backend.Text.{Text}
use convoy_backend.Exec.{Exec, pure, gets, modify, ◌>>=◌, ◌>>◌}
use convoy_backend.Rooms.Types.{Member, Destination, Stop, Message}
use convoy_backend.Rooms.Store.Member.{list_members}
use convoy_backend.Rooms.Store.Destination.{get_destination}
use convoy_backend.Rooms.Store.Stop.{list_stops}
use convoy_backend.Rooms.Service.Core.{Broadcaster, World, on_store}
use convoy_backend.Realtime.Message.{
  Frame, SnapshotPayload, member_joined, member_left, member_present, member_absent, muted, kicked,
  room_ended, room_renamed, owner_changed, destination, stops, chat, emergency, pack,
}
use convoy_backend.Realtime.Client.{close, enqueue}
use convoy_backend.Realtime.Hub.{
  Hub, set_conn, room_for, room_for_create, state_of, present_user_ids, present_count,
  emergency_user_ids,
}

abbrev pub push_packed : ℕ → Option Frame → Hub → Hub
push_packed c none h = h
push_packed c (some b) h = set_conn c (enqueue b (h.conns c)) h

-- sendTo(c, ...)
unfoldable pub send_to : ℕ → Frame → Hub → Hub
send_to c f h = push_packed c (pack f) h

unfoldable pub close_conn : ℕ → String → Hub → Hub
close_conn c reason h = set_conn c (close reason (h.conns c)) h

-- `exclude != nil && uid == *exclude`
abbrev pub excluded : Option ℕ → ℕ → Bool
excluded none user = false
excluded (some x) user = user == x

-- the clients that broadcast() collects under the lock
abbrev pub targets : Option ℕ → Map ℕ → List ℕ
targets exclude [] = []
targets exclude ((user, c) ∷ m) =
    let rest = targets exclude m in if excluded exclude user then rest else c ∷ rest

unfoldable pub enqueue_all : Frame → List ℕ → Hub → Hub
enqueue_all b [] h = h
enqueue_all b (c ∷ cs) h = enqueue_all b cs (set_conn c (enqueue b (h.conns c)) h)

abbrev pub broadcast_packed : Option ℕ → ℕ → Option Frame → Hub → Hub
broadcast_packed exclude a none h = h
broadcast_packed exclude a (some b) h = enqueue_all b (targets exclude (h.states a).clients) h

abbrev pub broadcast_at : Option ℕ → Option ℕ → Frame → Hub → Hub
broadcast_at exclude none f h = h
broadcast_at exclude (some a) f h = broadcast_packed exclude a (pack f) h

unfoldable pub broadcast : ℕ → Frame → Option ℕ → Hub → Hub
unfolding enqueue_all
broadcast room f exclude h = broadcast_at exclude (room_for room h) f h

unfoldable pub broadcast_member_joined : ℕ → Member → Hub → Hub
broadcast_member_joined room m h = broadcast room (member_joined m) none h

unfoldable pub broadcast_member_left : ℕ → ℕ → Hub → Hub
broadcast_member_left room user h = broadcast room (member_left user) none h

unfoldable pub broadcast_member_present : ℕ → ℕ → Hub → Hub
broadcast_member_present room user h = broadcast room (member_present user) (some user) h

unfoldable pub broadcast_member_absent : ℕ → ℕ → Hub → Hub
broadcast_member_absent room user h = broadcast room (member_absent user) (some user) h

unfoldable pub broadcast_emergency : ℕ → ℕ → Bool → Hub → Hub
broadcast_emergency room user active h = broadcast room (emergency user active) none h

abbrev close_found : Option ℕ → String → Hub → Hub
close_found none reason h = h
close_found (some c) reason h = close_conn c reason h

abbrev pub client_of : ℕ → ℕ → Hub → Option ℕ
client_of room user h = lookup user (state_of room h).clients

unfoldable pub disconnect_user : ℕ → ℕ → Hub → Hub
disconnect_user room user h = close_found (client_of room user h) "left room" h

unfoldable pub broadcast_mute : ℕ → ℕ → Bool → ℕ → Hub → Hub
broadcast_mute room user m by h = broadcast room (muted user m by) none h

abbrev pub kick_found : ℕ → ℕ → Option ℕ → Hub → Hub
kick_found user by none h = h
kick_found user by (some c) h = close_conn c "kicked" (send_to c (kicked user by) h)

-- the others first; then the target's own frame, and its close
unfoldable pub kick_connection : ℕ → ℕ → ℕ → Hub → Hub
unfolding broadcast send_to close_conn
kick_connection room user by h =
    let h' = broadcast room (kicked user by) (some user) h in
    kick_found user by (client_of room user h') h'

unfoldable pub broadcast_destination : ℕ → Option Destination → Hub → Hub
broadcast_destination room dest h = broadcast room (destination dest) none h

unfoldable pub broadcast_stops : ℕ → List Stop → Hub → Hub
broadcast_stops room ss h = broadcast room (stops ss) none h

unfoldable pub broadcast_room_renamed : ℕ → Option Text → Hub → Hub
broadcast_room_renamed room name h = broadcast room (room_renamed name) none h

unfoldable pub broadcast_owner_changed : ℕ → ℕ → ℕ → Hub → Hub
broadcast_owner_changed room new old h = broadcast room (owner_changed new old) none h

unfoldable pub broadcast_chat_message : ℕ → Message → Hub → Hub
broadcast_chat_message room msg h = broadcast room (chat msg) (some msg.user_id) h

unfoldable pub send_each : Frame → List ℕ → Hub → Hub
send_each f [] h = h
send_each f (c ∷ cs) h = send_each f cs (send_to c f h)

unfoldable pub close_each : String → List ℕ → Hub → Hub
close_each reason [] h = h
close_each reason (c ∷ cs) h = close_each reason cs (close_conn c reason h)

-- enqueue to everyone, then close everyone
unfoldable pub broadcast_room_ended : ℕ → Hub → Hub
unfolding send_each close_each send_to close_conn
broadcast_room_ended room h =
    let conns = targets none (state_of room h).clients in
    close_each "room ended" conns (send_each room_ended conns h)

-- The hub as the service's broadcaster.
abbrev pub hub_broadcaster : Broadcaster Hub
hub_broadcaster = record {
  broadcast_member_joined = broadcast_member_joined;
  broadcast_member_left = broadcast_member_left;
  broadcast_mute = broadcast_mute;
  kick_connection = kick_connection;
  broadcast_room_ended = broadcast_room_ended;
  broadcast_destination = broadcast_destination;
  broadcast_stops = broadcast_stops;
  broadcast_owner_changed = broadcast_owner_changed;
  broadcast_room_renamed = broadcast_room_renamed;
  broadcast_chat_message = broadcast_chat_message;
  disconnect_user = disconnect_user;
  present_user_ids = present_user_ids;
  present_count = present_count;
  emergency_user_ids = emergency_user_ids;
}

-- h.snapshot
unfoldable pub snapshot : ℕ → ℕ → Exec (World Hub) SnapshotPayload
snapshot room self = do
  members ← on_store (list_members room)
  dest ← on_store (get_destination room)
  ss ← on_store (list_stops room)
  modify (λ w. record w { live = (room_for_create room w.live).1 })
  rs ← gets (λ w. state_of room w.live)
  pure (record {
    self = self;
    members = members;
    locations = rs.locations;
    destination = dest;
    stops = ss;
    present_user_ids = keys rs.clients;
    emergency_user_ids = keys rs.emergencies;
  })
