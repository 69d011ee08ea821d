-- ===== src/Realtime/Handler.antt =====
-- internal/realtime/handler.go and `readPump` of client.go: the life of a websocket, in three parts,
-- between which other connections run: the request up to the presence broadcast, each frame that the
-- client sends, and the close.
use convoy_backend.Auth.Users.{load_user}
use convoy_backend.Base.{ℕ, ◌+◌, Bool, true, false, Option, none, some, is_some, if◌then◌else◌}
use convoy_backend.Httpx.{room_not_found}
use convoy_backend.Exec.{Result, ok, err, Exec, pure, gets, attempt, modify, ◌>>=◌, ◌>>◌}
use convoy_backend.Schema.{UserRow}
use convoy_backend.Rooms.Types.{Room}
use convoy_backend.Rooms.Store.Room.{get_by_id}
use convoy_backend.Rooms.Store.Member.{active_membership}
use convoy_backend.Rooms.Service.Core.{World, on_store}
use convoy_backend.Realtime.Message.{
  ClientFrame, Location, LocationEvent, SnapshotPayload, snapshot, location, error, pong, invalid,
  ping, client_location, client_emergency, unknown,
}
use convoy_backend.Realtime.Client.{new_client}
use convoy_backend.Realtime.Hub.{Hub, assign, join, leave, set_emergency, record_location}
use convoy_backend.Realtime.Fanout
use convoy_backend.Realtime.Fanout.{
  send_to, close_conn, broadcast, broadcast_member_present, broadcast_member_absent,
  broadcast_emergency,
}

-- how the request ends: with a status, or upgraded to a client at an address
pub data Upgrade : Type 0 where
  refused : ℕ → Upgrade
  failed : Upgrade  -- websocket.Accept has written its own answer
  connected : ℕ → Bool → Upgrade

abbrev Ws : Type 0 → Type 0
Ws A = Exec (World Hub) A

-- newClient: a fresh address
abbrev pub allocated : ℕ → ℕ → Hub → Hub
allocated user room h = record h {
  conns = assign h.next_conn (new_client user room) h.conns;
  next_conn = h.next_conn + 1;
}

abbrev pub send_snapshot : ℕ → Result SnapshotPayload → Ws (Unit {0})
send_snapshot c (ok p) = modify (λ w. record w { live = send_to c (snapshot p) w.live })
send_snapshot c (err e) = pure tt

abbrev pub announce_present : Bool → ℕ → ℕ → Ws (Unit {0})
announce_present true room user =
    modify (λ w. record w { live = broadcast_member_present room user w.live })
announce_present false room user = pure tt

abbrev pub enter : ℕ → ℕ → ℕ → Ws Bool
enter room c user w =
    let (became, h) = join room c (allocated user room w.live) in (ok became, record w { live = h })

unfoldable pub accept : ℕ → ℕ → UserRow → Bool → Ws Upgrade
accept room user u false = pure failed
accept room user u true = do
  c ← gets (λ w. w.live.next_conn)
  became ← enter room c u.id
  snap ← attempt (Fanout.snapshot room user)
  send_snapshot c snap
  announce_present became room user
  pure (connected c became)

abbrev pub with_user : ℕ → ℕ → Bool → Result UserRow → Ws Upgrade
with_user room user up (err e) = pure (refused 500)
with_user room user up (ok u) = accept room user u up

abbrev pub with_membership : {A : Type 0} → ℕ → ℕ → Bool → Result A → Ws Upgrade
with_membership room user up (err e) = pure (refused 403)
with_membership room user up (ok m) = do
  u ← attempt (on_store (load_user user))
  with_user room user up u

abbrev pub with_room : ℕ → ℕ → Bool → Result Room → Ws Upgrade
with_room room user up (err room_not_found) = pure (refused 404)
with_room room user up (err e) = pure (refused 500)
with_room room user up (ok r) =
    if is_some r.ended_at
    then pure (refused 410)
    else do m ← attempt (on_store (active_membership room user)); with_membership room user up m

-- ServeHTTP up to the pumps. The arguments are what uuid.Parse makes of the room, what Verify makes
-- of the token, and whether websocket.Accept succeeds.
unfoldable pub serve : Option ℕ → Option ℕ → Bool → Ws Upgrade
serve none token up = pure (refused 400)
serve (some room) none up = pure (refused 401)
serve (some room) (some user) up = do
  r ← attempt (on_store (get_by_id room))
  with_room room user up r

abbrev event_of : ℕ → ℕ → Location → LocationEvent
event_of user now l = record {
  user_id = user;
  lat = l.lat;
  lng = l.lng;
  heading = l.heading;
  speed = l.speed;
  ts = now;
}

abbrev announce_emergency : ℕ → ℕ → Bool → Bool × Hub → Hub
announce_emergency room user active (true, h) = broadcast_emergency room user active h
announce_emergency room user active (false, h) = h

-- readPump on one frame of the client at address `c`; `now` is time.Now().UnixMilli()
unfoldable pub handle_frame : ℕ → ℕ → ClientFrame → Hub → Hub
handle_frame now c invalid h = send_to c (error "invalid frame") h
handle_frame now c ping h = send_to c pong h
handle_frame now c (client_location none) h = send_to c (error "invalid location") h
handle_frame now c (client_location (some l)) h =
    let user = (h.conns c).user in
    let room = (h.conns c).room_id in
    let ev = event_of user now l in
    broadcast room (location ev) (some user) (record_location room ev h)
handle_frame now c (client_emergency none) h = send_to c (error "invalid emergency") h
handle_frame now c (client_emergency (some active)) h =
    let user = (h.conns c).user in
    let room = (h.conns c).room_id in
    announce_emergency room user active (set_emergency room user active h)
handle_frame now c unknown h = send_to c (error "unknown message type") h

-- the deferred close of readPump
unfoldable pub read_loop_ended : ℕ → Hub → Hub
read_loop_ended c h = close_conn c "read loop ended" h

abbrev stand_down : Bool → ℕ → ℕ → Hub → Hub
stand_down true room user h = broadcast_emergency room user false h
stand_down false room user h = h

abbrev pub departed : ℕ → ℕ → (Bool × Bool) × Hub → Hub
departed room user ((true, cleared), h) =
    broadcast_member_absent room user (stand_down cleared room user h)
departed room user ((false, cleared), h) = h

-- ServeHTTP after the read pump: leave, and tell the others
unfoldable pub disconnect : ℕ → ℕ → Hub → Hub
unfolding read_loop_ended
disconnect room c h =
    let h' = read_loop_ended c h in departed room (h'.conns c).user (leave room c h')
