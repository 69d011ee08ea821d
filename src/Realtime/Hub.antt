-- ===== src/Realtime/Hub.antt =====
-- internal/realtime/hub.go: the rooms of the hub and the methods that change or read them. A
-- `*roomState` and a `*client` are addresses into `states` and `conns`; each function below that
-- changes them is one critical section of the source.
use convoy_backend.Base.{
  ℕ, ◌+◌, Bool, true, false, not, ◌&&◌, ◌==◌, length, List, [], Option, none, some, is_some,
  if◌then◌else◌,
}
use convoy_backend.Base.Maps.{Map, lookup, put, remove, keys}
use convoy_backend.Realtime.Message.{LocationEvent}
use convoy_backend.Realtime.Client.{Client, close}

pub record RoomState : Type 0 where
  pub clients : Map ℕ  -- user -> address of its client
  pub locations : Map LocationEvent
  pub emergencies : Map (Unit {0})

pub record Hub : Type 0 where
  pub rooms : Map ℕ  -- room -> address of its state
  pub states : ℕ → RoomState
  pub next_state : ℕ
  pub conns : ℕ → Client
  pub next_conn : ℕ

abbrev pub new_room_state : RoomState
new_room_state = record { clients = []; locations = []; emergencies = [] }

abbrev pub new_hub : (ℕ → Client) → Hub
new_hub conns = record {
  rooms = [];
  states = λ a. new_room_state;
  next_state = 0;
  conns = conns;
  next_conn = 0;
}

-- *p = v
abbrev pub assign : {A : Type 0} → ℕ → A → (ℕ → A) → ℕ → A
assign p v f q = if p == q then v else f q

abbrev pub set_state : ℕ → RoomState → Hub → Hub
set_state a rs h = record h { states = assign a rs h.states }

abbrev pub set_conn : ℕ → Client → Hub → Hub
set_conn a c h = record h { conns = assign a c h.conns }

-- roomFor(id, false)
abbrev pub room_for : ℕ → Hub → Option ℕ
room_for id h = lookup id h.rooms

abbrev pub created : ℕ → Option ℕ → Hub → ℕ × Hub
created id (some a) h = (a, h)
created id none h = (
  h.next_state,
  record h {
    rooms = put id h.next_state h.rooms;
    states = assign h.next_state new_room_state h.states;
    next_state = h.next_state + 1;
  },
)

-- roomFor(id, true)
unfoldable pub room_for_create : ℕ → Hub → ℕ × Hub
room_for_create id h = created id (room_for id h) h

abbrev pub close_existing : Option ℕ → Hub → Hub
close_existing none h = h
close_existing (some old) h = set_conn old (close "replaced by new connection" (h.conns old)) h

-- the part of join under rs.mu; whether the user was absent before
unfoldable pub insert_client : ℕ → ℕ → Hub → Bool × Hub
insert_client a c h =
    let user = (h.conns c).user in
    let existing = lookup user (h.states a).clients in
    let rs = record (h.states a) { clients = put user c (h.states a).clients } in
    (not (is_some existing), set_state a rs (close_existing existing h))

unfoldable pub join : ℕ → ℕ → Hub → Bool × Hub
unfolding room_for_create insert_client
join room c h = let (a, h') = room_for_create room h in insert_client a c h'

-- cur, ok := rs.clients[c.user.ID]; ok && cur == c
abbrev pub is_current : ℕ → Option ℕ → Bool
is_current c none = false
is_current c (some cur) = cur == c

abbrev pub without_user : ℕ → RoomState → RoomState
without_user user rs = record {
  clients = remove user rs.clients;
  locations = remove user rs.locations;
  emergencies = remove user rs.emergencies;
}

-- the part of leave under rs.mu: transitioned, clearedEmergency
unfoldable pub remove_client : ℕ → ℕ → Hub → (Bool × Bool) × Hub
remove_client a c h =
    let user = (h.conns c).user in
    let rs = h.states a in
    if is_current c (lookup user rs.clients)
    then ((true, is_some (lookup user rs.emergencies)), set_state a (without_user user rs) h)
    else ((false, false), h)

abbrev pub no_clients : RoomState → Bool
no_clients rs = length rs.clients == 0

abbrev pub dropped : ℕ → Option ℕ → Hub → Hub
dropped room none h = h
dropped room (some a) h =
    if no_clients (h.states a) then record h { rooms = remove room h.rooms } else h

-- the part of leave under h.mu
unfoldable pub drop_if_empty : ℕ → Hub → Hub
drop_if_empty room h = dropped room (room_for room h) h

-- `if empty { ... }` with what was read before rs.mu was unlocked
abbrev pub leave_state : ℕ → ℕ → ℕ → Hub → (Bool × Bool) × Hub
leave_state room a c h =
    let (r, h') = remove_client a c h in
    (r, (if no_clients (h'.states a) then drop_if_empty room h' else h'))

abbrev pub leave_at : ℕ → ℕ → Option ℕ → Hub → (Bool × Bool) × Hub
leave_at room c none h = ((false, false), h)
leave_at room c (some a) h = leave_state room a c h

unfoldable pub leave : ℕ → ℕ → Hub → (Bool × Bool) × Hub
unfolding remove_client drop_if_empty
leave room c h = leave_at room c (room_for room h) h

-- the part of SetEmergency under rs.mu; whether the flag changed
unfoldable pub flag : ℕ → ℕ → Bool → Hub → Bool × Hub
flag a user active h =
    let rs = h.states a in
    let has = is_some (lookup user rs.emergencies) in
    if active && not has
    then (true, set_state a (record rs { emergencies = put user tt rs.emergencies }) h)
    else if not active && has
    then (true, set_state a (record rs { emergencies = remove user rs.emergencies }) h)
    else (false, h)

unfoldable pub set_emergency : ℕ → ℕ → Bool → Hub → Bool × Hub
unfolding room_for_create flag
set_emergency room user active h = let (a, h') = room_for_create room h in flag a user active h'

-- the part of recordLocation under rs.mu
abbrev pub located : ℕ → LocationEvent → Hub → Hub
located a ev h =
    set_state a (record (h.states a) { locations = put ev.user_id ev (h.states a).locations }) h

unfoldable pub record_location : ℕ → LocationEvent → Hub → Hub
unfolding room_for_create
record_location room ev h = let (a, h') = room_for_create room h in located a ev h'

-- the state that a reader sees; a missing room reads as an empty one
abbrev pub read_state : Hub → Option ℕ → RoomState
read_state h none = new_room_state
read_state h (some a) = h.states a

abbrev pub state_of : ℕ → Hub → RoomState
state_of room h = read_state h (room_for room h)

unfoldable pub emergency_user_ids : ℕ → Hub → List ℕ
emergency_user_ids room h = keys (state_of room h).emergencies

unfoldable pub present_user_ids : ℕ → Hub → List ℕ
present_user_ids room h = keys (state_of room h).clients

unfoldable pub present_count : ℕ → Hub → ℕ
present_count room h = length (state_of room h).clients

unfoldable pub is_present : ℕ → ℕ → Hub → Bool
is_present room user h = is_some (lookup user (state_of room h).clients)
