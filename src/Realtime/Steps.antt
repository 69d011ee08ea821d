-- ===== src/Realtime/Steps.antt =====
-- The hub of internal/realtime/hub.go as a state machine. A step is one critical section of a method,
-- or one operation on one client; a run is any sequence of steps, so that the methods of any number of
-- goroutines interleave in it wherever the source holds no lock.
use convoy_backend.Realtime.Handler.{allocated}
use convoy_backend.Realtime.Hub.{flag, drop_if_empty, insert_client, join, leave}
use convoy_backend.Realtime.Fanout.{close_conn, kick_connection}
use convoy_backend.Realtime.Message.{pack, kicked, LocationEvent, Frame}
use convoy_backend.Realtime.Dropping.{tidied}
use convoy_backend.Realtime.Fanout.{
  targets, client_of, broadcast_packed, push_packed, broadcast_at, kick_found, kick_connection,
  enqueue_all, broadcast, send_to,
}
use convoy_backend.Realtime.Hub.{
  set_conn, remove_client, no_clients, room_for, created, room_for_create, located, leave, join,
  leave_at, record_location, set_emergency, Hub,
}
use convoy_backend.Realtime.Client.{enqueue, Client}
use convoy_backend.Base.{
  ◌∷◌, [], String, inr, inl, none, some, ◌∷◌, List, Bool-cases, some, ◌<◌, drop, Bool, ◌<◌, Option,
  ℕ,
}

-- `msg := <-c.send` of client.go, where the buffer is not empty
abbrev pub taken : Client → Client
taken c = record c { send = drop 1 c.send }

-- A step on a state takes any address: the room that the state was read from may have been dropped
-- since. Only a client that was allocated is inserted.
pub data Step (h : Hub) : Hub → Type 0 where
  connects : (user room : ℕ) → Step h (allocated user room h)
  opens : (room : ℕ) → Step h (room_for_create room h).1
  inserts : (a c : ℕ) → c < h.next_conn → Step h (insert_client a c h).1
  removes : (a c : ℕ) → Step h (remove_client a c h).1
  drops : (room : ℕ) → Step h (drop_if_empty room h)
  flags : (a user : ℕ) (active : Bool) → Step h (flag a user active h).1
  locates : (a : ℕ) (ev : LocationEvent) → Step h (located a ev h)
  enqueues : (c : ℕ) (b : Frame) → Step h (set_conn c (enqueue b (h.conns c)) h)
  closes : (c : ℕ) (reason : String) → Step h (close_conn c reason h)
  takes : (c : ℕ) → Step h (set_conn c (taken (h.conns c)) h)

pub data Run (h : Hub) : Hub → Type 0 where
  begun : Run h h
  later : {g g' : Hub} → Run h g → Step g g' → Run h g'

pub Run-trans : {h g k : Hub} → Run h g → Run g k → Run h k
Run-trans r begun = r
Run-trans r (later q s) = later (Run-trans r q) s

pub once : {h g : Hub} → Step h g → Run h g
once s = later begun s

-- The methods are runs.
enqueue_all-Run : (b : Frame) (cs : List ℕ) (h : Hub) → Run h (enqueue_all b cs h)
unfolding enqueue_all
enqueue_all-Run b [] h = begun
enqueue_all-Run b (c ∷ cs) h =
    Run-trans (once (enqueues c b)) (enqueue_all-Run b cs (set_conn c (enqueue b (h.conns c)) h))

broadcast_packed-Run :
    (exclude : Option ℕ) (a : ℕ) (o : Option Frame) (h : Hub)
    → Run h (broadcast_packed exclude a o h)
broadcast_packed-Run exclude a none h = begun
broadcast_packed-Run exclude a (some b) h =
    enqueue_all-Run b (targets exclude (h.states a).clients) h

broadcast_at-Run : (exclude o : Option ℕ) (f : Frame) (h : Hub) → Run h (broadcast_at exclude o f h)
broadcast_at-Run exclude none f h = begun
broadcast_at-Run exclude (some a) f h = broadcast_packed-Run exclude a (pack f) h

pub broadcast-Run :
    (room : ℕ) (f : Frame) (exclude : Option ℕ) (h : Hub) → Run h (broadcast room f exclude h)
unfolding broadcast
broadcast-Run room f exclude h = broadcast_at-Run exclude (room_for room h) f h

push_packed-Run : (c : ℕ) (o : Option Frame) (h : Hub) → Run h (push_packed c o h)
push_packed-Run c none h = begun
push_packed-Run c (some b) h = once (enqueues c b)

pub send_to-Run : (c : ℕ) (f : Frame) (h : Hub) → Run h (send_to c f h)
unfolding send_to
send_to-Run c f h = push_packed-Run c (pack f) h

kick_found-Run : (user by : ℕ) (o : Option ℕ) (h : Hub) → Run h (kick_found user by o h)
kick_found-Run user by none h = begun
kick_found-Run user by (some c) h = later (send_to-Run c (kicked user by) h) (closes c "kicked")

pub kick_connection-Run : (room user by : ℕ) (h : Hub) → Run h (kick_connection room user by h)
unfolding kick_connection
kick_connection-Run room user by h =
    let h' = broadcast room (kicked user by) (some user) h in
    Run-trans (broadcast-Run room (kicked user by) (some user) h)
      (kick_found-Run user by (client_of room user h') h')

created-next_conn :
    (room c : ℕ) (o : Option ℕ) (h : Hub) → c < h.next_conn → c < (created room o h).1.next_conn
created-next_conn room c none h l = l
created-next_conn room c (some a) h l = l

-- the client of a new websocket joins
pub join-Run : (room c : ℕ) (h : Hub) → c < h.next_conn → Run h (join room c h).1
unfolding join room_for_create
join-Run room c h known =
    let r = room_for_create room h in
    later (once (opens room)) (inserts r.0 c (created-next_conn room c (room_for room h) h known))

tidied-Run : (room a : ℕ) (h : Hub) → Run h (tidied room a h)
tidied-Run room a h = elim (Bool-cases (no_clients (h.states a))) [
  | inl e ↦ rw e (once (drops room))
  | inr e ↦ rw e begun
]

leave_at-Run : (room c : ℕ) (o : Option ℕ) (h : Hub) → Run h (leave_at room c o h).1
leave_at-Run room c none h = begun
leave_at-Run room c (some a) h =
    Run-trans (once (removes a c)) (tidied-Run room a (remove_client a c h).1)

pub leave-Run : (room c : ℕ) (h : Hub) → Run h (leave room c h).1
unfolding leave
leave-Run room c h = leave_at-Run room c (room_for room h) h

pub set_emergency-Run :
    (room user : ℕ) (active : Bool) (h : Hub) → Run h (set_emergency room user active h).1
unfolding set_emergency
set_emergency-Run room user active h =
    later (once (opens room)) (flags (room_for_create room h).0 user active)

pub record_location-Run :
    (room : ℕ) (ev : LocationEvent) (h : Hub) → Run h (record_location room ev h)
unfolding record_location
record_location-Run room ev h = later (once (opens room)) (locates (room_for_create room h).0 ev)
