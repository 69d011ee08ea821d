-- ===== src/Realtime/Buffers.antt =====
-- The send buffers of the clients (internal/realtime/client.go) in every run of the hub.
use convoy_backend.Realtime.Fanout.{close_conn}
use convoy_backend.Realtime.Delivery.{enqueue-Enqueued, Enqueued, close-Closed}
use convoy_backend.Base.Maps.{put, lookup}
use convoy_backend.Realtime.Message.{Frame}
use convoy_backend.Realtime.Client.{enqueue, close, Client}
use convoy_backend.Realtime.Hub.{
  room_for, new_hub, no_clients, close_existing, is_current, drop_if_empty, set_state, created,
  RoomState, dropped, set_conn, insert_client, room_for_create, Hub, remove_client, flag,
}
use convoy_backend.Base.{
  ◌≢◌, not, ◌≢◌, ◌&&◌, ==→eq, length-drop, inr, ◌&&◌, some, none, arith, inl, sym, ◌≡◌, ◌==◌, ◌≤◌,
  ◌==◌, is_some, subst, some, drop, ◌≤◌, ◌≡◌, ◌<◌, Bool, length, ◌<◌, Bool-cases, String, List,
  Option, ℕ,
}
use convoy_backend.Realtime.Steps.{
  takes, closes, enqueues, locates, flags, drops, removes, inserts, opens, connects, Step, Run,
  begun, later,
}
use convoy_backend.Realtime.Handler.{allocated}

-- No allocated client has more frames than its channel holds.
abbrev pub HasRoom : Hub → Type 0
HasRoom h = (c : ℕ) → c < h.next_conn → length (h.conns c).send ≤ 32

close-send : (reason : String) (c : Client) → (close reason c).send ≡ c.send
close-send reason c = (close-Closed reason c).0

length-drop_one : (fs : List Frame) → length (drop 1 fs) ≤ length fs
length-drop_one fs = omega (arith, length-drop 1 fs)

-- One client whose buffer stays bounded, or no client, changes.
set_conn-HasRoom :
    (c : ℕ) (d : Client) (h : Hub)
    → HasRoom h
    → (length (h.conns c).send ≤ 32 → length d.send ≤ 32)
    → HasRoom (set_conn c d h)
set_conn-HasRoom c d h room bound x l = elim (Bool-cases (c == x)) [
  | inl e ↦ rw e (bound (subst (λ y. length (h.conns y).send ≤ 32) (sym (==→eq c x e)) (room x l)))
  | inr e ↦ rw e (room x l)
]

close_conn-HasRoom :
    (c : ℕ) (reason : String) (h : Hub)
    → HasRoom h
    → HasRoom (set_conn c (close reason (h.conns c)) h)
close_conn-HasRoom c reason h room =
    set_conn-HasRoom c _ h room
      (λ b. subst (λ fs. length fs ≤ 32) (sym (close-send reason (h.conns c))) b)

created-HasRoom : (id : ℕ) (o : Option ℕ) (h : Hub) → HasRoom h → HasRoom (created id o h).1
created-HasRoom id none h room c l = room c l
created-HasRoom id (some a) h room c l = room c l

replaced-HasRoom :
    (o : Option ℕ) (a : ℕ) (rs : RoomState) (h : Hub)
    → HasRoom h
    → HasRoom (set_state a rs (close_existing o h))
replaced-HasRoom none a rs h room c l = room c l
replaced-HasRoom (some old) a rs h room c l =
    close_conn-HasRoom old "replaced by new connection" h room c l

removed-HasRoom : (a c : ℕ) (h : Hub) → HasRoom h → HasRoom (remove_client a c h).1
unfolding remove_client
removed-HasRoom a c h room =
    elim (Bool-cases (is_current c (lookup (h.conns c).user (h.states a).clients))) [
      | inl e ↦ rw e room
      | inr e ↦ rw e room
    ]

dropped-HasRoom : (id : ℕ) (o : Option ℕ) (h : Hub) → HasRoom h → HasRoom (dropped id o h)
dropped-HasRoom id none h room = room
dropped-HasRoom id (some a) h room = elim (Bool-cases (no_clients (h.states a))) [
  | inl e ↦ rw e room
  | inr e ↦ rw e room
]

flag-HasRoom : (a user : ℕ) (active : Bool) (h : Hub) → HasRoom h → HasRoom (flag a user active h).1
unfolding flag
flag-HasRoom a user active h room =
    let has = is_some (lookup user (h.states a).emergencies) in
    elim (Bool-cases (active && not has)) [
      | inl e ↦ rw e room
      | inr e ↦ elim (Bool-cases (not active && has)) [
        | inl f ↦ rw (e, f) room
        | inr f ↦ rw (e, f) room
      ]
    ]

allocated-HasRoom : (user id : ℕ) (h : Hub) → HasRoom h → HasRoom (allocated user id h)
allocated-HasRoom user id h room c l = elim (Bool-cases (h.next_conn == c)) [
  | inl e ↦ rw e (omega arith)
  | inr e ↦
      rw e (room c (let differ : c ≢ h.next_conn = λ f. ground arith in omega (arith, l, differ)))
]

Step-HasRoom : {h g : Hub} → HasRoom h → Step h g → HasRoom g
unfolding room_for_create insert_client drop_if_empty close_conn
Step-HasRoom {h} room (connects user id) = allocated-HasRoom user id h room
Step-HasRoom {h} room (opens id) = created-HasRoom id (room_for id h) h room
Step-HasRoom {h} room (inserts a c known) =
    let user = (h.conns c).user in
    replaced-HasRoom (lookup user (h.states a).clients) a
      (record (h.states a) { clients = put user c (h.states a).clients }) h room
Step-HasRoom {h} room (removes a c) = removed-HasRoom a c h room
Step-HasRoom {h} room (drops id) = dropped-HasRoom id (room_for id h) h room
Step-HasRoom {h} room (flags a user active) = flag-HasRoom a user active h room
Step-HasRoom {h} room (locates a ev) = room
Step-HasRoom {h} room (enqueues c b) =
    set_conn-HasRoom c _ h room (λ bound. (enqueue-Enqueued b (h.conns c) bound).bounded)
Step-HasRoom {h} room (closes c reason) = close_conn-HasRoom c reason h room
Step-HasRoom {h} room (takes c) =
    set_conn-HasRoom c _ h room (λ bound. omega (arith, bound, length-drop_one (h.conns c).send))

Run-HasRoom : (conns : ℕ → Client) {h : Hub} → Run (new_hub conns) h → HasRoom h
Run-HasRoom conns begun = λ c l. omega (arith, l)
Run-HasRoom conns (later r s) = Step-HasRoom (Run-HasRoom conns r) s

-- From a new hub, whatever requests run and however they interleave, a client that was allocated never
-- has more than 32 frames in its buffer, and what enqueue then does to it is to append the frame or to
-- close it with its first reason kept.
pub Run-Enqueued :
    (conns : ℕ → Client) (c : ℕ) (b : Frame) {h : Hub}
    → Run (new_hub conns) h
    → c < h.next_conn
    → (length (h.conns c).send ≤ 32) × Enqueued b (h.conns c) (enqueue b (h.conns c))
Run-Enqueued conns c b {h} run known =
    let bound = Run-HasRoom conns run c known in (bound, enqueue-Enqueued b (h.conns c) bound)
