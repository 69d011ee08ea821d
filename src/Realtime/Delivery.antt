-- ===== src/Realtime/Delivery.antt =====
-- What reaches a connection: its buffer and its close (internal/realtime/client.go), and the kick of
-- internal/realtime/hub.go.
use convoy_backend.Base.Maps.{lookup}
use convoy_backend.Realtime.Presence.{state_of-same, client_at}
use convoy_backend.Realtime.Fanout.{
  client_of, targets, send_to, broadcast, kick_connection, push_packed, broadcast_packed,
  broadcast_at, kick_found, enqueue_all, close_conn,
}
use convoy_backend.Realtime.Hub.{RoomState, room_for, set_conn, Hub}
use convoy_backend.Base.{==_refl, ◌∙◌, Option, none, some, refl, sym, inl, inr, [], ◌∷◌, zero, suc}
use convoy_backend.Realtime.Message.{pack, kicked}
use convoy_backend.Realtime.Message.{Frame}
use convoy_backend.Realtime.Client.{send_buffer, Socket, write, Client, enqueue, close, drain_send}
use convoy_backend.Base.{
  length-append, ltb→lt, ◌⊎◌, ltb, sym, ◌≤◌, take, arith, length, Bool-cases, ap, ◌++◌,
  if◌then◌else◌, String, List, Bool, ℕ, ◌≡◌, refl, true, none, some, inl, inr, [], ◌∷◌, zero, suc,
}

-- What enqueue did: the frame stands last in the buffer, or the buffer was full and the client is
-- closed.
pub record Enqueued (b : Frame) (c c' : Client) : Type 0 where
  pub bounded : length c'.send ≤ 32
  pub outcome :
      ((c'.send ≡ c.send ++ b ∷ []) × (c'.closed ≡ c.closed) × (c'.reason ≡ c.reason))
      ⊎ ((length c.send ≡ 32)
          × (c'.send ≡ c.send)
          × (c'.closed ≡ true)
          × (c.closed ≡ true → c'.reason ≡ c.reason))

pub close-Closed :
    (reason : String) (c : Client)
    → ((close reason c).send ≡ c.send)
      × ((close reason c).closed ≡ true)
      × (c.closed ≡ true → (close reason c).reason ≡ c.reason)
unfolding close
close-Closed reason c = elim (Bool-cases c.closed) [
  | inl e ↦ rw e (refl, refl, λ f. refl)
  | inr e ↦ rw e (refl, refl, λ f. ground arith)
]

-- The buffer never holds more than 32 frames: enqueue appends the frame where there is room and
-- otherwise closes the client, keeping the reason of an earlier close.
pub enqueue-Enqueued : (b : Frame) (c : Client) → length c.send ≤ 32 → Enqueued b c (enqueue b c)
unfolding enqueue
enqueue-Enqueued b c bound = elim (Bool-cases (ltb (length c.send) send_buffer)) [
  | inl e ↦
      let l = ltb→lt (length c.send) send_buffer e in
      rw e (record {
        bounded = rw (length-append c.send (b ∷ [])) (omega (arith, l));
        outcome = inl (refl, refl, refl);
      })
  | inr e ↦
      let (s, d, r) = close-Closed "send buffer full" c in
      rw e (record { bounded = rw s bound; outcome = inr (ground arith, s, d, r) })
]

-- how many of `n` writes succeed from the i-th on, before one fails
abbrev accepted : (ℕ → Bool) → ℕ → ℕ → ℕ
accepted ok i zero = 0
accepted ok i (suc n) = let rest = accepted ok (suc i) n in if ok i then suc rest else 0

append-assoc-one :
    {A : Type 0} (xs : List A) (x : A) (ys : List A) → (xs ++ x ∷ []) ++ ys ≡ xs ++ x ∷ ys
append-assoc-one [] x ys = refl
append-assoc-one (z ∷ xs) x ys = ap (λ zs. z ∷ zs) (append-assoc-one xs x ys)

append-nil : {A : Type 0} (xs : List A) → xs ++ [] ≡ xs
append-nil [] = refl
append-nil (z ∷ xs) = ap (λ zs. z ∷ zs) (append-nil xs)

-- Before the socket is shut, drainSend writes the buffered frames in order, each once, up to the first
-- write that fails; all of them when none fails.
pub drain_send-written :
    (ok : ℕ → Bool) (i : ℕ) (msgs : List Frame) (k : Socket)
    → (drain_send ok i msgs k).written ≡ k.written ++ take (accepted ok i (length msgs)) msgs
unfolding drain_send write
drain_send-written ok i [] k = sym (append-nil k.written)
drain_send-written ok i (m ∷ msgs) k = elim (Bool-cases (ok i)) [
  | inl e ↦
      let k' = record k {
        client = record k.client { send = msgs };
        written = k.written ++ m ∷ [];
      } in
      rw e (
        drain_send-written ok (suc i) msgs k'
        ∙ append-assoc-one k.written m (take (accepted ok (suc i) (length msgs)) msgs))
  | inr e ↦ rw e (sym (append-nil k.written))
]

-- Broadcasting changes connections and nothing else.
enqueue_all-rooms : (b : Frame) (cs : List ℕ) (h : Hub) → (enqueue_all b cs h).rooms ≡ h.rooms
unfolding enqueue_all
enqueue_all-rooms b [] h = refl
enqueue_all-rooms b (c ∷ cs) h = enqueue_all-rooms b cs (set_conn c (enqueue b (h.conns c)) h)

enqueue_all-states : (b : Frame) (cs : List ℕ) (h : Hub) → (enqueue_all b cs h).states ≡ h.states
unfolding enqueue_all
enqueue_all-states b [] h = refl
enqueue_all-states b (c ∷ cs) h = enqueue_all-states b cs (set_conn c (enqueue b (h.conns c)) h)

abbrev pub SameRooms : Hub → Hub → Type 0
SameRooms h h' = (h'.rooms ≡ h.rooms) × (h'.states ≡ h.states)

broadcast_packed-SameRooms :
    (exclude : Option ℕ) (a : ℕ) (o : Option Frame) (h : Hub)
    → SameRooms h (broadcast_packed exclude a o h)
broadcast_packed-SameRooms exclude a none h = (refl, refl)
broadcast_packed-SameRooms exclude a (some b) h = (
  enqueue_all-rooms b (targets exclude (h.states a).clients) h,
  enqueue_all-states b (targets exclude (h.states a).clients) h,
)

pub broadcast_at-SameRooms :
    (exclude o : Option ℕ) (f : Frame) (h : Hub) → SameRooms h (broadcast_at exclude o f h)
broadcast_at-SameRooms exclude none f h = (refl, refl)
broadcast_at-SameRooms exclude (some a) f h = broadcast_packed-SameRooms exclude a (pack f) h

push_packed-SameRooms : (c : ℕ) (o : Option Frame) (h : Hub) → SameRooms h (push_packed c o h)
push_packed-SameRooms c none h = (refl, refl)
push_packed-SameRooms c (some b) h = (refl, refl)

module _ (room user by c : ℕ) where
  kick_found-closes :
      (h : Hub) (o : Option ℕ) → o ≡ some c → ((kick_found user by o h).conns c).closed ≡ true
  unfolding close_conn
  kick_found-closes h o e =
      let h' = send_to c (kicked user by) h in
      rw e (rw (==_refl c) (close-Closed "kicked" (h'.conns c)).1)

  -- A kick closes the connection that the target has in the room, whatever is in its buffer.
  pub kick_connection-closes :
      (h : Hub)
      → client_at room user h ≡ some c
      → ((kick_connection room user by h).conns c).closed ≡ true
  unfolding kick_connection broadcast
  kick_connection-closes h here =
      let h' = broadcast room (kicked user by) (some user) h in
      let (rooms, states) =
        broadcast_at-SameRooms (some user) (room_for room h) (kicked user by) h in
      kick_found-closes h' (client_of room user h') (
        ap (λ (s : RoomState). lookup user s.clients) (state_of-same h h' rooms states room) ∙ here)
