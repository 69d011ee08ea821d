-- ===== src/Realtime/Client.antt =====
-- internal/realtime/client.go: a connection's buffer, its one close, and the pump that writes.
use convoy_backend.Base.{
  suc, ℕ, String, Bool, true, false, ltb, length, List, [], ◌∷◌, ◌++◌, Option, some, if◌then◌else◌,
}
use convoy_backend.Realtime.Message.{Frame}

-- `send` is the buffered channel, oldest first; `closed` is the channel that close() closes.
pub record Client : Type 0 where
  pub user : ℕ
  pub room_id : ℕ
  pub send : List Frame
  pub closed : Bool
  pub reason : String

abbrev pub send_buffer : ℕ
send_buffer = 32

abbrev pub new_client : ℕ → ℕ → Client
new_client user room = record {
  user = user;
  room_id = room;
  send = [];
  closed = false;
  reason = "";
}

-- closeOnce
unfoldable pub close : String → Client → Client
close reason c = if c.closed then c else record c { closed = true; reason = reason }

-- a full buffer drops the frame and disconnects the client
unfoldable pub enqueue : Frame → Client → Client
unfolding close
enqueue b c =
    if ltb (length c.send) send_buffer
    then record c { send = c.send ++ b ∷ [] }
    else close "send buffer full" c

-- The socket: the frames written to it, and whether it was shut.
pub record Socket : Type 0 where
  pub client : Client
  pub written : List Frame
  pub shut : Option String

-- c.write, where the environment says whether conn.Write succeeds
unfoldable pub write : Bool → Frame → Socket → Bool × Socket
write true msg k = (true, record k { written = k.written ++ msg ∷ [] })
write false msg k = (false, record k { client = close "write error" k.client })

abbrev drained : (Bool × Socket) → (Socket → Socket) → Socket
drained (true, k) rest = rest k
drained (false, k) rest = k

-- c.drainSend: one turn for each frame still buffered, until a write fails; `ok i` is the outcome of
-- the i-th write
unfoldable pub drain_send : (ℕ → Bool) → ℕ → List Frame → Socket → Socket
drain_send ok i [] k = record k { client = record k.client { send = [] } }
drain_send ok i (msg ∷ rest) k =
    let popped = record k { client = record k.client { send = rest } } in
    drained (write (ok i) msg popped) (drain_send ok (suc i) rest)

-- c.shutdown, with the reason of the deferred call
abbrev closing_reason : String → String
closing_reason String.[] = "closed"
closing_reason (String.◌∷◌ ch s) = String.◌∷◌ ch s

unfoldable pub shutdown : Socket → Socket
shutdown k = record k { shut = some (closing_reason k.client.reason) }

-- One turn of the select in writePump.
pub data Turn : Type 0 where
  ctx_done : Turn
  closed_signal : (ℕ → Bool) → Turn
  send_ready : Bool → Turn
  ping_tick : Bool → Turn

-- The pump goes on, or it has returned and the deferred shutdown has run.
pub data Pump : Type 0 where
  running : Socket → Pump
  returned : Socket → Pump

abbrev after_write : (Bool × Socket) → Pump
after_write (true, k) = running k
after_write (false, k) = returned (shutdown k)

abbrev send_first : Bool → List Frame → Socket → Pump
send_first ok [] k = running k
send_first ok (msg ∷ rest) k =
    after_write (write ok msg (record k { client = record k.client { send = rest } }))

-- A turn whose channel is not ready is not taken.
unfoldable pub pump_turn : Turn → Socket → Pump
unfolding write close drain_send shutdown
pump_turn ctx_done k = returned (shutdown k)
pump_turn (closed_signal ok) k =
    if k.client.closed then returned (shutdown (drain_send ok 0 k.client.send k)) else running k
pump_turn (send_ready ok) k = send_first ok k.client.send k
pump_turn (ping_tick true) k = running k
pump_turn (ping_tick false) k =
    returned (shutdown (record k { client = close "ping failed" k.client }))
