-- ===== src/Realtime/Soundness.antt =====
-- What holds of the hub (internal/realtime/hub.go) in every order of its critical sections.
use convoy_backend.Realtime.Sections.{
  enqueue-user, same_user, kept_clients, flag-IsSound, dropped-IsSound, removed-IsSound,
  insert_client-IsSound, created-IsSound, new_hub-IsSound, allocated-IsSound, IsSound,
}
use convoy_backend.Realtime.Message.{Frame, pack}
use convoy_backend.Realtime.Reach.{broadcast-Reached, Reached}
use convoy_backend.Base.Maps.{lookup}
use convoy_backend.Realtime.Filing.{close-user}
use convoy_backend.Realtime.Message.{Frame}
use convoy_backend.Realtime.Steps.{
  begun, takes, closes, enqueues, locates, flags, drops, removes, inserts, opens, connects, later,
  Run, Step,
}
use convoy_backend.Realtime.Hub.{new_hub, Hub}
use convoy_backend.Realtime.Fanout.{broadcast, close_conn}
use convoy_backend.Realtime.Client.{Client}
use convoy_backend.Base.{some, refl, some, Option, ◌≡◌, ◌≡◌, ℕ}

pub Step-IsSound : {h g : Hub} → IsSound h → Step h g → IsSound g
unfolding close_conn
Step-IsSound {h} sound (connects user room) = allocated-IsSound h sound user room
Step-IsSound {h} sound (opens room) = created-IsSound h sound room
Step-IsSound {h} sound (inserts a c known) = insert_client-IsSound h sound a c known
Step-IsSound {h} sound (removes a c) = removed-IsSound h sound a c
Step-IsSound {h} sound (drops room) = dropped-IsSound h sound room
Step-IsSound {h} sound (flags a user active) = flag-IsSound h sound a user active
Step-IsSound {h} sound (locates a ev) = kept_clients h sound a _ refl
Step-IsSound {h} sound (enqueues c b) = same_user h sound c _ (enqueue-user b (h.conns c))
Step-IsSound {h} sound (closes c reason) = same_user h sound c _ (close-user reason (h.conns c))
Step-IsSound {h} sound (takes c) = same_user h sound c _ refl

-- From a new hub, whatever requests run and however their critical sections interleave, no two rooms
-- share a state, and in each state every user stands once, with a client of its own that was allocated.
pub Run-IsSound : (conns : ℕ → Client) {h : Hub} → Run (new_hub conns) h → IsSound h
Run-IsSound conns begun = new_hub-IsSound conns
Run-IsSound conns (later r s) = Step-IsSound (Run-IsSound conns r) s

-- From a new hub, whatever requests ran and however they interleaved, a broadcast to a room that the hub
-- has, of a frame that encodes, enqueues it exactly once for the client of each user in the room but the
-- excluded one, and touches no other connection.
pub Run-broadcast-Reached :
    (conns : ℕ → Client) (room a : ℕ) (f b : Frame) (exclude : Option ℕ) {h : Hub}
    → Run (new_hub conns) h
    → lookup room h.rooms ≡ some a
    → pack f ≡ some b
    → Reached room b exclude h (broadcast room f exclude h)
Run-broadcast-Reached conns room a f b exclude {h} run found encoded =
    broadcast-Reached room a f b exclude h found encoded ((Run-IsSound conns run).filed a)
