-- ===== src/Examples/Realtime.antt =====
-- The connections: joining, leaving, buffers and kicks on a small hub.
use convoy_backend.Realtime.Buffers.{Run-Enqueued}
use convoy_backend.Realtime.Sections.{IsSound}
use convoy_backend.Realtime.Disconnect.{Run-disconnect-Gone}
use convoy_backend.Realtime.Soundness.{Run-IsSound, Run-broadcast-Reached}
use convoy_backend.Auth.Users.{load_user}
use convoy_backend.Examples.{world_of, convoy}
use convoy_backend.Realtime.Admission.{serve-Verdict}
use convoy_backend.Realtime.Entry.{Verdict}
use convoy_backend.Rooms.Service.Core.{on_store}
use convoy_backend.Rooms.Store.Stop.{list_stops}
use convoy_backend.Rooms.Store.Destination.{get_destination}
use convoy_backend.Rooms.Store.Member.{list_members, active_membership}
use convoy_backend.Rooms.Store.Room.{get_by_id}
use convoy_backend.Realtime.Handler
use convoy_backend.Realtime.Handler.{disconnect, accept, connected}
use convoy_backend.Realtime.Fanout.{broadcast, snapshot}
use convoy_backend.Exec.{pure, modify, gets, attempt, ◌>>=◌}
use convoy_backend.Schema.Query.{read}
use convoy_backend.Realtime.Departure.{leave-Left}
use convoy_backend.Realtime.Race.{overtaken_join-lost, overtaken_join}
use convoy_backend.Realtime.Presence.{IsApart, client_at}
use convoy_backend.Realtime.Transitions.{join-Joined, Joined}
use convoy_backend.Realtime.Handler.{allocated}
use convoy_backend.Realtime.Shutting.{kick_connection-closes_for_good}
use convoy_backend.Realtime.Steps.{
  join-Run, once, Run-trans, Run, leave-Run, inserts, removes, drops, opens, connects, later,
}
use convoy_backend.Base.Maps.{remove, put, lookup}
use convoy_backend.Realtime.Delivery.{drain_send-written}
use convoy_backend.Realtime.Client.{enqueue, new_client, drain_send, Socket}
use convoy_backend.Realtime.Hub.{
  drop_if_empty, remove_client, insert_client, room_for_create, Hub, join, leave, new_hub,
  is_present,
}
use convoy_backend.Realtime.Fanout.{kick_connection}
use convoy_backend.Realtime.Message.{pack, pong, kicked}
use convoy_backend.Base.{
  ◌≤◌, ltb, length, ℕ, ◌≡◌, ◌+◌, refl, true, false, none, some, [], ◌∷◌, arith,
}

-- no rooms; at the addresses 0 and 1 the connections of users 7 and 8 for the room 1
abbrev empty_hub : Hub
empty_hub = new_hub (λ c. new_client (c + 7) 1)

empty_IsApart : IsApart empty_hub
unfolding lookup
empty_IsApart = record {
  distinct = λ r r' a e. absurd (no_room a e);
  allocated = λ r a e. absurd (no_room a e);
}
  where
    no_room : (a : ℕ) → none ≡ some a → ⊥
    no_room a e = ground arith

-- user 7 is connected, then user 8 too
abbrev one_joined : Hub
one_joined = (join 1 0 empty_hub).1

abbrev both_joined : Hub
both_joined = (join 1 1 one_joined).1

one_Joined : Joined 1 0 empty_hub (join 1 0 empty_hub)
one_Joined = join-Joined 1 0 empty_hub empty_IsApart

both_Joined : Joined 1 1 one_joined (join 1 1 one_joined)
both_Joined = join-Joined 1 1 one_joined one_Joined.still_apart

join-Joined_example : client_at 1 8 both_joined ≡ some 1
unfolding join lookup
join-Joined_example = (join-Joined 1 1 one_joined one_Joined.still_apart).present

leave-Left_example : client_at 1 8 (leave 1 1 both_joined).1 ≡ none
unfolding join lookup put
leave-Left_example =
    ((leave-Left 1 1 both_joined both_Joined.still_apart).of_current both_Joined.present).0

abbrev socket : Socket
socket = record { client = new_client 7 1; written = []; shut = none }

-- the third write fails
drain_send-written_example :
    (drain_send (λ i. ltb i 2) 0 (pong ∷ kicked 7 8 ∷ pong ∷ []) socket).written
    ≡ pong ∷ kicked 7 8 ∷ []
drain_send-written_example =
    drain_send-written (λ i. ltb i 2) 0 (pong ∷ kicked 7 8 ∷ pong ∷ []) socket

overtaken_join-lost_example : is_present 1 8 (overtaken_join 1 0 1 one_joined) ≡ false
unfolding join lookup put
overtaken_join-lost_example = (overtaken_join-lost 1 0 0 1 one_joined refl refl).0

serve-Verdict_example :
    Verdict 1 8 convoy
      (world_of convoy).live
      (connected 0 true)
      (Handler.serve (some 1) (some 8) true (world_of convoy)).1
unfolding Handler.serve accept get_by_id active_membership load_user snapshot list_members
    get_destination list_stops on_store attempt read gets modify ◌>>=◌ pure join room_for_create
    insert_client lookup put
serve-Verdict_example = serve-Verdict 1 8 true (world_of convoy)

-- users 7 and 8 connect and join the room 1, one after the other
abbrev nobody_there : Hub
nobody_there = new_hub (λ c. new_client 0 0)

abbrev seven_there : Hub
seven_there = (join 1 0 (allocated 7 1 nobody_there)).1

abbrev both_there : Hub
both_there = (join 1 1 (allocated 8 1 seven_there)).1

both_there-Run : Run nobody_there both_there
unfolding join room_for_create insert_client lookup put
both_there-Run =
    Run-trans
      (Run-trans (once (connects 7 1)) (join-Run 1 0 (allocated 7 1 nobody_there) (omega arith)))
      (Run-trans (once (connects 8 1)) (join-Run 1 1 (allocated 8 1 seven_there) (omega arith)))

Run-broadcast-Reached_example :
    (broadcast 1 pong (some 7) both_there).conns 1 ≡ enqueue pong (both_there.conns 1)
unfolding join room_for_create insert_client lookup put pack
Run-broadcast-Reached_example =
    (Run-broadcast-Reached (λ c. new_client 0 0) 1 0 pong pong (some 7) both_there-Run refl
        refl).others_get
      8 1 refl refl

-- user 7 leaves, and its client is the last, while user 8 joins
abbrev overtaken_hub : Hub
overtaken_hub = overtaken_join 1 0 1 (allocated 8 1 seven_there)

overtaken-Run : Run nobody_there overtaken_hub
unfolding overtaken_join join room_for_create insert_client remove_client drop_if_empty lookup put
    remove
overtaken-Run =
    let h = allocated 8 1 seven_there in
    let before =
      Run-trans
        (Run-trans (once (connects 7 1)) (join-Run 1 0 (allocated 7 1 nobody_there) (omega arith)))
        (once (connects 8 1)) in
    later (later (later (later before (opens 1)) (removes 0 0)) (drops 1))
      (inserts 0 1 (omega arith))

Run-IsSound_example : IsSound overtaken_hub
Run-IsSound_example = Run-IsSound (λ c. new_client 0 0) overtaken-Run

-- after the kick, the kicked client's read loop ends and it leaves
kick_connection-closes_for_good_example :
    ((leave 1 1 (kick_connection 1 8 7 both_there)).1.conns 1).closed ≡ true
unfolding join room_for_create insert_client lookup put
kick_connection-closes_for_good_example =
    (kick_connection-closes_for_good (λ c. new_client 0 0) 1 8 7 1 both_there-Run refl
      (leave-Run 1 1 (kick_connection 1 8 7 both_there))).0

Run-disconnect-Gone_example : client_at 1 8 (disconnect 1 1 both_there) ≡ none
unfolding join room_for_create insert_client lookup put
Run-disconnect-Gone_example =
    (Run-disconnect-Gone (λ c. new_client 0 0) 1 1 both_there-Run (omega arith)).of_current refl

Run-Enqueued_example : length (both_there.conns 1).send ≤ 32
unfolding join room_for_create insert_client lookup put
Run-Enqueued_example = (Run-Enqueued (λ c. new_client 0 0) 1 pong both_there-Run (omega arith)).0
