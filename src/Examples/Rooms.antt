-- ===== src/Examples/Rooms.antt =====
-- The rooms: requests, membership, route, pins and messages on small tables.
use convoy_backend.Rooms.Admittance.{join-Admitted, Admitted}
use convoy_backend.Rooms.Posting.{post_message-Posted, Posted}
use convoy_backend.Rooms.Clearing.{clear_destination-Cleared}
use convoy_backend.Rooms.Store.Destination.{clear_destination_rows, placed}
use convoy_backend.Rooms.Store.Destination
use convoy_backend.Rooms.Store.Stop
use convoy_backend.Rooms.Service.Chat
use convoy_backend.Rooms.Service.Route
use convoy_backend.Examples.{code, said, users_only, convoy, world_of, rt, sdk, config}
use convoy_backend.Rooms.Stops.{add_stop-Appended}
use convoy_backend.Float64.{scale, less, negated, whole}
use convoy_backend.Rooms.Store.Rows.{room_of}
use convoy_backend.Rooms.Service.Labels.{bad_coords, trim_to, trim_label}
use convoy_backend.Rooms.Store.Chat.{create_message_rows, create_message, history}
use convoy_backend.Rooms.History.{history-resumes, IdIsKey}
use convoy_backend.Rooms.Store.Stop.{clear_stop_rows, new_stop, stops_of, list_stops, add_stop_rows}
use convoy_backend.Schema.Query.{write}
use convoy_backend.Rooms.Service.Route.{broadcast_stops}
use convoy_backend.Rooms.Creation.{Allocated, create-Allocated}
use convoy_backend.Rooms.Membership.{kick-Expelled, leave-Expelled}
use convoy_backend.Rooms.Access.{owner_only, member_only, NotMember, Untouched, NotOwner}
use convoy_backend.Rooms.Service.Membership.{draw, draw_digits, generate_code, create_loop}
use convoy_backend.Base.{◌∙◌, In, sym, ap, inl, inr, refl}
use convoy_backend.Rooms.Service.Membership
use convoy_backend.Rooms.Service.Moderation
use convoy_backend.Rooms.Store.Member
use convoy_backend.Rooms.Store.Member.{
  get_member, upsert_rows, kicked_out, active_membership, left_rows, kick_rows, new_member,
}
use convoy_backend.Rooms.Ownership.Serve.{serve-Owned}
use convoy_backend.Realtime.Hub.{Hub}
use convoy_backend.Rooms.Store.Room.{
  get_active_by_code, insert_owner, insert_room, create_room, new_owner, new_room,
}
use convoy_backend.Rooms.Service.Core.{assert_member, OnWorld, notify, require_owner, on_store}
use convoy_backend.Text.{to_upper, trim_space}
use convoy_backend.Schema.Query.{transaction, read}
use convoy_backend.Rooms.Ownership.Tables.{Owned}
use convoy_backend.Rooms.Handlers.Serve.{serve}
use convoy_backend.Base.{List, ℕ, ◌≡◌, ◌≢◌, refl, none, some, inl, inr, [], ◌∷◌, arith}
use convoy_backend.Exec.{gets, attempt, raise, pure, ◌>>=◌, map_err}
use convoy_backend.Schema.{MemberRow, Db, MessageRow}
use convoy_backend.Rooms.Handlers.{User, body}
use convoy_backend.Rooms.Handlers.Serve.{Request, post_room, post_join, post_owner, post_kick}

no_rooms : Owned users_only
no_rooms = record {
  unique_rooms = λ r r' i. absurd i;
  has_room = λ m i. absurd i;
  agrees = λ m r i. absurd i;
  owner_present = λ r i. absurd i;
}

-- user 7 creates a room, user 8 joins it and becomes its owner, and kicks user 7
abbrev requests : List (User × Request)
requests =
    let ann : User = record { id = 7; display_name = [] } in
    let bo : User = record { id = 8; display_name = [] } in
    (ann, post_room (record { target = none; problem = none }))
    ∷ (bo, post_join (body code))
    ∷ (ann, post_owner (some 51) (some 8))
    ∷ (bo, post_kick (some 51) (some 7))
    ∷ []

serve-Owned_example : Owned (serve rt sdk config requests (world_of users_only)).session.db
serve-Owned_example = serve-Owned rt sdk config requests (world_of users_only) no_rooms

-- user 8 is no owner of the room 1
bo_is_no_owner : NotOwner 1 8 convoy
bo_is_no_owner m (inl e) a = ground arith
bo_is_no_owner m (inr (inl e)) a = ap (λ (n : MemberRow). n.role) e
bo_is_no_owner m (inr (inr i)) a = absurd i

owner_only_example : Untouched (Moderation.kick rt 1 8 7) (world_of convoy)
owner_only_example = (owner_only rt 1 8 (world_of convoy) bo_is_no_owner).0 7

stranger : NotMember 1 9 convoy
stranger m (inl e) = rw e refl
stranger m (inr (inl e)) = rw e refl
stranger m (inr (inr i)) = absurd i

member_only_example : Untouched (Chat.post_message rt 1 9 (b'x' ∷ [])) (world_of convoy)
member_only_example = (member_only rt 1 9 (world_of convoy) stranger).0 (b'x' ∷ [])

kick-Expelled_example : NotMember 1 8 (Moderation.kick rt 1 7 8 (world_of convoy)).1.session.db
unfolding Moderation.kick Member.kick kick_rows require_owner active_membership on_store map_err
    read write notify ◌>>=◌ pure raise
kick-Expelled_example = (kick-Expelled rt 1 7 8 (world_of convoy)).holds.0.no_access

leave-Expelled_example : NotMember 1 8 (Membership.leave rt 1 8 (world_of convoy)).1.session.db
unfolding Membership.leave Member.mark_left left_rows on_store write notify ◌>>=◌ pure
leave-Expelled_example = (leave-Expelled rt 1 8 (world_of convoy)).holds.no_access

create-Allocated_example :
    OnWorld
      (Allocated 7 none users_only (room_of (new_room 51 code none 7 201)))
      (Membership.create {H = Hub} 7 none (world_of users_only)).1
unfolding Membership.create create_loop generate_code draw_digits draw create_room insert_room
    insert_owner on_store attempt transaction write ◌>>=◌ pure raise
create-Allocated_example = create-Allocated {H = Hub} 7 none (world_of users_only)

-- a member who was kicked joins again
kicked_convoy : Db
kicked_convoy = record convoy {
  room_members = new_owner 1 7 100 ∷ kicked_out 120 (new_member 1 8 101) ∷ [];
}

join-Admitted_example :
    OnWorld
      (Admitted code 8 kicked_convoy (room_of (new_room 1 code none 7 100)))
      (Membership.join rt 8 (b' ' ∷ code) (world_of kicked_convoy)).1
unfolding kicked_convoy Membership.join get_active_by_code Member.upsert_member upsert_rows
    get_member gets on_store attempt map_err read write notify ◌>>=◌ pure raise trim_space to_upper
join-Admitted_example = join-Admitted rt 8 (b' ' ∷ code) (world_of kicked_convoy)

add_stop-Appended_example :
    stops_of 1 (Route.add_stop rt 1 7 (whole 45) (negated 120) none (world_of convoy)).1.session.db
    ≡ record {
      id = 51;
      room_id = 1;
      lat = whole 45;
      lng = negated 120;
      label = none;
      position = 0;
      created_by = 7;
      created_at = 201;
    }
      ∷ []
unfolding Route.add_stop Stop.add_stop add_stop_rows broadcast_stops list_stops require_owner
    active_membership on_store map_err attempt read write notify ◌>>=◌ pure raise bad_coords
    trim_label trim_to less whole negated scale
add_stop-Appended_example =
    (add_stop-Appended rt 1 7 (whole 45) (negated 120) none (world_of convoy)).holds.route

abbrev thirty_one : ℕ
thirty_one = 31

abbrev thirty_three : ℕ
thirty_three = 33

first_other : thirty_one ≡ 32 → ⊥
first_other e = omega (arith, e)

last_other : thirty_three ≡ 32 → ⊥
last_other e = omega (arith, e)

said_key : IdIsKey (said 32) convoy
said_key m (inl e) same = absurd (first_other (sym (ap (λ (n : MessageRow). n.id) e) ∙ same))
said_key m (inr (inl e)) same = e
said_key m (inr (inr (inl e))) same =
    absurd (last_other (sym (ap (λ (n : MessageRow). n.id) e) ∙ same))
said_key m (inr (inr (inr i))) same = absurd i

once : (y : MessageRow) → In y (said 31 ∷ []) → y.id ≢ 32
once y (inl e) same = first_other (sym (ap (λ (n : MessageRow). n.id) e) ∙ same)
once y (inr i) same = absurd i

history-resumes_example : history convoy 1 (some 32) ≡ said 31 ∷ []
history-resumes_example =
    history-resumes convoy 1 (said 33 ∷ []) (said 32) (said 31 ∷ []) refl (inr (inl refl)) said_key
      once

post_message-Posted_example :
    Posted 1 8
      (b' ' ∷ b'y' ∷ [])
      convoy
      (record {
        id = 51;
        room_id = 1;
        user_id = 8;
        display_name = b'U' ∷ [];
        avatar_url = none;
        body = b'y' ∷ [];
        created_at = 201;
      })
      (Chat.post_message rt 1 8 (b' ' ∷ b'y' ∷ []) (world_of convoy)).1.session.db
unfolding Chat.post_message create_message create_message_rows assert_member active_membership
    on_store map_err read write notify ◌>>=◌ pure raise trim_space
post_message-Posted_example =
    (post_message-Posted rt 1 8 (b' ' ∷ b'y' ∷ []) (world_of convoy)).holds

-- with a destination and a stop
routed_convoy : Db
routed_convoy = record convoy {
  rooms = placed 7 (whole 1) (whole 2) none none 130 (new_room 1 code none 7 100) ∷ [];
  room_stops = new_stop 1 7 (whole 1) (whole 2) none 140 41 convoy ∷ [];
}

clear_destination-Cleared_example :
    stops_of 1 (Route.clear_destination rt 1 7 (world_of routed_convoy)).1.session.db ≡ []
unfolding routed_convoy Route.clear_destination Destination.clear_destination clear_destination_rows
    Stop.clear_stops clear_stop_rows require_owner active_membership on_store map_err read write
    notify ◌>>=◌ pure raise
clear_destination-Cleared_example =
    (clear_destination-Cleared rt 1 7 (world_of routed_convoy)).holds.no_stops
