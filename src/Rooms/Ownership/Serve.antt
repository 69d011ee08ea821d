-- ===== src/Rooms/Ownership/Serve.antt =====
-- The ownership invariant over a run of requests to the handlers of internal/rooms/handlers.go.
use convoy_backend.Rooms.Handlers.Serve.{
  Request, handle, serve, get_active, post_room, post_join, get_room, put_name, post_leave,
  put_destination, patch_destination, delete_destination, put_personal_marker,
  delete_personal_marker, post_stop, delete_stops, patch_stop, delete_stop, get_messages,
  post_message, post_mute, post_kick, post_owner, delete_room, post_voice_token,
}
use convoy_backend.Rooms.Ownership.Owner.{transfer_ownership-Owned}
use convoy_backend.Rooms.Ownership.Tables.{Owned}
use convoy_backend.Rooms.Handlers.Serve.{Request, handle}
use convoy_backend.Rooms.Store.Stop.{list_stops}
use convoy_backend.Rooms.Store.Marker.{get_personal_marker}
use convoy_backend.Schema.Query.{Keeps-read}
use convoy_backend.Rooms.Ownership.Service.{
  create-Owned, clear_personal_marker-Owned, set_personal_marker-Owned, post_message-Owned,
  clear_stops-Owned, remove_stop-Owned, update_stop_label-Owned, add_stop-Owned,
  clear_destination-Owned, update_destination_meta-Owned, set_destination-Owned, end-Owned,
  kick-Owned, mute-Owned, rename-Owned, leave-Owned, join-Owned, service_rules, Keeps-assert_member,
}
use convoy_backend.Rooms.Store.Destination.{get_destination}
use convoy_backend.Livekit.{Config, Sdk}
use convoy_backend.Rooms.Store.Room.{get_by_id}
use convoy_backend.Rooms.Types.{Room}
use convoy_backend.Base.Int.{ℤ}
use convoy_backend.Rooms.Store.Member.{list_members, list_active_rooms_for_user}
use convoy_backend.Exec.Keeps.{Keeps-pure, Keeps, keeps_rules}
use convoy_backend.Schema.{Db}
use convoy_backend.Rooms.Service.Core.{Keeps-on_store, OnWorld, Service, World}
use convoy_backend.Base.{[], ◌∷◌, List, ℕ, Option, none, some}
use convoy_backend.Exec.{Exec, Result, ok, err}
use convoy_backend.Rooms.Store
use convoy_backend.Rooms.Service
use convoy_backend.Rooms.Handlers
use convoy_backend.Rooms.Handlers.Chat.{Cursor, absent, at, malformed, with_cursor}
use convoy_backend.Rooms.Handlers.{
  with_body, with_id, answer, User, Payload, Response, Decoded, body, undecodable, Handler,
}

module _ {H : Type 0} {P : World H → Type 0} where
  Keeps-answer :
      {A : Type 0} (m : Exec (World H) A) (f : A → Response) → Keeps P m → Keeps P (answer m f)
  unfolding answer
  Keeps-answer m f k = search keeps_rules

  Keeps-with_id :
      (o : Option ℕ) (k : ℕ → Handler H) → ((id : ℕ) → Keeps P (k id)) → Keeps P (with_id o k)
  Keeps-with_id none k h = Keeps-pure _
  Keeps-with_id (some id) k h = h id

  Keeps-with_body :
      {A : Type 0} (r : Decoded A) (k : A → Handler H)
      → ((a : A) → Keeps P (k a))
      → Keeps P (with_body r k)
  Keeps-with_body (undecodable msg) k h = Keeps-pure _
  Keeps-with_body (body a) k h = h a

  Keeps-with_cursor :
      (c : Cursor) (k : Option ℕ → Handler H)
      → ((o : Option ℕ) → Keeps P (k o))
      → Keeps P (with_cursor c k)
  Keeps-with_cursor absent k h = h none
  Keeps-with_cursor (at id) k h = h (some id)
  Keeps-with_cursor malformed k h = Keeps-pure _

module _ {H : Type 0} (rt : Service H) {P : Db → Type 0} where
  Keeps-detail : (room viewer : ℕ) → Keeps (OnWorld P) (Service.Detail.detail rt room viewer)
  unfolding Service.Detail.detail get_by_id list_members get_destination get_personal_marker
      list_stops
  Keeps-detail room viewer = search (keeps_rules, Keeps-on_store, Keeps-read) depth 10

  Keeps-list_active : (user : ℕ) → Keeps (OnWorld P) (Service.Detail.list_active_for_user rt user)
  unfolding Service.Detail.list_active_for_user list_active_rooms_for_user
  Keeps-list_active user = search (keeps_rules, Keeps-on_store, Keeps-read)

  Keeps-detailed :
      (status user : ℕ) (r : Result Room)
      → Keeps (OnWorld P) (Handlers.Membership.detailed rt status user r)
  Keeps-detailed status user (err e) = Keeps-pure _
  Keeps-detailed status user (ok r) = Keeps-answer _ _ (Keeps-detail _ _)

module _ {H : Type 0} {P : Db → Type 0} where
  Keeps-list_messages :
      (room user : ℕ) (before : Option ℕ) (limit : ℤ)
      → Keeps (OnWorld {H = H} P) (Service.Chat.list_messages room user before limit)
  unfolding Service.Chat.list_messages Store.Chat.list_messages
  Keeps-list_messages room user before limit = search (service_rules, Keeps-read)

  Keeps-voice_token :
      (sdk : Sdk) (cfg : Config) (user : User) (room : Option ℕ)
      → Keeps (OnWorld {H = H} P) (Handlers.Membership.voice_token sdk cfg user room)
  unfolding Handlers.Membership.voice_token
  Keeps-voice_token sdk cfg user room =
      search (keeps_rules, Keeps-with_id, Keeps-answer, Keeps-assert_member)

ruleset handler_rules = (keeps_rules, Keeps-answer, Keeps-with_id, Keeps-with_body)

ruleset owned_rules = (
  join-Owned, leave-Owned, rename-Owned, mute-Owned, kick-Owned, end-Owned, set_destination-Owned,
  update_destination_meta-Owned, clear_destination-Owned, add_stop-Owned, update_stop_label-Owned,
  remove_stop-Owned, clear_stops-Owned, post_message-Owned, set_personal_marker-Owned,
  clear_personal_marker-Owned, create-Owned, transfer_ownership-Owned, Keeps-detail,
  Keeps-list_active, Keeps-list_messages, Keeps-detailed, Keeps-assert_member, Keeps-voice_token,
)

module _ {H : Type 0} (rt : Service H) (sdk : Sdk) (cfg : Config) where
  handle-Owned : (u : User) (r : Request) → Keeps (OnWorld Owned) (handle rt sdk cfg u r)
  unfolding handle Handlers.Membership.list_active Handlers.Membership.create
      Handlers.Membership.join Handlers.Membership.get Handlers.Membership.leave
      Handlers.Route.put_destination Handlers.Route.patch_destination
      Handlers.Route.delete_destination Handlers.Route.put_personal_marker
      Handlers.Route.delete_personal_marker Handlers.Route.add_stop Handlers.Route.clear_stops
      Handlers.Route.patch_stop Handlers.Route.remove_stop Handlers.Chat.list_messages
      Handlers.Chat.post_message Handlers.Moderation.rename Handlers.Moderation.mute
      Handlers.Moderation.kick Handlers.Moderation.transfer_owner Handlers.Moderation.end
  handle-Owned u get_active = search (handler_rules, owned_rules)
  handle-Owned u (post_room req) = search (handler_rules, owned_rules)
  handle-Owned u (post_join req) = search (handler_rules, owned_rules)
  handle-Owned u (get_room r) = search (handler_rules, owned_rules)
  handle-Owned u (put_name r req) = search (handler_rules, owned_rules)
  handle-Owned u (post_leave r) = search (handler_rules, owned_rules)
  handle-Owned u (put_destination r req) = search (handler_rules, owned_rules)
  handle-Owned u (patch_destination r req) = search (handler_rules, owned_rules)
  handle-Owned u (delete_destination r) = search (handler_rules, owned_rules)
  handle-Owned u (put_personal_marker r req) = search (handler_rules, owned_rules)
  handle-Owned u (delete_personal_marker r) = search (handler_rules, owned_rules)
  handle-Owned u (post_stop r req) = search (handler_rules, owned_rules)
  handle-Owned u (delete_stops r) = search (handler_rules, owned_rules)
  handle-Owned u (patch_stop r s req) = search (handler_rules, owned_rules)
  handle-Owned u (delete_stop r s) = search (handler_rules, owned_rules)
  handle-Owned u (get_messages r before limit) =
      search (handler_rules, owned_rules, Keeps-with_cursor)
  handle-Owned u (post_message r req) = search (handler_rules, owned_rules)
  handle-Owned u (post_mute r t req) = search (handler_rules, owned_rules)
  handle-Owned u (post_kick r t) = search (handler_rules, owned_rules)
  handle-Owned u (post_owner r t) = search (handler_rules, owned_rules)
  handle-Owned u (delete_room r) = search (handler_rules, owned_rules)
  handle-Owned u (post_voice_token r) = search (handler_rules, owned_rules)

  -- Whatever requests are served, one after another, by whatever users, and whichever queries fail:
  -- if each room's owner and roles agree before, they agree after.
  pub serve-Owned :
      (requests : List (User × Request)) (w : World H)
      → Owned w.session.db
      → Owned (serve rt sdk cfg requests w).session.db
  unfolding serve
  serve-Owned [] w h = h
  serve-Owned ((u, r) ∷ rest) w h =
      serve-Owned rest _ ((handle-Owned u r).at w (record { holds = h })).holds
