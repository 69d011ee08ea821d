-- ===== src/Rooms/Handlers/Serve.antt =====
-- `Routes` of internal/rooms/handlers.go: which request goes to which handler, and a run of requests.
use convoy_backend.Base.{ℕ, Bool, List, [], ◌∷◌, Option}
use convoy_backend.Base.Int.{ℤ}
use convoy_backend.Text.{Text}
use convoy_backend.Livekit.{Config, Sdk}
use convoy_backend.Rooms.Service.Core.{Service, World}
use convoy_backend.Rooms.Handlers.{Filled, User, Decoded, Handler}
use convoy_backend.Rooms.Handlers.Membership
use convoy_backend.Rooms.Handlers.Route
use convoy_backend.Rooms.Handlers.Route.{DestinationReq, DestinationMetaReq, PointReq}
use convoy_backend.Rooms.Handlers.Moderation
use convoy_backend.Rooms.Handlers.Chat
use convoy_backend.Rooms.Handlers.Chat.{Cursor}

-- A constructor is a method and a path; its arguments are the parameters of the URL and the body.
pub data Request : Type 0 where
  get_active : Request
  post_room : Filled (Option Text) → Request
  post_join : Decoded Text → Request
  get_room : Option ℕ → Request
  put_name : Option ℕ → Decoded Text → Request
  post_leave : Option ℕ → Request
  put_destination : Option ℕ → Decoded DestinationReq → Request
  patch_destination : Option ℕ → Decoded DestinationMetaReq → Request
  delete_destination : Option ℕ → Request
  put_personal_marker : Option ℕ → Decoded PointReq → Request
  delete_personal_marker : Option ℕ → Request
  post_stop : Option ℕ → Decoded PointReq → Request
  delete_stops : Option ℕ → Request
  patch_stop : Option ℕ → Option ℕ → Decoded (Option Text) → Request
  delete_stop : Option ℕ → Option ℕ → Request
  get_messages : Option ℕ → Cursor → Option ℤ → Request
  post_message : Option ℕ → Decoded Text → Request
  post_mute : Option ℕ → Option ℕ → Decoded Bool → Request
  post_kick : Option ℕ → Option ℕ → Request
  post_owner : Option ℕ → Option ℕ → Request
  delete_room : Option ℕ → Request
  post_voice_token : Option ℕ → Request

module _ {H : Type 0} (rt : Service H) (sdk : Sdk) (cfg : Config) where
  unfoldable pub handle : User → Request → Handler H
  handle u get_active = Membership.list_active rt u
  handle u (post_room req) = Membership.create rt u req
  handle u (post_join req) = Membership.join rt u req
  handle u (get_room r) = Membership.get rt u r
  handle u (put_name r req) = Moderation.rename rt u r req
  handle u (post_leave r) = Membership.leave rt u r
  handle u (put_destination r req) = Route.put_destination rt u r req
  handle u (patch_destination r req) = Route.patch_destination rt u r req
  handle u (delete_destination r) = Route.delete_destination rt u r
  handle u (put_personal_marker r req) = Route.put_personal_marker u r req
  handle u (delete_personal_marker r) = Route.delete_personal_marker u r
  handle u (post_stop r req) = Route.add_stop rt u r req
  handle u (delete_stops r) = Route.clear_stops rt u r
  handle u (patch_stop r s req) = Route.patch_stop rt u r s req
  handle u (delete_stop r s) = Route.remove_stop rt u r s
  handle u (get_messages r before limit) = Chat.list_messages u r before limit
  handle u (post_message r req) = Chat.post_message rt u r req
  handle u (post_mute r t req) = Moderation.mute rt u r t req
  handle u (post_kick r t) = Moderation.kick rt u r t
  handle u (post_owner r t) = Moderation.transfer_owner rt u r t
  handle u (delete_room r) = Moderation.end rt u r
  handle u (post_voice_token r) = Membership.voice_token sdk cfg u r

  -- requests one after another, each with the user that the middleware put into its context
  unfoldable pub serve : List (User × Request) → World H → World H
  serve [] w = w
  serve ((u, r) ∷ rest) w = serve rest (handle u r w).1
