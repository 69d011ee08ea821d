-- ===== src/Rooms/Handlers.antt =====
-- internal/rooms/handlers.go: each REST handler, from what uuid.Parse and json.Decode make of the
-- request to the response. A handler never returns an error; it writes it.
pub mod Membership
pub mod Route
pub mod Moderation
pub mod Chat
pub mod Serve
pub use convoy_backend.Web.{Decoded, body, undecodable, Filled}
use convoy_backend.Base.{ℕ, String, Bool, List, Option, none, some, if◌then◌else◌}
use convoy_backend.Base.Int.{ℤ, pos}
use convoy_backend.Text.{Text}
use convoy_backend.Float64.{Float64}
use convoy_backend.Httpx.{
  ApiError, Error, api_err, room_not_found, err_bad_request, err_not_found, write_err,
}
use convoy_backend.Exec.{Result, ok, err, Exec, pure, attempt, map_err, ◌>>=◌, ◌>>◌}
use convoy_backend.Livekit.{Config, Sdk, enabled, issue_room_token, normalize_url}
use convoy_backend.Rooms.Types.{
  Room, Destination, PersonalMarker, Stop, Message, RoomDetail, ActiveRoom,
}
use convoy_backend.Rooms.Service.Core.{Broadcaster, Service, World, assert_member}

-- auth.User, as far as the handlers read it
pub record User : Type 0 where
  pub id : ℕ
  pub display_name : Text

pub data Payload : Type 0 where
  voice_token_res : Text → Text → Payload
  active_rooms : List ActiveRoom → Payload
  room_detail : RoomDetail → Payload
  room : Room → Payload
  destination : Destination → Payload
  personal_marker : PersonalMarker → Payload
  stop : Stop → Payload
  message : Message → Payload
  messages : List Message → Payload

pub data Response : Type 0 where
  json : ℕ → Payload → Response
  no_content : Response
  failure : ApiError → Response

abbrev pub status_ok : ℕ
status_ok = 200

abbrev pub status_created : ℕ
status_created = 201

abbrev pub Handler : Type 0 → Type 0
Handler H = Exec (World H) Response

abbrev pub written : {A : Type 0} → (A → Response) → Result A → Response
written f (ok a) = f a
written f (err e) = failure (write_err e)

abbrev pub done : {A : Type 0} → A → Response
done a = no_content

module _ {H : Type 0} where
  abbrev pub fail : Error → Handler H
  fail e = pure (failure (write_err e))

  -- `if err != nil { httpx.WriteErr(w, err); return }`, then the answer
  unfoldable pub answer : {A : Type 0} → Exec (World H) A → (A → Response) → Handler H
  answer m f = do r ← attempt m; pure (written f r)

  -- uuid.Parse of a URL parameter
  abbrev pub with_id : Option ℕ → (ℕ → Handler H) → Handler H
  with_id none k = fail err_bad_request
  with_id (some id) k = k id

  abbrev pub with_body : {A : Type 0} → Decoded A → (A → Handler H) → Handler H
  with_body (undecodable msg) k = fail (api_err 400 "invalid_body" msg)
  with_body (body a) k = k a
