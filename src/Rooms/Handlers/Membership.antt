-- ===== src/Rooms/Handlers/Membership.antt =====
-- The handlers of internal/rooms/handlers.go for rooms as a whole: voice, lists, creation, joining.
use convoy_backend.Base.{ℕ, Option, none, some, if◌then◌else◌}
use convoy_backend.Text.{Text}
use convoy_backend.Httpx.{Error, api_err, room_not_found, err_not_found, write_err}
use convoy_backend.Exec.{Result, ok, err, attempt, map_err, ◌>>=◌, ◌>>◌}
use convoy_backend.Livekit.{Config, Sdk, enabled, issue_room_token, normalize_url}
use convoy_backend.Rooms.Types.{Room}
use convoy_backend.Rooms.Service.Core.{Service, assert_member}
use convoy_backend.Rooms.Service.Membership
use convoy_backend.Rooms.Service.Detail
use convoy_backend.Rooms.Handlers.{
  Filled, User, Response, Decoded, Handler, json, failure, voice_token_res, active_rooms,
  room_detail, status_ok, status_created, done, fail, answer, with_id, with_body,
}

abbrev token_res : Config → Option Text → Response
token_res cfg none =
    failure (write_err (api_err 500 "voice_token_failed" "could not create voice token"))
token_res cfg (some token) = json status_ok (voice_token_res token (normalize_url cfg.url))

module _ {H : Type 0} where
  unfoldable pub voice_token : Sdk → Config → User → Option ℕ → Handler H
  voice_token sdk cfg user room =
      if enabled cfg
      then (with_id room λ id.
          answer (assert_member id user.id)
            λ role. token_res cfg (issue_room_token sdk cfg id user.id user.display_name))
      else fail (api_err 503 "voice_unavailable" "voice is not configured on the server")

  module _ (rt : Service H) where
    unfoldable pub list_active : User → Handler H
    list_active user =
        answer (Detail.list_active_for_user rt user.id) (λ rs. json status_ok (active_rooms rs))

    -- the room that the service returned, in full
    abbrev pub detailed : ℕ → ℕ → Result Room → Handler H
    detailed status user (err e) = fail e
    detailed status user (ok r) =
        answer (Detail.detail rt r.id user) (λ d. json status (room_detail d))

    -- the body is optional: whatever the decoder says, the name is what it has filled in
    unfoldable pub create : User → Filled (Option Text) → Handler H
    create user req = do
      r ← attempt (Membership.create user.id req.target)
      detailed status_created user.id r

    unfoldable pub join : User → Decoded Text → Handler H
    join user req =
        with_body req
          λ code. do r ← attempt (Membership.join rt user.id code); detailed status_ok user.id r

    abbrev not_found_as_api : Error → Error
    not_found_as_api room_not_found = err_not_found
    not_found_as_api e = e

    unfoldable pub get : User → Option ℕ → Handler H
    get user room = with_id room λ id.
        answer (do assert_member id user.id; map_err not_found_as_api (Detail.detail rt id user.id))
          (λ d. json status_ok (room_detail d))

    unfoldable pub leave : User → Option ℕ → Handler H
    leave user room = with_id room λ id. answer (Membership.leave rt id user.id) done
