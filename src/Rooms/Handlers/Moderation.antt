-- ===== src/Rooms/Handlers/Moderation.antt =====
-- The handlers of internal/rooms/handlers.go with which an owner runs a room.
use convoy_backend.Base.{ℕ, Bool, Option}
use convoy_backend.Text.{Text}
use convoy_backend.Rooms.Service.Core.{Service}
use convoy_backend.Rooms.Service.Moderation
use convoy_backend.Rooms.Handlers.{
  User, Decoded, Handler, json, room, status_ok, done, answer, with_id, with_body,
}

module _ {H : Type 0} (rt : Service H) where
  unfoldable pub rename : User → Option ℕ → Decoded Text → Handler H
  rename actor room_id req = with_id room_id λ id.
      with_body req
        λ name. answer (Moderation.rename rt id actor.id name) (λ r. json status_ok (room r))

  unfoldable pub mute : User → Option ℕ → Option ℕ → Decoded Bool → Handler H
  mute actor room_id user_id req = with_id room_id λ id.
      with_id user_id
        λ target. with_body req λ muted. answer (Moderation.mute rt id actor.id target muted) done

  unfoldable pub kick : User → Option ℕ → Option ℕ → Handler H
  kick actor room_id user_id =
      with_id room_id
        λ id. with_id user_id λ target. answer (Moderation.kick rt id actor.id target) done

  unfoldable pub transfer_owner : User → Option ℕ → Option ℕ → Handler H
  transfer_owner actor room_id user_id = with_id room_id λ id.
      with_id user_id λ target. answer (Moderation.transfer_ownership rt id actor.id target) done

  unfoldable pub end : User → Option ℕ → Handler H
  end actor room_id = with_id room_id λ id. answer (Moderation.end rt id actor.id) done
