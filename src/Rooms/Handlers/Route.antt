-- ===== src/Rooms/Handlers/Route.antt =====
-- The handlers of internal/rooms/handlers.go for the destination, the personal marker and the stops.
use convoy_backend.Base.{ℕ, Option}
use convoy_backend.Text.{Text}
use convoy_backend.Float64.{Float64}
use convoy_backend.Rooms.Service.Core.{Service}
use convoy_backend.Rooms.Service.Route
use convoy_backend.Rooms.Handlers.{
  User, Decoded, Handler, json, destination, personal_marker, stop, status_ok, status_created, done,
  answer, with_id, with_body,
}

pub record DestinationReq : Type 0 where
  pub lat : Float64
  pub lng : Float64
  pub name : Option Text
  pub notes : Option Text

pub record DestinationMetaReq : Type 0 where
  pub name : Option Text
  pub notes : Option Text

-- personalMarkerReq and addStopReq have the same fields
pub record PointReq : Type 0 where
  pub lat : Float64
  pub lng : Float64
  pub label : Option Text

module _ {H : Type 0} (rt : Service H) where
  unfoldable pub put_destination : User → Option ℕ → Decoded DestinationReq → Handler H
  put_destination actor room req = with_id room λ id. with_body req λ (r : DestinationReq).
      answer (Route.set_destination rt id actor.id r.lat r.lng r.name r.notes)
        (λ d. json status_ok (destination d))

  unfoldable pub patch_destination : User → Option ℕ → Decoded DestinationMetaReq → Handler H
  patch_destination actor room req = with_id room λ id. with_body req λ (r : DestinationMetaReq).
      answer (Route.update_destination_meta rt id actor.id r.name r.notes)
        (λ d. json status_ok (destination d))

  unfoldable pub delete_destination : User → Option ℕ → Handler H
  delete_destination actor room =
      with_id room λ id. answer (Route.clear_destination rt id actor.id) done

  unfoldable pub add_stop : User → Option ℕ → Decoded PointReq → Handler H
  add_stop actor room req = with_id room λ id. with_body req λ (r : PointReq).
      answer (Route.add_stop rt id actor.id r.lat r.lng r.label) (λ s. json status_created (stop s))

  unfoldable pub patch_stop : User → Option ℕ → Option ℕ → Decoded (Option Text) → Handler H
  patch_stop actor room stop_id req = with_id room λ id. with_id stop_id λ sid.
      with_body req λ label.
        answer (Route.update_stop_label rt id actor.id sid label) (λ s. json status_ok (stop s))

  unfoldable pub remove_stop : User → Option ℕ → Option ℕ → Handler H
  remove_stop actor room stop_id =
      with_id room λ id. with_id stop_id λ sid. answer (Route.remove_stop rt id actor.id sid) done

  unfoldable pub clear_stops : User → Option ℕ → Handler H
  clear_stops actor room = with_id room λ id. answer (Route.clear_stops rt id actor.id) done

module _ {H : Type 0} where
  unfoldable pub put_personal_marker : User → Option ℕ → Decoded PointReq → Handler H
  put_personal_marker user room req = with_id room λ id. with_body req λ (r : PointReq).
      answer (Route.set_personal_marker id user.id r.lat r.lng r.label)
        (λ m. json status_ok (personal_marker m))

  unfoldable pub delete_personal_marker : User → Option ℕ → Handler H
  delete_personal_marker user room =
      with_id room λ id. answer (Route.clear_personal_marker id user.id) done
