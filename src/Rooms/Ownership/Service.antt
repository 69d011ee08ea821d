-- ===== src/Rooms/Ownership/Service.antt =====
-- Every method of the service keeps the ownership invariant, on success and on error.
use convoy_backend.Httpx.{invalid_utf8, no_rows, check_violation, other}
use convoy_backend.Base.{ℕ, zero, suc, ◌≡◌, refl, Bool, Option, none, some, List}
use convoy_backend.Text.{Text}
use convoy_backend.Float64.{Float64}
use convoy_backend.Httpx.{
  api, room_not_found, unique_violation, foreign_key_violation, connection_lost, scan_failed,
  no_randomness, no_room_code,
}
use convoy_backend.Exec.{Result, ok, err, Exec}
use convoy_backend.Exec.Keeps.{
  Keeps, Keeps-attempt, Keeps->>=, Keeps-pure, Keeps-raise, keeps_rules,
}
use convoy_backend.Schema.{Db}
use convoy_backend.Schema.Query.{Session, OnDb, Keeps-read}
use convoy_backend.Rooms.Types.{Room, Member, Stop}
use convoy_backend.Rooms.Store.Room.{get_active_by_code}
use convoy_backend.Rooms.Store.Member.{active_membership, get_member}
use convoy_backend.Rooms.Store.Stop.{list_stops}
use convoy_backend.Rooms.Service.Core.{
  Broadcaster, Service, World, OnWorld, on_store, notify, require_owner, assert_member,
  Keeps-on_store, Keeps-notify,
}
use convoy_backend.Rooms.Service.Membership
use convoy_backend.Rooms.Service.Membership.{
  draw, drawn, draw_digits, generate_code, retry, create_loop, announce, announce_member,
}
use convoy_backend.Rooms.Service.Route
use convoy_backend.Rooms.Service.Route.{fan_out, broadcast_stops_by, broadcast_stops}
use convoy_backend.Rooms.Service.Moderation
use convoy_backend.Rooms.Service.Chat
use convoy_backend.Rooms.Ownership.Tables.{IsOwned, Owned}
use convoy_backend.Rooms.Ownership.Store.{
  Keeps-end_room, Keeps-update_name, Keeps-set_destination, Keeps-update_destination_meta,
  Keeps-clear_destination, Keeps-upsert_member, Keeps-mark_left, Keeps-set_muted, Keeps-kick,
  Keeps-create_room,
}
use convoy_backend.Rooms.Ownership.Aside

drawn-db : (s : Session) (o : Option ℕ) → (drawn s o).1.db ≡ s.db
drawn-db s none = refl
drawn-db s (some n) = refl

module _ {P : Db → Type 0} where
  Keeps-draw : Keeps (OnDb P) draw
  unfolding draw
  Keeps-draw = record { at = λ s h. record { holds = rw (drawn-db s _) h.holds } }

  Keeps-draw_digits : (k : ℕ) → Keeps (OnDb P) (draw_digits k)
  unfolding draw_digits
  Keeps-draw_digits zero = search keeps_rules
  Keeps-draw_digits (suc k) =
      Keeps->>= _ _ Keeps-draw λ n. Keeps->>= _ _ (Keeps-draw_digits k) λ rest. Keeps-pure _

  Keeps-generate_code : Keeps (OnDb P) generate_code
  unfolding generate_code
  Keeps-generate_code = Keeps-draw_digits 6

module _ {H : Type 0} {P : World H → Type 0} where
  Keeps-retry :
      (r : Result Room) (next : Exec (World H) Room) → Keeps P next → Keeps P (retry r next)
  Keeps-retry (ok room) next k = Keeps-pure room
  Keeps-retry (err unique_violation) next k = k
  Keeps-retry (err (api e)) next k = Keeps-raise _
  Keeps-retry (err room_not_found) next k = Keeps-raise _
  Keeps-retry (err foreign_key_violation) next k = Keeps-raise _
  Keeps-retry (err connection_lost) next k = Keeps-raise _
  Keeps-retry (err scan_failed) next k = Keeps-raise _
  Keeps-retry (err invalid_utf8) next k = Keeps-raise _
  Keeps-retry (err no_rows) next k = Keeps-raise _
  Keeps-retry (err check_violation) next k = Keeps-raise _
  Keeps-retry (err (other _)) next k = Keeps-raise _
  Keeps-retry (err no_randomness) next k = Keeps-raise _
  Keeps-retry (err no_room_code) next k = Keeps-raise _

module _ {H : Type 0} (rt : Service H) {P : Db → Type 0} where
  Keeps-announce : (room : ℕ) (r : Result Member) → Keeps (OnWorld P) (announce rt room r)
  Keeps-announce room (ok m) = Keeps-notify rt _
  Keeps-announce room (err e) = Keeps-pure tt

  Keeps-announce_member :
      (s : Service H) (room user : ℕ) → Keeps (OnWorld P) (announce_member rt s room user)
  unfolding get_member
  Keeps-announce_member none room user = Keeps-pure tt
  Keeps-announce_member (some b) room user =
      search (keeps_rules, Keeps-on_store, Keeps-read, Keeps-announce)

  Keeps-fan_out : (room : ℕ) (r : Result (List Stop)) → Keeps (OnWorld P) (fan_out rt room r)
  Keeps-fan_out room (ok stops) = Keeps-notify rt _
  Keeps-fan_out room (err e) = Keeps-pure tt

  Keeps-broadcast_stops_by :
      (s : Service H) (room : ℕ) → Keeps (OnWorld P) (broadcast_stops_by rt s room)
  unfolding list_stops
  Keeps-broadcast_stops_by none room = Keeps-pure tt
  Keeps-broadcast_stops_by (some b) room =
      search (keeps_rules, Keeps-on_store, Keeps-read, Keeps-fan_out)

  pub Keeps-broadcast_stops : (room : ℕ) → Keeps (OnWorld P) (broadcast_stops rt room)
  unfolding broadcast_stops
  Keeps-broadcast_stops room = Keeps-broadcast_stops_by rt room

module _ {H : Type 0} where
  pub Keeps-require_owner :
      {P : Db → Type 0} (room actor : ℕ) → Keeps (OnWorld {H = H} P) (require_owner room actor)
  unfolding require_owner active_membership
  Keeps-require_owner room actor = search (keeps_rules, Keeps-on_store, Keeps-read)

  pub Keeps-assert_member :
      {P : Db → Type 0} (room user : ℕ) → Keeps (OnWorld {H = H} P) (assert_member room user)
  unfolding assert_member active_membership
  Keeps-assert_member room user = search (keeps_rules, Keeps-on_store, Keeps-read)

  Keeps-create_loop :
      (attempts owner_id : ℕ) (name : Option Text)
      → Keeps (OnWorld {H = H} Owned) (create_loop attempts owner_id name)
  unfolding create_loop
  Keeps-create_loop zero owner_id name = search keeps_rules
  Keeps-create_loop (suc k) owner_id name =
      Keeps->>= _ _ (Keeps-on_store _ Keeps-generate_code) λ code.
        Keeps->>= _ _ (Keeps-attempt _ (Keeps-on_store _ (Keeps-create_room owner_id code name)))
          λ r. Keeps-retry r _ (Keeps-create_loop k owner_id name)

pub ruleset service_rules = (
  keeps_rules, Keeps-on_store, Keeps-notify, Keeps-require_owner, Keeps-assert_member,
  Keeps-broadcast_stops,
)

module _ {H : Type 0} (rt : Service H) where
  pub create-Owned :
      (user : ℕ) (name : Option Text) → Keeps (OnWorld {H = H} Owned) (Membership.create user name)
  unfolding Membership.create
  create-Owned user name = Keeps-create_loop 8 user name

  pub join-Owned : (user : ℕ) (code : Text) → Keeps (OnWorld Owned) (Membership.join rt user code)
  unfolding Membership.join get_active_by_code
  join-Owned user code =
      search (service_rules, Keeps-read, Keeps-upsert_member, Keeps-announce_member)

  pub leave-Owned : (room user : ℕ) → Keeps (OnWorld Owned) (Membership.leave rt room user)
  unfolding Membership.leave
  leave-Owned room user = search (service_rules, Keeps-mark_left)

  pub rename-Owned :
      (room actor : ℕ) (name : Text) → Keeps (OnWorld Owned) (Moderation.rename rt room actor name)
  unfolding Moderation.rename
  rename-Owned room actor name = search (service_rules, Keeps-update_name)

  pub mute-Owned :
      (room actor target : ℕ) (muted : Bool)
      → Keeps (OnWorld Owned) (Moderation.mute rt room actor target muted)
  unfolding Moderation.mute
  mute-Owned room actor target muted = search (service_rules, Keeps-set_muted)

  pub kick-Owned :
      (room actor target : ℕ) → Keeps (OnWorld Owned) (Moderation.kick rt room actor target)
  unfolding Moderation.kick
  kick-Owned room actor target = search (service_rules, Keeps-kick)

  pub end-Owned : (room actor : ℕ) → Keeps (OnWorld Owned) (Moderation.end rt room actor)
  unfolding Moderation.end
  end-Owned room actor = search (service_rules, Keeps-end_room)

  pub set_destination-Owned :
      (room actor : ℕ) (lat lng : Float64) (name notes : Option Text)
      → Keeps (OnWorld Owned) (Route.set_destination rt room actor lat lng name notes)
  unfolding Route.set_destination
  set_destination-Owned room actor lat lng name notes =
      search (service_rules, Keeps-set_destination)

  pub update_destination_meta-Owned :
      (room actor : ℕ) (name notes : Option Text)
      → Keeps (OnWorld Owned) (Route.update_destination_meta rt room actor name notes)
  unfolding Route.update_destination_meta
  update_destination_meta-Owned room actor name notes =
      search (service_rules, Keeps-update_destination_meta)

  pub clear_destination-Owned :
      (room actor : ℕ) → Keeps (OnWorld Owned) (Route.clear_destination rt room actor)
  unfolding Route.clear_destination
  clear_destination-Owned room actor =
      search (service_rules, Keeps-clear_destination, Aside.Keeps-clear_stops IsOwned) depth 8

  pub add_stop-Owned :
      (room actor : ℕ) (lat lng : Float64) (label : Option Text)
      → Keeps (OnWorld Owned) (Route.add_stop rt room actor lat lng label)
  unfolding Route.add_stop
  add_stop-Owned room actor lat lng label = search (service_rules, Aside.Keeps-add_stop IsOwned)

  pub update_stop_label-Owned :
      (room actor id : ℕ) (label : Option Text)
      → Keeps (OnWorld Owned) (Route.update_stop_label rt room actor id label)
  unfolding Route.update_stop_label
  update_stop_label-Owned room actor id label =
      search (service_rules, Aside.Keeps-update_stop_label IsOwned)

  pub remove_stop-Owned :
      (room actor id : ℕ) → Keeps (OnWorld Owned) (Route.remove_stop rt room actor id)
  unfolding Route.remove_stop
  remove_stop-Owned room actor id = search (service_rules, Aside.Keeps-remove_stop IsOwned)

  pub clear_stops-Owned : (room actor : ℕ) → Keeps (OnWorld Owned) (Route.clear_stops rt room actor)
  unfolding Route.clear_stops
  clear_stops-Owned room actor = search (service_rules, Aside.Keeps-clear_stops IsOwned)

  pub post_message-Owned :
      (room user : ℕ) (text : Text) → Keeps (OnWorld Owned) (Chat.post_message rt room user text)
  unfolding Chat.post_message
  post_message-Owned room user text =
      search (service_rules, Aside.Keeps-create_message IsOwned) depth 8

module _ {H : Type 0} where
  pub set_personal_marker-Owned :
      (room user : ℕ) (lat lng : Float64) (label : Option Text)
      → Keeps (OnWorld {H = H} Owned) (Route.set_personal_marker room user lat lng label)
  unfolding Route.set_personal_marker
  set_personal_marker-Owned room user lat lng label =
      search (service_rules, Aside.Keeps-upsert_personal_marker IsOwned)

  pub clear_personal_marker-Owned :
      (room user : ℕ) → Keeps (OnWorld {H = H} Owned) (Route.clear_personal_marker room user)
  unfolding Route.clear_personal_marker
  clear_personal_marker-Owned room user =
      search (service_rules, Aside.Keeps-delete_personal_marker IsOwned)
