-- ===== src/Rooms/Ownership/Owner.antt =====
-- A method that the owner alone may call knows, after requireOwner, that the caller is the owner;
-- TransferOwnership needs it to keep the ownership invariant.
use convoy_backend.Rooms.Outcomes.{Leads-on_store}
use convoy_backend.Rooms.Store.Rows.{is_active_unkicked}
use convoy_backend.Rooms.Service.Moderation.{keep_destination}
use convoy_backend.Base.Rows.{In-first_where, first_where}
use convoy_backend.Rooms.Types.{Destination}
use convoy_backend.Schema.Leads.{Shows, Leads-read}
use convoy_backend.Rooms.Ownership.Service.{Keeps-assert_member}
use convoy_backend.Rooms.Ownership.Tables.{IsOwned, Owned}
use convoy_backend.Rooms.Ownership.Handover.{Leads-transfer_ownership, HasOwner, Asked}
use convoy_backend.Exec.Keeps.{Keeps-pure, keeps_rules, Keeps-attempt, Keeps}
use convoy_backend.Schema.Query.{Keeps-read, OnDb}
use convoy_backend.Rooms.Store.Member.{role_and_muted, active_membership}
use convoy_backend.Exec.Leads.{
  Leads-guard, Leads-map_err, Leads-Keeps, Keeps-Leads, Leads->>=, Leads,
}
use convoy_backend.Rooms.Service.Core.{
  Keeps-notify, assert_member, notify, is_not_owner, Keeps-on_store, hidden, OnWorld, on_store,
  World, Service, require_owner,
}
use convoy_backend.Schema.{member, owner, RoomRow, MemberRow, Role, Db}
use convoy_backend.Httpx.{err_forbidden}
use convoy_backend.Base.{some, none, refl, In, arith, ◌==◌, List, Option, Bool, ℕ, ◌≡◌, ◌≢◌}
use convoy_backend.Rooms.Store.Room
use convoy_backend.Rooms.Store.Destination.{get_destination}
use convoy_backend.Rooms.Service.Moderation
use convoy_backend.Rooms.Ownership.Aside
use convoy_backend.Exec.{attempt, ◌>>◌, refuse, ◌>>=◌, raise, Exec, pure, Result, ok, err}

-- the caller is a member, with the role that was read
Held : ℕ → ℕ → (Role × Bool) → Db → Type 0
Held room actor found db =
    Owned db
    × (m : MemberRow) × In m db.room_members
    × (m.room_id ≡ room)
    × (m.user_id ≡ actor)
    × (m.role ≡ found.0)

role_and_muted-Held :
    (room actor : ℕ) (db : Db) (found : Option MemberRow)
    → Owned db
    → first_where (is_active_unkicked room actor) db.room_members ≡ found
    → Shows (Held room actor) db (role_and_muted found)
unfolding Held
role_and_muted-Held room actor db none h e = tt
role_and_muted-Held room actor db (some m) h e =
    let (i, a) = In-first_where (is_active_unkicked room actor) db.room_members m e in
    (h, m, i, ground arith, ground arith, refl)

module _ {H : Type 0} (room actor : ℕ) where
  Leads-refuse :
      (found : Role × Bool)
      → Leads
          (OnWorld {H = H} (Held room actor found))
          (refuse (is_not_owner found.0) err_forbidden)
          (λ (_ : Unit {0}). OnWorld (Asked room actor))
          (OnWorld Owned)
  unfolding Held pure raise
  Leads-refuse (owner, b) = record {
    at = λ w h. let (o, m, i, r, u, e) = h.holds in record { holds = (o, (m, i, r, u, e)) };
  }
  Leads-refuse (member, b) = record { at = λ w h. record { holds = h.holds.0 } }

  Leads-require_owner :
      Leads
        (OnWorld {H = H} Owned)
        (require_owner room actor)
        (λ _. OnWorld (Asked room actor))
        (OnWorld Owned)
  unfolding require_owner active_membership
  Leads-require_owner =
      Leads->>= _ _
        (Leads-map_err hidden _ (
          Leads-on_store _
            (Leads-read _ (λ db h. h) (λ db h. role_and_muted-Held room actor db _ h refl))))
        Leads-refuse

module _ {H : Type 0} (rt : Service H) (room actor target : ℕ) where
  KeptAsked : List RoomRow → List MemberRow → Type 0
  KeptAsked rooms members = IsOwned rooms members × HasOwner room actor members

  Keeps-keep_destination :
      (r : Result (Option Destination))
      → Keeps (OnWorld (Asked room actor)) (keep_destination rt room actor r)
  unfolding KeptAsked
  Keeps-keep_destination (ok (some d)) =
      search (keeps_rules, Keeps-on_store, Aside.Keeps-upsert_personal_marker KeptAsked)
  Keeps-keep_destination (ok none) = Keeps-pure tt
  Keeps-keep_destination (err e) = Keeps-pure tt

  Keeps-get_destination : Keeps (OnDb (Asked room actor)) (get_destination room)
  unfolding get_destination
  Keeps-get_destination = Keeps-read _

  Asked-Owned : (w : World H) → OnWorld (Asked room actor) w → OnWorld Owned w
  Asked-Owned w h = record { holds = h.holds.0 }

  handover-Leads :
      actor ≢ target
      → Leads
          (OnWorld {H = H} (Asked room actor))
          (do
            on_store (Room.transfer_ownership room actor target)
            notify rt (λ b. b.broadcast_owner_changed room target actor))
          (λ _. OnWorld Owned)
          (OnWorld Owned)
  handover-Leads differ =
      Leads->>= _ _ (Leads-on_store _ (Leads-transfer_ownership room actor target differ))
        λ _. Leads-Keeps _ (λ w h. h) (Keeps-notify rt _)

  -- what TransferOwnership does once the caller is known to be the owner
  rest_of_transfer : Exec (World H) (Unit {0})
  rest_of_transfer = do
    assert_member room target
    dest ← attempt (on_store (get_destination room))
    keep_destination rt room actor dest
    on_store (Room.transfer_ownership room actor target)
    notify rt (λ b. b.broadcast_owner_changed room target actor)

  rest_of_transfer-Leads :
      actor ≢ target
      → Leads (OnWorld (Asked room actor)) rest_of_transfer (λ _. OnWorld Owned) (OnWorld Owned)
  unfolding rest_of_transfer
  rest_of_transfer-Leads differ =
      Leads->>= _ _ (Leads-Keeps _ Asked-Owned (Keeps-assert_member room target)) λ _.
        Leads->>= _ _
          (Leads-Keeps _ Asked-Owned (Keeps-attempt _ (Keeps-on_store _ Keeps-get_destination)))
          λ dest.
            Leads->>= _ _ (Leads-Keeps _ Asked-Owned (Keeps-keep_destination dest))
              λ _. handover-Leads differ

  pub transfer_ownership-Owned :
      Keeps (OnWorld Owned) (Moderation.transfer_ownership rt room actor target)
  unfolding Moderation.transfer_ownership rest_of_transfer
  transfer_ownership-Owned = Keeps-Leads _ (
      Leads->>= _ _ (Leads-require_owner room actor) λ _.
        Leads-guard (actor == target) _ _ Asked-Owned
          (λ e. rest_of_transfer-Leads (λ same. ground arith)))
