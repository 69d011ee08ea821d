-- ===== src/Rooms/Service/Core.antt =====
-- What the methods of internal/rooms/service.go share: the broadcaster interface, the state that a
-- method runs in, and the calls of the store and of the broadcaster.
use convoy_backend.Exec.Keeps.{Keeps}
use convoy_backend.Base.{true, false, ℕ, Bool, List, Option, none, some}
use convoy_backend.Text.{Text}
use convoy_backend.Httpx.{Error, room_not_found, err_forbidden}
use convoy_backend.Exec.{Exec, ok, pure, refuse, map_err, ◌>>=◌}
use convoy_backend.Schema.{Db, Role, owner, member}
use convoy_backend.Schema.Query.{OnDb, Session}
use convoy_backend.Rooms.Types.{Member, Destination, Stop, Message}
use convoy_backend.Rooms.Store.Member.{active_membership}

-- rooms.Broadcaster, over the state `H` of its implementation. The last three methods only read.
pub record Broadcaster (H : Type 0) : Type 0 where
  pub broadcast_member_joined : ℕ → Member → H → H
  pub broadcast_member_left : ℕ → ℕ → H → H
  pub broadcast_mute : ℕ → ℕ → Bool → ℕ → H → H
  pub kick_connection : ℕ → ℕ → ℕ → H → H
  pub broadcast_room_ended : ℕ → H → H
  pub broadcast_destination : ℕ → Option Destination → H → H
  pub broadcast_stops : ℕ → List Stop → H → H
  pub broadcast_owner_changed : ℕ → ℕ → ℕ → H → H
  pub broadcast_room_renamed : ℕ → Option Text → H → H
  pub broadcast_chat_message : ℕ → Message → H → H
  pub disconnect_user : ℕ → ℕ → H → H
  pub present_user_ids : ℕ → H → List ℕ
  pub present_count : ℕ → H → ℕ
  pub emergency_user_ids : ℕ → H → List ℕ

pub record World (H : Type 0) : Type 0 where
  pub session : Session
  pub live : H

-- Service: its store is the session; its broadcaster may be nil.
abbrev pub Service : Type 0 → Type 0
Service H = Option (Broadcaster H)

-- a caller who is no active member learns nothing else
abbrev pub hidden : Error → Error
hidden room_not_found = err_forbidden
hidden e = e

abbrev pub is_not_owner : Role → Bool
is_not_owner owner = false
is_not_owner member = true

module _ {H A : Type 0} where
  -- a call of s.store
  unfoldable pub on_store : Exec Session A → Exec (World H) A
  on_store m w = let (r, s) = m w.session in (r, record w { session = s })

module _ {H : Type 0} where
  -- `if s.rt != nil { ... }`
  unfoldable pub notify : Service H → (Broadcaster H → H → H) → Exec (World H) (Unit {0})
  notify none f w = (ok tt, w)
  notify (some rt) f w = (ok tt, record w { live = f rt w.live })

  unfoldable pub require_owner : ℕ → ℕ → Exec (World H) (Unit {0})
  require_owner room actor = do
    found ← map_err hidden (on_store (active_membership room actor))
    refuse (is_not_owner found.0) err_forbidden

  unfoldable pub assert_member : ℕ → ℕ → Exec (World H) Role
  assert_member room user = do
    found ← map_err hidden (on_store (active_membership room user))
    pure found.0

-- An invariant of the tables, as one of the service's state.
pub record OnWorld {H : Type 0} (P : Db → Type 0) (w : World H) : Type 0 where
  pub holds : P w.session.db

module _ {H A : Type 0} {P : Db → Type 0} where
  pub Keeps-on_store :
      (m : Exec Session A) → Keeps (OnDb P) m → Keeps (OnWorld {H = H} P) (on_store m)
  unfolding on_store
  Keeps-on_store m k = record {
    at = λ w h. record { holds = (k.at w.session (record { holds = h.holds })).holds };
  }

module _ {H : Type 0} {P : Db → Type 0} where
  pub Keeps-notify :
      (rt : Service H) (f : Broadcaster H → H → H) → Keeps (OnWorld {H = H} P) (notify rt f)
  unfolding notify
  Keeps-notify none f = record { at = λ w h. h }
  Keeps-notify (some b) f = record { at = λ w h. record { holds = h.holds } }
