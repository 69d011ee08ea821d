-- ===== src/Realtime/Entry.antt =====
-- What a websocket is given for, and how one is entered: ServeHTTP of internal/realtime/handler.go from
-- the upgrade on.
use convoy_backend.Auth.Users.{live_user}
use convoy_backend.Base.{none, refl, sym}
use convoy_backend.Realtime.Handler.{failed, connected}
use convoy_backend.Schema.Query.{Keeps-read}
use convoy_backend.Exec.Keeps.{Keeps-pure, Keeps-gets, Keeps->>=, Keeps}
use convoy_backend.Rooms.Store.Rows.{is_active_unkicked}
use convoy_backend.Rooms.Store.Stop.{list_stops}
use convoy_backend.Rooms.Store.Destination.{get_destination}
use convoy_backend.Rooms.Outcomes.{Unchanged, Stands}
use convoy_backend.Exec.Leads.{Leads-attempt, Leads->>=, Leads-pure, Leads}
use convoy_backend.Realtime.Message.{SnapshotPayload}
use convoy_backend.Rooms.Store.Member.{list_members}
use convoy_backend.Schema.{UserRow, MemberRow, RoomRow, Db}
use convoy_backend.Rooms.Service.Core.{Keeps-on_store, OnWorld, World}
use convoy_backend.Base.{sym, subst, In, Bool, ℕ, ◌≡◌, refl, true, false, none}
use convoy_backend.Exec.{pure, gets, modify, Result, ok, err}
use convoy_backend.Realtime.Hub.{room_for_create, Hub}
use convoy_backend.Realtime.Handler.{
  accept, send_snapshot, announce_present, enter, Upgrade, refused, failed, connected,
}
use convoy_backend.Realtime.Fanout

-- the room is open
abbrev pub OpenRoom : ℕ → Db → Type 0
OpenRoom room db = (r : RoomRow) × In r db.rooms × (r.id ≡ room) × (r.ended_at ≡ none)

-- the user is an active member, neither gone nor kicked
abbrev pub ActiveMember : ℕ → ℕ → Db → Type 0
ActiveMember room user db =
    (m : MemberRow) × In m db.room_members × (is_active_unkicked room user m ≡ true)

-- the account exists and is not deleted
abbrev pub LiveUser : ℕ → Db → Type 0
LiveUser user db = (u : UserRow) × In u db.users × (live_user user u ≡ true)

-- what a connection is given for
pub record Entitled (room user : ℕ) (db : Db) : Type 0 where
  pub open_room : OpenRoom room db
  pub active_member : ActiveMember room user db
  pub account : LiveUser user db

-- what a websocket request leads to
abbrev pub Verdict : ℕ → ℕ → Db → Hub → Upgrade → World Hub → Type 0
Verdict room user before live (refused status) w = Unchanged before live w
Verdict room user before live failed w = Unchanged before live w
Verdict room user before live (connected c became) w =
    (w.session.db ≡ before) × Entitled room user before

-- no state: the action never returns an error
abbrev pub Never : World Hub → Type 0
Never w = ⊥

Keeps-live :
    {P : Db → Type 0} (g : Hub → Hub)
    → Keeps (OnWorld P) (modify (λ (w : World Hub). record w { live = g w.live }))
unfolding modify
Keeps-live g = record { at = λ w h. record { holds = h.holds } }

module _ (room user : ℕ) (before : Db) (live : Hub) where
  unfoldable pub Kept : Type 0 → World Hub → Type 0
  Kept facts = Stands (λ db. (db ≡ before) × facts) live

  pub refuse-Leads :
      (facts : Type 0) (status : ℕ)
      → Leads (Kept facts) (pure (refused status)) (Verdict room user before live) Never
  unfolding Kept
  refuse-Leads facts status =
      Leads-pure _ (λ w h. record { holds = h.holds.0; same_live = h.same_live })

  Told : Type 0 → World Hub → Type 0
  Told facts = OnWorld (λ db. (db ≡ before) × facts)

  module _ (facts : Type 0) where
    enter-Leads : (c u : ℕ) → Leads (Told facts) (enter room c u) (λ b. Told facts) Never
    unfolding Told
    enter-Leads c u = record { at = λ w h. record { holds = h.holds } }

    modify-Leads :
        (f : World Hub → World Hub)
        → ((w : World Hub) → (f w).session.db ≡ w.session.db)
        → Leads (Told facts) (modify f) (λ u. Told facts) Never
    unfolding Told modify
    modify-Leads f same = record {
      at = λ w h. record { holds = subst (λ db. (db ≡ before) × facts) (sym (same w)) h.holds };
    }

    snapshot-Leads :
        (c : ℕ) (r : Result SnapshotPayload)
        → Leads (Told facts) (send_snapshot c r) (λ u. Told facts) Never
    snapshot-Leads c (ok p) = modify-Leads _ (λ w. refl)
    snapshot-Leads c (err e) = Leads-pure tt (λ w h. h)

    present-Leads :
        (b : Bool) → Leads (Told facts) (announce_present b room user) (λ u. Told facts) Never
    present-Leads true = modify-Leads _ (λ w. refl)
    present-Leads false = Leads-pure tt (λ w h. h)

    gets-Told :
        {A : Type 0} (f : World Hub → A) → Leads (Kept facts) (gets f) (λ a. Told facts) Never
    unfolding Told Kept gets
    gets-Told f = record { at = λ w h. record { holds = h.holds } }

    Keeps-snapshot : Keeps (Told facts) (Fanout.snapshot room user)
    unfolding Told Fanout.snapshot list_members get_destination list_stops
    Keeps-snapshot = Keeps->>= _ _ (Keeps-on_store _ (Keeps-read _)) λ members.
        Keeps->>= _ _ (Keeps-on_store _ (Keeps-read _)) λ dest.
          Keeps->>= _ _ (Keeps-on_store _ (Keeps-read _)) λ ss.
            Keeps->>= _ _ (Keeps-live (λ h. (room_for_create room h).1))
              λ _. Keeps->>= _ _ (Keeps-gets _) λ rs. Keeps-pure _

  pub accept-Leads :
      (u : UserRow) (up : Bool)
      → Leads
          (Kept (Entitled room user before))
          (accept room user u up)
          (Verdict room user before live)
          Never
  unfolding accept Kept Told
  accept-Leads u false =
      Leads-pure failed (λ w h. record { holds = h.holds.0; same_live = h.same_live })
  accept-Leads u true = Leads->>= _ _ (gets-Told (Entitled room user before) _) λ c.
      Leads->>= _ _ (enter-Leads (Entitled room user before) c u.id) λ became.
        Leads->>= _ _ (Leads-attempt _ (Keeps-snapshot (Entitled room user before))) λ snap.
          Leads->>= _ _ (snapshot-Leads (Entitled room user before) c snap) λ _.
            Leads->>= _ _ (present-Leads (Entitled room user before) became)
              λ _. Leads-pure (connected c became) (λ w h. h.holds)
