-- ===== src/Rooms/Access.antt =====
-- Who may call the methods of internal/rooms/service.go: those behind requireOwner and those behind
-- AssertMember.
use convoy_backend.Base.Int.{ℤ}
use convoy_backend.Float64.{Float64}
use convoy_backend.Text.{Text}
use convoy_backend.Base.Rows.{In-first_where, first_where}
use convoy_backend.Schema.Query.{read, counted}
use convoy_backend.Httpx.{connection_lost, err_forbidden}
use convoy_backend.Rooms.Store.Member.{active_membership, role_and_muted}
use convoy_backend.Rooms.Store.Rows.{is_active_unkicked}
use convoy_backend.Rooms.Service.Core.{
  Service, on_store, require_owner, assert_member, is_not_owner, hidden, World,
}
use convoy_backend.Schema.{member, MemberRow, Role, Db}
use convoy_backend.Base.{
  Bool-cases, arith, Option-cases, ◌⊎◌, none, some, inl, inr, ◌∙◌, ap, Bool, Option, ℕ, ◌≡◌, refl,
  true, false, List, In,
}
use convoy_backend.Exec.{
  pure, map_err, refuse, translate, continue, Exec, raise, ◌>>=◌, Result, ok, err,
}
use convoy_backend.Rooms.Service.Route
use convoy_backend.Rooms.Service.Moderation
use convoy_backend.Rooms.Service.Chat

-- The action did nothing to the tables or to the connections, and fails: the caller is refused, or
-- the query that would have found out lost its connection.
abbrev Denied : {A : Type 0} → Result A → Type 0
Denied (ok a) = ⊥
Denied (err e) = (e ≡ err_forbidden) ⊎ (e ≡ connection_lost)

pub record Untouched {H A : Type 0} (m : Exec (World H) A) (w : World H) : Type 0 where
  pub same_db : (m w).1.session.db ≡ w.session.db
  pub same_live : (m w).1.live ≡ w.live
  pub denied : Denied (m w).0

-- no active membership of the user has the owner's role
abbrev pub NotOwner : ℕ → ℕ → Db → Type 0
NotOwner room user db =
    (m : MemberRow) → In m db.room_members → is_active_unkicked room user m ≡ true → m.role ≡ member

-- the user has no active membership: never joined, left, or kicked
abbrev pub NotMember : ℕ → ℕ → Db → Type 0
NotMember room user db =
    (m : MemberRow) → In m db.room_members → is_active_unkicked room user m ≡ false

module _ {H A B : Type 0} where
  Denied-continue :
      (r : Result A) (f : A → Exec (World H) B) (w : World H)
      → Denied r
      → ((continue r f w).1 ≡ w) × Denied (continue r f w).0
  Denied-continue (ok a) f w d = absurd d
  Denied-continue (err e) f w d = (refl, d)

  -- What follows a refused action is not run.
  Untouched->>= :
      (m : Exec (World H) A) (f : A → Exec (World H) B) (w : World H)
      → Untouched m w
      → Untouched (m >>= f) w
  unfolding ◌>>=◌
  Untouched->>= m f w u =
      let (same, d) = Denied-continue (m w).0 f (m w).1 u.denied in
      record {
        same_db = ap (λ (v : World H). v.session.db) same ∙ u.same_db;
        same_live = ap (λ (v : World H). v.live) same ∙ u.same_live;
        denied = d;
      }

-- what requireOwner makes of the row that it reads
judged : {H : Type 0} → Result (Role × Bool) → Exec (World H) (Unit {0})
judged r = continue (translate hidden r) (λ found. refuse (is_not_owner found.0) err_forbidden)

judged-Untouched :
    {H : Type 0} (found : Option MemberRow) (w : World H)
    → ((m : MemberRow) → found ≡ some m → m.role ≡ member)
    → Untouched (judged (role_and_muted found)) w
unfolding judged raise
judged-Untouched none w h = record { same_db = refl; same_live = refl; denied = inl refl }
judged-Untouched (some m) w h =
    rw (h m refl) (record { same_db = refl; same_live = refl; denied = inl refl })

-- what AssertMember makes of it
admitted : {H : Type 0} → Result (Role × Bool) → Exec (World H) Role
admitted r = continue (translate hidden r) (λ found. pure found.0)

admitted-Untouched :
    {H : Type 0} (found : Option MemberRow) (w : World H)
    → found ≡ none
    → Untouched (admitted (role_and_muted found)) w
unfolding admitted
admitted-Untouched found w e = rw e (record { same_db = refl; same_live = refl; denied = inl refl })

module _ {H : Type 0} (room user : ℕ) (w : World H) where
  -- the state after one query
  asked : World H
  asked = record w { session = counted w.session }

  lost : {A : Type 0} {m : Exec (World H) A} → m w ≡ (err connection_lost, asked) → Untouched m w
  unfolding asked
  lost e = record { same_db = rw e; same_live = rw e; denied = rw e (inr refl) }

  heard : {A : Type 0} {m n : Exec (World H) A} → m w ≡ n asked → Untouched n asked → Untouched m w
  unfolding asked
  heard e u = record {
    same_db = ap (λ r. r.1.session.db) e ∙ u.same_db;
    same_live = ap (λ r. r.1.live) e ∙ u.same_live;
    denied = rw e u.denied;
  }

  require_owner-Untouched : NotOwner room user w.session.db → Untouched (require_owner room user) w
  unfolding require_owner active_membership on_store map_err read ◌>>=◌ judged asked
  require_owner-Untouched h = elim (Bool-cases (w.session.env.fails w.session.queries)) [
    | inl e ↦ lost (rw e refl)
    | inr e ↦ heard (rw e refl) (
        judged-Untouched (first_where (is_active_unkicked room user) w.session.db.room_members) _
          (λ m f.
            let (i, a) =
              In-first_where (is_active_unkicked room user) w.session.db.room_members m f in
            h m i a))
  ]

  no_membership :
      (members : List MemberRow)
      → ((m : MemberRow) → In m members → is_active_unkicked room user m ≡ false)
      → first_where (is_active_unkicked room user) members ≡ none
  no_membership members h =
      elim (Option-cases (first_where (is_active_unkicked room user) members)) [
        | inl e ↦ e
        | inr (m, e) ↦
            let (i, a) = In-first_where (is_active_unkicked room user) members m e in
            let f : is_active_unkicked room user m ≡ false = h m i in ground arith
      ]

  assert_member-Untouched : NotMember room user w.session.db → Untouched (assert_member room user) w
  unfolding assert_member active_membership on_store map_err read ◌>>=◌ admitted asked
  assert_member-Untouched h = elim (Bool-cases (w.session.env.fails w.session.queries)) [
    | inl e ↦ lost (rw e refl)
    | inr e ↦ heard (rw e refl) (admitted-Untouched _ _ (no_membership w.session.db.room_members h))
  ]

module _ {H : Type 0} (rt : Service H) (room user : ℕ) (w : World H) where
  -- A caller without an active membership of the owner's role is refused by Kick, Mute,
  -- TransferOwnership, Rename, End, SetDestination, UpdateDestinationMeta, ClearDestination, AddStop,
  -- UpdateStopLabel, RemoveStop and ClearStops, whatever the other arguments, unless the query that
  -- reads the membership fails, which ends the call too: nothing is written and nobody is told.
  pub owner_only :
      NotOwner room user w.session.db
      → ((target : ℕ) → Untouched (Moderation.kick rt room user target) w)
        × ((target : ℕ) (muted : Bool) → Untouched (Moderation.mute rt room user target muted) w)
        × ((target : ℕ) → Untouched (Moderation.transfer_ownership rt room user target) w)
        × ((name : Text) → Untouched (Moderation.rename rt room user name) w)
        × Untouched (Moderation.end rt room user) w
        × ((lat lng : Float64) (name notes : Option Text)
            → Untouched (Route.set_destination rt room user lat lng name notes) w)
        × ((name notes : Option Text)
            → Untouched (Route.update_destination_meta rt room user name notes) w)
        × Untouched (Route.clear_destination rt room user) w
        × ((lat lng : Float64) (label : Option Text)
            → Untouched (Route.add_stop rt room user lat lng label) w)
        × ((id : ℕ) (label : Option Text)
            → Untouched (Route.update_stop_label rt room user id label) w)
        × ((id : ℕ) → Untouched (Route.remove_stop rt room user id) w)
        × Untouched (Route.clear_stops rt room user) w
  unfolding Moderation.kick Moderation.mute Moderation.transfer_ownership Moderation.rename
      Moderation.end Route.set_destination Route.update_destination_meta Route.clear_destination
      Route.add_stop Route.update_stop_label Route.remove_stop Route.clear_stops
  owner_only h =
      let u = require_owner-Untouched room user w h in
      (
        (λ target. Untouched->>= _ _ w u),
        (λ target muted. Untouched->>= _ _ w u),
        (λ target. Untouched->>= _ _ w u),
        (λ name. Untouched->>= _ _ w u),
        Untouched->>= _ _ w u,
        (λ lat lng name notes. Untouched->>= _ _ w u),
        (λ name notes. Untouched->>= _ _ w u),
        Untouched->>= _ _ w u,
        (λ lat lng label. Untouched->>= _ _ w u),
        (λ id label. Untouched->>= _ _ w u),
        (λ id. Untouched->>= _ _ w u),
        Untouched->>= _ _ w u,
      )

  -- A caller without an active membership, who never joined, has left or was kicked, is refused by
  -- PostMessage, ListMessages, SetPersonalMarker and ClearPersonalMarker, unless the query that reads
  -- the membership fails, which ends the call too: nothing is written and nobody is told.
  pub member_only :
      NotMember room user w.session.db
      → ((text : Text) → Untouched (Chat.post_message rt room user text) w)
        × ((before : Option ℕ) (limit : ℤ)
            → Untouched (Chat.list_messages room user before limit) w)
        × ((lat lng : Float64) (label : Option Text)
            → Untouched (Route.set_personal_marker room user lat lng label) w)
        × Untouched (Route.clear_personal_marker room user) w
  unfolding Chat.post_message Chat.list_messages Route.set_personal_marker
      Route.clear_personal_marker
  member_only h =
      let u = assert_member-Untouched room user w h in
      (
        (λ text. Untouched->>= _ _ w u),
        (λ before limit. Untouched->>= _ _ w u),
        (λ lat lng label. Untouched->>= _ _ w u),
        Untouched->>= _ _ w u,
      )
