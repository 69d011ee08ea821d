-- ===== src/Rooms/Membership.antt =====
-- Who is in a room after Kick and Leave (internal/rooms/service.go), on every branch.
use convoy_backend.Rooms.Service.Membership.{announce, announce_member, no_such_code}
use convoy_backend.Rooms.Outcomes.{
  Leads-notify, Stands-on_store, Leads-require_owner, Unchanged, told, Stands,
}
use convoy_backend.Exec.Leads.{Leads-guard, Leads->>=, Outcome}
use convoy_backend.Base.Rows.{In-update_where, exists_where, In-update_where_of, update_where}
use convoy_backend.Rooms.Store.Rows.{is_active_unkicked, is_active}
use convoy_backend.Schema.Leads.{Reaches-with, Leads-write, Reaches}
use convoy_backend.Rooms.Access.{NotMember}
use convoy_backend.Rooms.Service.Core.{World, Service}
use convoy_backend.Schema.{Db, MemberRow}
use convoy_backend.Rooms.Store.Member.{
  new_member, rejoined, upsert_rows, kicked_out, member_of, kick_rows, left_rows,
}
use convoy_backend.Base.{
  is_none, ◌==◌, arith, Bool-cases, In, List, ℕ, ◌≡◌, ◌≢◌, refl, false, inl, inr,
}
use convoy_backend.Rooms.Store.Member
use convoy_backend.Rooms.Service.Moderation
use convoy_backend.Rooms.Service.Membership

-- The user is out, and nothing else about the tables changed.
pub record Expelled (room user : ℕ) (before after : Db) : Type 0 where
  pub no_access : NotMember room user after
  pub others_stay :
      (m : MemberRow)
      → In m before.room_members
      → is_active room user m ≡ false
      → In m after.room_members
  pub members_only : after ≡ record before { room_members = after.room_members }

-- an update that sets left_at
abbrev Closes : (MemberRow → MemberRow) → Type 0
Closes f = (m : MemberRow) → is_none (f m).left_at ≡ false

module _ (room user : ℕ) (f : MemberRow → MemberRow) (closes : Closes f) where
  closed-NotMember :
      (members : List MemberRow) (m : MemberRow)
      → In m (update_where (is_active room user) f members)
      → is_active_unkicked room user m ≡ false
  closed-NotMember members m i =
      let (x, ix, e) = In-update_where (is_active room user) f members m i in
      elim (Bool-cases (is_active room user x)) [
        | inl a ↦
            let e' : m ≡ f x = rw a at e in
            let c : is_none (f x).left_at ≡ false = closes x in rw e' (ground arith)
        | inr a ↦ let e' : m ≡ x = rw a at e in rw e' (ground arith)
      ]

  update-stays :
      (members : List MemberRow) (m : MemberRow)
      → In m members
      → is_active room user m ≡ false
      → In m (update_where (is_active room user) f members)
  update-stays members m i a =
      let j = In-update_where_of (is_active room user) f members m i in rw a at j

  closed-Expelled :
      (db : Db)
      → Expelled room user db
          (record db { room_members = update_where (is_active room user) f db.room_members })
  closed-Expelled db = record {
    no_access = closed-NotMember db.room_members;
    others_stay = update-stays db.room_members;
    members_only = refl;
  }

kick_rows-Expelled :
    (room user now : ℕ) (before db : Db)
    → db ≡ before
    → Reaches (λ (_ : Unit {0}). Expelled room user before) (kick_rows room user now db)
unfolding kick_rows
kick_rows-Expelled room user now before db same =
    elim (Bool-cases (exists_where (is_active room user) db.room_members)) [
      | inl e ↦ rw (e, same) (closed-Expelled room user (kicked_out now) (λ m. refl) before)
      | inr e ↦ rw e tt
    ]

left_rows-Expelled :
    (room user now : ℕ) (before db : Db)
    → db ≡ before
    → Expelled room user before (left_rows room user now db)
unfolding left_rows
left_rows-Expelled room user now before db same =
    rw same (closed-Expelled room user _ (λ m. refl) before)

module _ {H : Type 0} (rt : Service H) where
  -- Kick succeeds only when the caller is not the target. Then the target has no active membership
  -- any more, every other membership and all else in the tables is as it was, and the broadcaster is
  -- told once. When Kick fails, the tables and the connections are as they were.
  pub kick-Expelled :
      (room actor target : ℕ) (w : World H)
      → Outcome
          (λ _.
            Stands
              (λ t. Expelled room target w.session.db t × (actor ≢ target))
              (told rt (λ b. b.kick_connection room target actor) w.live))
          (Unchanged w.session.db w.live)
          (Moderation.kick rt room actor target w).0
          (Moderation.kick rt room actor target w).1
  unfolding Moderation.kick Member.kick
  kick-Expelled room actor target w =
      let before = w.session.db in
      let k = Leads->>= _ _ (Leads-require_owner room actor) λ _.
        Leads-guard (actor == target) _ _ (λ v h. h)
          λ e.
            Leads->>= _ _
              (Stands-on_store _ (
                Leads-write {P = λ t. t ≡ before}
                  {Q = λ _ t. Expelled room target before t × (actor ≢ target)} _ (λ db h. h)
                  (λ now id db h.
                    Reaches-with _ _ _ (λ same. ground arith)
                      (kick_rows-Expelled room target now before db h))))
              λ _. Leads-notify rt _ in
      k.at w (record { holds = refl; same_live = refl })

  -- Leave succeeds for anybody. Then the user has no active membership, every other membership and
  -- all else in the tables is as it was, the others are told and the user's connection is closed.
  -- When Leave fails, the tables and the connections are as they were.
  pub leave-Expelled :
      (room user : ℕ) (w : World H)
      → Outcome
          (λ _. Stands (Expelled room user w.session.db) (
            told rt
              (λ b. b.disconnect_user room user)
              (told rt (λ b. b.broadcast_member_left room user) w.live)))
          (Unchanged w.session.db w.live)
          (Membership.leave rt room user w).0
          (Membership.leave rt room user w).1
  unfolding Membership.leave Member.mark_left
  leave-Expelled room user w =
      let before = w.session.db in
      let k =
        Leads->>= _ _
          (Stands-on_store _ (
            Leads-write {P = λ t. t ≡ before} {Q = λ _. Expelled room user before} _ (λ db h. h)
              (λ now id db h. left_rows-Expelled room user now before db h)))
          λ _. Leads->>= _ _ (Leads-notify rt _) λ _. Leads-notify rt _ in
      k.at w (record { holds = refl; same_live = refl })
