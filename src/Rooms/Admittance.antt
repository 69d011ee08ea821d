-- ===== src/Rooms/Admittance.antt =====
-- Who is in a room after Join (internal/rooms/service.go), on every branch.
use convoy_backend.Schema.Query.{Keeps-read}
use convoy_backend.Rooms.Service.Membership.{announce, announce_member, no_such_code}
use convoy_backend.Rooms.Store.Room.{get_active_by_code, scan_room, has_open_code}
use convoy_backend.Rooms.Types.{Member, Room}
use convoy_backend.Text.{trim_space, to_upper, Text}
use convoy_backend.Rooms.Outcomes.{Leads-on_store, notify-Leads}
use convoy_backend.Exec.Leads.{Leads-attempt, Leads, Leads-pure, Leads-map_err, Leads->>=, Outcome}
use convoy_backend.Base.Rows.{
  In-exists_where, In-first_where, first_where, exists_where, In-update_where_of, update_where,
}
use convoy_backend.Rooms.Store.Rows.{
  room_of, user_exists, room_exists, is_row_of, is_active_unkicked,
}
use convoy_backend.Schema.Leads.{Leads-read, Shows, Leads-write, Reaches}
use convoy_backend.Rooms.Service.Core.{Keeps-on_store, OnWorld, World, Service}
use convoy_backend.Schema.{RoomRow, Db, MemberRow}
use convoy_backend.Rooms.Store.Member.{
  new_member, rejoined, upsert_rows, kicked_out, member_of, kick_rows, left_rows,
}
use convoy_backend.Base.{
  In-append_left, ==_refl, In-append_right, [], ◌∷◌, ◌++◌, ◌&&◌, Option, arith, Bool-cases, In, ℕ,
  ◌≡◌, refl, true, false, none, some, inl, inr,
}
use convoy_backend.Exec.{◌>>=◌, gets, Result, ok, err}
use convoy_backend.Rooms.Store.Member
use convoy_backend.Rooms.Service.Membership

-- The user is an active member of the open room, and no other membership changed.
pub record Admitted (code : Text) (user : ℕ) (before : Db) (r : Room) (after : Db) : Type 0 where
  pub open_room :
      (row : RoomRow) × In row before.rooms × (has_open_code code row ≡ true) × (r ≡ room_of row)
  pub access : (m : MemberRow) × In m after.room_members × (is_active_unkicked r.id user m ≡ true)
  pub others_stay :
      (m : MemberRow)
      → In m before.room_members
      → is_row_of r.id user m ≡ false
      → In m after.room_members
  pub members_only : after ≡ record before { room_members = after.room_members }

-- the open room was found
abbrev Located : Text → Db → Room → Db → Type 0
Located code before r db =
    (db ≡ before)
    × (row : RoomRow) × In row before.rooms
    × (has_open_code code row ≡ true)
    × (r ≡ room_of row)

scan_room-Located :
    (code : Text) (before db : Db) (found : Option RoomRow)
    → db ≡ before
    → first_where (has_open_code code) before.rooms ≡ found
    → Shows (Located code before) db (scan_room found)
scan_room-Located code before db none h e = tt
scan_room-Located code before db (some row) h e =
    let (i, a) = In-first_where (has_open_code code) before.rooms row e in (h, row, i, a, refl)

rejoin-Admitted :
    (user : ℕ) (code : Text) (before : Db) (r : Room)
    → Located code before r before
    → exists_where (is_row_of r.id user) before.room_members ≡ true
    → Admitted code user before r (record before {
      room_members = update_where (is_row_of r.id user) rejoined before.room_members;
    })
rejoin-Admitted user code before r (same, row, i, o, eq) e =
    let members = before.room_members in
    let p = is_row_of r.id user in
    let (m, im, a) = In-exists_where p members e in
    let moved = In-update_where_of p rejoined members m im in
    let j : In (rejoined m) (update_where p rejoined members) = rw a at moved in
    record {
      open_room = (row, i, o, eq);
      access = (rejoined m, j, ground arith);
      others_stay = λ n k b. let stays = In-update_where_of p rejoined members n k in rw b at stays;
      members_only = refl;
    }

newcomer-Admitted :
    (user now : ℕ) (code : Text) (before : Db) (r : Room)
    → Located code before r before
    → Admitted code user before r
        (record before { room_members = before.room_members ++ new_member r.id user now ∷ [] })
newcomer-Admitted user now code before r (same, row, i, o, eq) =
    let members = before.room_members in
    let m = new_member r.id user now in
    record {
      open_room = (row, i, o, eq);
      access =
          (m, In-append_right members (m ∷ []) m (inl refl), rw (==_refl r.id, ==_refl user) refl);
      others_stay = λ n k b. In-append_left members (m ∷ []) n k;
      members_only = refl;
    }

upsert_rows-Admitted :
    (user now id : ℕ) (code : Text) (before db : Db) (r : Room)
    → Located code before r db
    → Reaches (λ (_ : Unit {0}). Admitted code user before r) (upsert_rows r.id user now id db)
unfolding upsert_rows
upsert_rows-Admitted user now id code before db r (same, row, i, o, eq) =
    let l : Located code before r before = (refl, row, i, o, eq) in
    rw same (elim (Bool-cases (exists_where (is_row_of r.id user) before.room_members)) [
      | inl e ↦ rw e (rejoin-Admitted user code before r l e)
      | inr e ↦ rw e (elim (Bool-cases (room_exists before r.id && user_exists before user)) [
        | inl f ↦ rw f (newcomer-Admitted user now code before r l)
        | inr f ↦ rw f tt
      ])
    ])

module _ {H : Type 0} (rt : Service H) {P : Db → Type 0} {E : World H → Type 0} where
  announce-Leads :
      (room : ℕ) (r : Result Member) → Leads (OnWorld P) (announce rt room r) (λ _. OnWorld P) E
  announce-Leads room (err e) = Leads-pure tt (λ w h. h)
  announce-Leads room (ok m) = notify-Leads rt _

  announce_member-Leads :
      (s : Service H) (room user : ℕ)
      → Leads (OnWorld P) (announce_member rt s room user) (λ _. OnWorld P) E
  unfolding Member.get_member
  announce_member-Leads none room user = Leads-pure tt (λ w h. h)
  announce_member-Leads (some b) room user =
      Leads->>= _ _ (Leads-attempt _ (Keeps-on_store _ (Keeps-read _))) λ r. announce-Leads room r

module _ {H : Type 0} (rt : Service H) where
  -- Join with a code leads to an active membership of the open room with that code, trimmed and in
  -- upper case, also for a user who had left or was kicked; every other membership and all else in
  -- the tables stays. When Join fails, the tables are as they were.
  pub join-Admitted :
      (user : ℕ) (code : Text) (w : World H)
      → Outcome
          (λ r.
            OnWorld (Admitted (to_upper w.session.env.upper (trim_space code)) user w.session.db r))
          (OnWorld (λ t. t ≡ w.session.db))
          (Membership.join rt user code w).0
          (Membership.join rt user code w).1
  unfolding Membership.join get_active_by_code Member.upsert_member gets ◌>>=◌
  join-Admitted user code w =
      let before = w.session.db in
      let upper_code = to_upper w.session.env.upper (trim_space code) in
      let k =
        Leads->>= _ _
          (Leads-map_err no_such_code _ (
            Leads-on_store _ (
              Leads-read {P = λ t. t ≡ before} {E = λ t. t ≡ before} {Q = Located upper_code before}
                _ (λ db h. h) (λ db h. scan_room-Located upper_code before db _ h (rw h refl)))))
          λ r.
            Leads->>= _ _
              (Leads-on_store _ (
                Leads-write {Q = λ _. Admitted upper_code user before r} _ (λ db l. l.0)
                  (λ now id db l. upsert_rows-Admitted user now id upper_code before db r l)))
              λ _.
                Leads->>= _ _ (announce_member-Leads rt rt r.id user)
                  λ _. Leads-pure r (λ v h. h) in
      k.at w (record { holds = refl })
