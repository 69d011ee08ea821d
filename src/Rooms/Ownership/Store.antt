-- ===== src/Rooms/Ownership/Store.antt =====
-- Every method of the store keeps the ownership invariant.
use convoy_backend.Base.{
  sym, subst, ℕ, ◌≡◌, refl, Bool, false, ◌&&◌, not, Option, none, some, ◌++◌, ◌∷◌, [], List,
  Bool-cases, inl, inr, arith,
}
use convoy_backend.Base.Rows.{exists_where, first_where}
use convoy_backend.Text.{Text}
use convoy_backend.Float64.{Float64}
use convoy_backend.Exec.{Result, ok, err}
use convoy_backend.Exec.Keeps.{Keeps, Keeps-pure, Keeps-raise, Keeps->>=}
use convoy_backend.Exec.Leads.{Leads->>=, Leads-Keeps, Keeps-Leads}
use convoy_backend.Schema.{Db, RoomRow}
use convoy_backend.Schema.Query.{OnDb, Sound, Keeps-write, Keeps-change}
use convoy_backend.Schema.Leads.{Leads-write, Leads-transaction, Reaches}
use convoy_backend.Rooms.Types.{Room, Destination}
use convoy_backend.Rooms.Store.Rows.{
  has_room_id, is_open, is_row_of, is_active, user_exists, room_exists,
}
use convoy_backend.Rooms.Store.Room.{
  new_room, new_owner, has_open_code, insert_room, insert_owner, create_room, end_rows, end_room,
  name_rows, update_name,
}
use convoy_backend.Rooms.Store.Member.{
  upsert_rows, upsert_member, left_rows, mark_left, muted_rows, set_muted, kick_rows, kick,
  new_member, rejoined,
}
use convoy_backend.Rooms.Store.Destination.{
  placed, described, open_and_placed, returning, scanned_row, set_destination_rows, set_destination,
  describe_rows, update_destination_meta, clear_destination_rows, clear_destination,
}
use convoy_backend.Rooms.Ownership.Tables.{
  IsOwned, Owned, KeepsOwner, update_rooms-IsOwned, update_members-IsOwned,
}
use convoy_backend.Rooms.Ownership.Insert.{create-IsOwned, newcomer-IsOwned}

end_rows-Owned : (room now id : ℕ) (db : Db) → Owned db → Sound Owned (end_rows room now id db)
unfolding end_rows
end_rows-Owned room now id db h = elim (Bool-cases (exists_where (is_open room) db.rooms)) [
  | inl e ↦ rw e (update_rooms-IsOwned _ _ h (is_open room) _ (λ r. (refl, refl)))
  | inr e ↦ rw e tt
]

pub Keeps-end_room : (room : ℕ) → Keeps (OnDb Owned) (end_room room)
unfolding end_room
Keeps-end_room room = Keeps-write _ (λ now id db h. end_rows-Owned room now id db h)

name_rows-Owned :
    (room : ℕ) (name : Option Text) (db : Db) (found : Option RoomRow)
    → Owned db
    → Sound Owned (name_rows room name db found)
name_rows-Owned room name db none h = tt
name_rows-Owned room name db (some r) h =
    update_rooms-IsOwned _ _ h (is_open room) _ (λ r. (refl, refl))

pub Keeps-update_name : (room : ℕ) (name : Option Text) → Keeps (OnDb Owned) (update_name room name)
unfolding update_name
Keeps-update_name room name = Keeps-write _ (λ now id db h. name_rows-Owned room name db _ h)

Keeps-scanned_row : (d : Result Destination) → Keeps (OnDb Owned) (scanned_row d)
Keeps-scanned_row (ok d) = Keeps-pure d
Keeps-scanned_row (err e) = Keeps-raise e

returning-Owned :
    (p : RoomRow → Bool) (f : RoomRow → RoomRow) (db : Db) (found : Option RoomRow)
    → KeepsOwner f
    → Owned db
    → Sound Owned (returning p f db found)
returning-Owned p f db none k h = tt
returning-Owned p f db (some r) k h = update_rooms-IsOwned _ _ h p f k

module _ (room set_by : ℕ) (lat lng : Float64) (name notes : Option Text) where
  set_destination_rows-Owned :
      (now : ℕ) (db : Db)
      → Owned db
      → Sound Owned (set_destination_rows room set_by lat lng name notes now db)
  unfolding set_destination_rows
  set_destination_rows-Owned now db h =
      elim (Bool-cases (exists_where (is_open room) db.rooms && not (user_exists db set_by))) [
        | inl e ↦ rw e tt
        | inr e ↦ rw e (
            returning-Owned (is_open room) (placed set_by lat lng name notes now) db
              (first_where (is_open room) db.rooms) (λ r. (refl, refl)) h)
      ]

  pub Keeps-set_destination : Keeps (OnDb Owned) (set_destination room set_by lat lng name notes)
  unfolding set_destination
  Keeps-set_destination =
      Keeps->>= _ _ (Keeps-write _ (λ now id db h. set_destination_rows-Owned now db h))
        Keeps-scanned_row

pub Keeps-update_destination_meta :
    (room : ℕ) (name notes : Option Text)
    → Keeps (OnDb Owned) (update_destination_meta room name notes)
unfolding update_destination_meta describe_rows
Keeps-update_destination_meta room name notes =
    Keeps->>= _ _
      (Keeps-write _ λ now id db h.
        returning-Owned (open_and_placed room) (described name notes) db
          (first_where (open_and_placed room) db.rooms) (λ r. (refl, refl)) h)
      Keeps-scanned_row

clear_destination_rows-Owned :
    (room : ℕ) (db : Db) → Owned db → Sound Owned (clear_destination_rows room db)
unfolding clear_destination_rows
clear_destination_rows-Owned room db h = elim (Bool-cases (exists_where (is_open room) db.rooms)) [
  | inl e ↦ rw e (update_rooms-IsOwned _ _ h (is_open room) _ (λ r. (refl, refl)))
  | inr e ↦ rw e tt
]

pub Keeps-clear_destination : (room : ℕ) → Keeps (OnDb Owned) (clear_destination room)
unfolding clear_destination
Keeps-clear_destination room = Keeps-write _ (λ now id db h. clear_destination_rows-Owned room db h)

upsert_rows-Owned :
    (room user now id : ℕ) (db : Db) → Owned db → Sound Owned (upsert_rows room user now id db)
unfolding upsert_rows
upsert_rows-Owned room user now id db h =
    elim (Bool-cases (exists_where (is_row_of room user) db.room_members)) [
      | inl old ↦
          rw old
            (update_members-IsOwned _ _ h (is_row_of room user) rejoined (λ m. (refl, refl, refl)))
      | inr new ↦ rw new (elim (Bool-cases (room_exists db room && user_exists db user)) [
        | inl both ↦
            rw both (newcomer-IsOwned _ _ h (new_member room user now) new (ground arith) refl)
        | inr bad ↦ rw bad tt
      ])
    ]

pub Keeps-upsert_member : (room user : ℕ) → Keeps (OnDb Owned) (upsert_member room user)
unfolding upsert_member
Keeps-upsert_member room user =
    Keeps-write _ (λ now id db h. upsert_rows-Owned room user now id db h)

pub Keeps-mark_left : (room user : ℕ) → Keeps (OnDb Owned) (mark_left room user)
unfolding mark_left left_rows
Keeps-mark_left room user =
    Keeps-change _
      (λ now db h. update_members-IsOwned _ _ h (is_active room user) _ (λ m. (refl, refl, refl)))

muted_rows-Owned :
    (room user : ℕ) (muted : Bool) (db : Db)
    → Owned db
    → Sound Owned (muted_rows room user muted db)
unfolding muted_rows
muted_rows-Owned room user muted db h =
    elim (Bool-cases (exists_where (is_active room user) db.room_members)) [
      | inl e ↦
          rw e (update_members-IsOwned _ _ h (is_active room user) _ (λ m. (refl, refl, refl)))
      | inr e ↦ rw e tt
    ]

pub Keeps-set_muted :
    (room user : ℕ) (muted : Bool) → Keeps (OnDb Owned) (set_muted room user muted)
unfolding set_muted
Keeps-set_muted room user muted =
    Keeps-write _ (λ now id db h. muted_rows-Owned room user muted db h)

kick_rows-Owned :
    (room user now : ℕ) (db : Db) → Owned db → Sound Owned (kick_rows room user now db)
unfolding kick_rows
kick_rows-Owned room user now db h =
    elim (Bool-cases (exists_where (is_active room user) db.room_members)) [
      | inl e ↦
          rw e (update_members-IsOwned _ _ h (is_active room user) _ (λ m. (refl, refl, refl)))
      | inr e ↦ rw e tt
    ]

pub Keeps-kick : (room user : ℕ) → Keeps (OnDb Owned) (kick room user)
unfolding kick
Keeps-kick room user = Keeps-write _ (λ now id db h. kick_rows-Owned room user now db h)

-- CreateRoom between its two statements: a room without its owner's membership
Halfway : ℕ → Room → Db → Type 0
Halfway owner_id r db =
    (rooms : List RoomRow) × (row : RoomRow) × IsOwned rooms db.room_members
    × (exists_where (has_room_id row.id) rooms ≡ false)
    × (db.rooms ≡ rooms ++ row ∷ [])
    × (r.id ≡ row.id)
    × (owner_id ≡ row.owner_id)

module _ (owner_id : ℕ) (code : Text) (name : Option Text) where
  insert_room-Halfway :
      (now id : ℕ) (db : Db)
      → Owned db
      → Reaches (Halfway owner_id) (insert_room owner_id code name now id db)
  unfolding insert_room Halfway
  insert_room-Halfway now id db h = elim (Bool-cases (exists_where (has_room_id id) db.rooms)) [
    | inl e ↦ rw e tt
    | inr fresh ↦ rw fresh (elim (Bool-cases (exists_where (has_open_code code) db.rooms)) [
      | inl e ↦ rw e tt
      | inr e ↦ rw e (elim (Bool-cases (not (user_exists db owner_id))) [
        | inl f ↦ rw f tt
        | inr f ↦ rw f (db.rooms, new_room id code name owner_id now, h, fresh, refl, refl, refl)
      ])
    ])
  ]

insert_owner-Owned :
    (user : ℕ) (r : Room) (now id : ℕ) (db : Db)
    → Halfway user r db
    → Reaches (λ a. Owned) (insert_owner r.id user now id db)
unfolding insert_owner Halfway
insert_owner-Owned user r now id db (rooms, row, h, fresh, e, eid, eo) =
    elim (Bool-cases (exists_where (is_row_of r.id user) db.room_members)) [
      | inl x ↦ rw x tt
      | inr x ↦ rw x (elim (Bool-cases (not (room_exists db r.id && user_exists db user))) [
        | inl y ↦ rw y tt
        | inr y ↦ rw y (
            subst (λ rs. IsOwned rs (db.room_members ++ new_owner r.id user now ∷ [])) (sym e)
              (create-IsOwned rooms _ h row (new_owner r.id user now) fresh eid eo refl))
      ])
    ]

pub Keeps-create_room :
    (owner_id : ℕ) (code : Text) (name : Option Text)
    → Keeps (OnDb Owned) (create_room owner_id code name)
unfolding create_room
Keeps-create_room owner_id code name = Keeps-Leads _ (
    Leads-transaction _ (
      Leads->>= _ _ (Leads-write _ (λ db h. tt) (insert_room-Halfway owner_id code name)) λ r.
        Leads->>= _ _
          (Leads-write _ (λ db h. tt) (λ now id db h. insert_owner-Owned owner_id r now id db h))
          λ u. Leads-Keeps _ (λ s h. record { holds = tt }) (Keeps-pure r)))
