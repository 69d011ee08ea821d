-- ===== src/Rooms/Ownership/Handover.antt =====
-- The transaction of TransferOwnership keeps the ownership invariant when the old owner is the owner.
use convoy_backend.Base.{ℕ, ◌≡◌, ◌≢◌, refl, true, not, List, In, Bool-cases, inl, inr, arith}
use convoy_backend.Base.Rows.{exists_where, In-exists_where, update_where}
use convoy_backend.Exec.Leads.{Leads-weaken, Leads, Leads->>=}
use convoy_backend.Schema.{Db, RoomRow, MemberRow, owner, member}
use convoy_backend.Schema.Query.{OnDb}
use convoy_backend.Schema.Leads.{Reaches, Shows, Leads-write, Leads-read, Leads-transaction}
use convoy_backend.Rooms.Store.Rows.{is_open, is_row_of, is_active_unkicked, user_exists}
use convoy_backend.Rooms.Store.Room.{set_owner_rows, set_role_rows, may_own, transfer_ownership}
use convoy_backend.Rooms.Ownership.Tables.{IsOwned, Owned}
use convoy_backend.Rooms.Ownership.Transfer.{with_role, new_rooms, transfer-IsOwned}

-- a membership of the user, with the owner's role
abbrev pub HasOwner : ℕ → ℕ → List MemberRow → Type 0
HasOwner room user members =
    (m : MemberRow) × In m members × (m.room_id ≡ room) × (m.user_id ≡ user) × (m.role ≡ owner)

abbrev HasRow : ℕ → ℕ → List MemberRow → Type 0
HasRow room user members = (m : MemberRow) × In m members × (m.room_id ≡ room) × (m.user_id ≡ user)

-- the owner has asked
abbrev pub Asked : ℕ → ℕ → Db → Type 0
Asked room old db = Owned db × HasOwner room old db.room_members

module _ (room old new : ℕ) where
  Allowed : Db → Type 0
  Allowed db = Owned db × HasOwner room old db.room_members × HasRow room new db.room_members

  Renamed : Db → Type 0
  Renamed db =
      (rooms : List RoomRow) × IsOwned rooms db.room_members
      × HasOwner room old db.room_members
      × HasRow room new db.room_members
      × (exists_where (is_open room) rooms ≡ true)
      × (db.rooms ≡ new_rooms room new rooms)

  Promoted : Db → Type 0
  Promoted db =
      (rooms : List RoomRow) × (members : List MemberRow) × IsOwned rooms members
      × HasOwner room old members
      × HasRow room new members
      × (exists_where (is_open room) rooms ≡ true)
      × (db.rooms ≡ new_rooms room new rooms)
      × (db.room_members ≡ update_where (is_row_of room new) (with_role owner) members)

  may_own-Allowed :
      (db : Db) → Asked room old db → Shows (λ (_ : Unit {0}). Allowed) db (may_own room new db)
  unfolding Allowed
  may_own-Allowed db (h, o) =
      elim (Bool-cases (exists_where (is_active_unkicked room new) db.room_members)) [
        | inl e ↦
            let (m, i, a) = In-exists_where (is_active_unkicked room new) db.room_members e in
            rw e (h, o, (m, i, ground arith, ground arith))
        | inr e ↦ rw e tt
      ]

  set_owner-Renamed :
      (db : Db) → Allowed db → Reaches (λ (_ : Unit {0}). Renamed) (set_owner_rows room new db)
  unfolding set_owner_rows Allowed Renamed
  set_owner-Renamed db (h, o, r) = elim (Bool-cases (exists_where (is_open room) db.rooms)) [
    | inl e ↦ rw e (elim (Bool-cases (not (user_exists db new))) [
      | inl f ↦ rw f tt
      | inr f ↦ rw f (db.rooms, h, o, r, e, refl)
    ])
    | inr e ↦ rw e tt
  ]

  set_role-Promoted : (db : Db) → Renamed db → Promoted (set_role_rows room new owner db)
  unfolding set_role_rows Renamed Promoted
  set_role-Promoted db (rooms, h, o, r, e, q) = (rooms, db.room_members, h, o, r, e, q, refl)

  module _ (differ : old ≢ new) where
    set_role-Owned : (db : Db) → Promoted db → Owned (set_role_rows room old member db)
    unfolding set_role_rows Promoted
    set_role-Owned db (rooms, members, h, (mo, io, ro, uo, role), (mn, im, rn, un), e, q, p) =
        rw (q, p)
          (transfer-IsOwned room old new rooms members h differ e mo io ro uo role mn im rn un)

    pub Leads-transfer_ownership :
        Leads
          (OnDb (Asked room old))
          (transfer_ownership room old new)
          (λ _. OnDb Owned)
          (OnDb Owned)
    unfolding transfer_ownership
    Leads-transfer_ownership =
        Leads-weaken _ (λ s h. record { holds = h.holds.0 })
          (Leads-transaction _ (
            Leads->>= _ _ (Leads-read _ (λ db h. tt) may_own-Allowed) λ _.
              Leads->>= _ _ (Leads-write _ (λ db h. tt) (λ now id db h. set_owner-Renamed db h))
                λ _.
                  Leads->>= _ _ (Leads-write _ (λ db h. tt) (λ now id db h. set_role-Promoted db h))
                    λ _. Leads-write _ (λ db h. tt) (λ now id db h. set_role-Owned db h)))
