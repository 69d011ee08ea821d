-- ===== src/Rooms/Ownership/Transfer.antt =====
-- TransferOwnership: `owner_id` and the two roles move together.
use convoy_backend.Base.{
  refl, inr, ==→eq, inl, ◌==◌, Bool-cases, sym, ℕ, ◌≡◌, ◌≢◌, ap, ◌∙◌, true, List, In, if◌then◌else◌,
  arith,
}
use convoy_backend.Base.Rows.{
  In-exists_where, exists_where, In-update_where_of, update_where, In-update_where,
}
use convoy_backend.Schema.{RoomRow, MemberRow, Role, owner, member}
use convoy_backend.Rooms.Store.Rows.{is_open, is_row_of}
use convoy_backend.Rooms.Ownership.Tables.{IsOwned, RoleAgrees}

abbrev owned_by : ℕ → RoomRow → RoomRow
owned_by new r = record r { owner_id = new }

abbrev pub with_role : Role → MemberRow → MemberRow
with_role role m = record m { role = role }

abbrev pub new_rooms : ℕ → ℕ → List RoomRow → List RoomRow
new_rooms room new rooms = update_where (is_open room) (owned_by new) rooms

abbrev new_roles : ℕ → ℕ → ℕ → List MemberRow → List MemberRow
new_roles room old new members =
    update_where (is_row_of room old) (with_role member)
      (update_where (is_row_of room new) (with_role owner) members)

-- one membership after the two updates
abbrev handed : ℕ → ℕ → ℕ → MemberRow → MemberRow
handed room old new m =
    let x = (if is_row_of room new m then with_role owner m else m) in
    if is_row_of room old x then with_role member x else x

abbrev handed_room : ℕ → ℕ → RoomRow → RoomRow
handed_room room new r = if is_open room r then owned_by new r else r

module _ (room old new : ℕ) (rooms : List RoomRow) (members : List MemberRow)
    (h : IsOwned rooms members) (differ : old ≢ new) where
  In-new_roles :
      (m : MemberRow)
      → In m (new_roles room old new members)
      → (x : MemberRow) × In x members × (m ≡ handed room old new x)
  In-new_roles m i =
      let (y, iy, e) = In-update_where (is_row_of room old) (with_role member) _ m i in
      let (x, ix, e') = In-update_where (is_row_of room new) (with_role owner) members y iy in
      (x, ix, e ∙ ap (λ z. if is_row_of room old z then with_role member z else z) e')

  handed_key :
      (x : MemberRow)
      → ((handed room old new x).room_id ≡ x.room_id)
        × ((handed room old new x).user_id ≡ x.user_id)
  handed_key x = ground arith

  handed_room_id : (r : RoomRow) → (handed_room room new r).id ≡ r.id
  handed_room_id r = ground arith

  -- the roles and owners of the transferred room
  agrees_here :
      (x : MemberRow) (r : RoomRow)
      → x.room_id ≡ room
      → r.id ≡ room
      → is_open room r ≡ true
      → r.owner_id ≡ old
      → RoleAgrees x r
      → RoleAgrees (handed room old new x) (handed_room room new r)
  agrees_here x r ex er op eo a = ground arith

  agrees_elsewhere :
      (x : MemberRow) (r : RoomRow)
      → x.room_id ≢ room
      → r.id ≢ room
      → RoleAgrees x r
      → RoleAgrees (handed room old new x) (handed_room room new r)
  agrees_elsewhere x r ex er a = ground arith

  In-new_roles_of :
      (x : MemberRow) → In x members → In (handed room old new x) (new_roles room old new members)
  In-new_roles_of x ix =
      In-update_where_of (is_row_of room old) (with_role member) _ _
        (In-update_where_of (is_row_of room new) (with_role owner) members x ix)

  module _ (open_room : exists_where (is_open room) rooms ≡ true) (mo : MemberRow)
      (in_mo : In mo members) (mo_room : mo.room_id ≡ room) (mo_user : mo.user_id ≡ old)
      (mo_role : mo.role ≡ owner) (mn : MemberRow) (in_mn : In mn members)
      (mn_room : mn.room_id ≡ room) (mn_user : mn.user_id ≡ new) where
    -- the transferred room is open and belonged to the old owner
    is_ours :
        (r : RoomRow) → In r rooms → r.id ≡ room → (is_open room r ≡ true) × (r.owner_id ≡ old)
    is_ours r ir e =
        let (r0, i0, o) = In-exists_where (is_open room) rooms open_room in
        let same : r ≡ r0 = h.unique_rooms r r0 ir i0 (e ∙ sym (id_of r0 o)) in
        (rw same o, sym ((h.agrees mo r in_mo ir (e ∙ sym mo_room)).0 mo_role) ∙ mo_user)
      where
        id_of : (r : RoomRow) → is_open room r ≡ true → r.id ≡ room
        id_of r o = ground arith

    owner_of :
        (y : RoomRow)
        → In y rooms
        → (m : MemberRow) × In m (new_roles room old new members)
          × (m.room_id ≡ (handed_room room new y).id)
          × (m.user_id ≡ (handed_room room new y).owner_id)
    owner_of y iy = elim (Bool-cases (y.id == room)) [
      | inl at ↦
          let at' = ==→eq y.id room at in
          let (op, eo) = is_ours y iy at' in
          let (kr, ku) = handed_key mn in
          (
            handed room old new mn,
            In-new_roles_of mn in_mn,
            kr ∙ mn_room ∙ sym at' ∙ sym (handed_room_id y),
            ku ∙ mn_user ∙ rw op refl,
          )
      | inr off ↦
          let (x, ix, ex, ux) = h.owner_present y iy in
          let (kr, ku) = handed_key x in
          (
            handed room old new x,
            In-new_roles_of x ix,
            kr ∙ ex ∙ sym (handed_room_id y),
            ku ∙ ux ∙ rw off refl,
          )
    ]

    pub transfer-IsOwned : IsOwned (new_rooms room new rooms) (new_roles room old new members)
    transfer-IsOwned = record {
      unique_rooms = λ r r' i i' e.
          let (x, ix, ex) = In-update_where (is_open room) (owned_by new) rooms r i in
          let (x', ix', ex') = In-update_where (is_open room) (owned_by new) rooms r' i' in
          let kx = handed_room_id x in
          let kx' = handed_room_id x' in
          let same : x ≡ x' = h.unique_rooms x x' ix ix' (cc (kx, kx')) in
          ex ∙ ap (handed_room room new) same ∙ sym ex';
      has_room = λ m i.
          let (x, ix, ex) = In-new_roles m i in
          let kx = handed_key x in
          let (r, ir, e) = h.has_room x ix in
          (
            handed_room room new r,
            In-update_where_of (is_open room) (owned_by new) rooms r ir,
            handed_room_id r ∙ e ∙ sym kx.0 ∙ ap (λ (z : MemberRow). z.room_id) (sym ex),
          );
      agrees = λ m r i j e.
          let (x, ix, ex) = In-new_roles m i in
          let (y, iy, ey) = In-update_where (is_open room) (owned_by new) rooms r j in
          let kx = handed_key x in
          let ky = handed_room_id y in
          let same_room : y.id ≡ x.room_id = cc (kx.0, ky) in
          let a = h.agrees x y ix iy same_room in
          let here = Bool-cases (y.id == room) in
          rw (ex, ey)
            (elim here [
              | inl at ↦
                  let at' = ==→eq y.id room at in
                  let (op, eo) = is_ours y iy at' in
                  agrees_here x y (sym same_room ∙ at') at' op eo a
              | inr off ↦ agrees_elsewhere x y (ground arith) (ground arith) a
            ]);
      owner_present = λ r j.
          let (y, iy, ey) = In-update_where (is_open room) (owned_by new) rooms r j in
          let (m, i, e, u) = owner_of y iy in
          (
            m,
            i,
            e ∙ ap (λ (z : RoomRow). z.id) (sym ey),
            u ∙ ap (λ (z : RoomRow). z.owner_id) (sym ey),
          );
    }
