-- ===== src/Rooms/Ownership/Insert.antt =====
-- New rooms and new memberships keep the ownership invariant, and so does the transfer of a room.
use convoy_backend.Base.{
  ◌⊎◌, ◌≡◌, ◌≢◌, refl, sym, ap, ◌∙◌, true, false, ◌++◌, ◌∷◌, [], List, In, In-append,
  In-append_left, In-append_right, inl, inr, arith, ==→eq,
}
use convoy_backend.Base.Rows.{exists_where, exists_where-false, In-exists_where}
use convoy_backend.Schema.{RoomRow, MemberRow, owner, member}
use convoy_backend.Rooms.Store.Rows.{has_room_id, is_row_of}
use convoy_backend.Rooms.Ownership.Tables.{IsOwned}

In-snoc : {A : Type 0} (xs : List A) (a x : A) → In x (xs ++ a ∷ []) → In x xs ⊎ (x ≡ a)
In-snoc xs a x i = elim (In-append xs (a ∷ []) x i) [
  | inl old ↦ inl old
  | inr (inl e) ↦ inr e
  | inr (inr bad) ↦ absurd bad
]

module _ (rooms : List RoomRow) (members : List MemberRow) (h : IsOwned rooms members) where
  -- CreateRoom: a room with a new id, and its owner's membership
  pub create-IsOwned :
      (r : RoomRow) (m : MemberRow)
      → exists_where (has_room_id r.id) rooms ≡ false
      → m.room_id ≡ r.id
      → m.user_id ≡ r.owner_id
      → m.role ≡ owner
      → IsOwned (rooms ++ r ∷ []) (members ++ m ∷ [])
  create-IsOwned r m fresh mr mu mo = record {
    unique_rooms = λ x y i j e. elim (In-snoc rooms r x i) [
      | inl ix ↦ elim (In-snoc rooms r y j) [
        | inl iy ↦ h.unique_rooms x y ix iy e
        | inr ey ↦ absurd (new_id x ix (e ∙ ap (λ (z : RoomRow). z.id) ey))
      ]
      | inr ex ↦ elim (In-snoc rooms r y j) [
        | inl iy ↦ absurd (new_id y iy (sym e ∙ ap (λ (z : RoomRow). z.id) ex))
        | inr ey ↦ ex ∙ sym ey
      ]
    ];
    has_room = λ x i. elim (In-snoc members m x i) [
      | inl ix ↦ let (y, iy, e) = h.has_room x ix in (y, In-append_left rooms (r ∷ []) y iy, e)
      | inr e ↦ (r, In-append_right rooms (r ∷ []) r (inl refl), rw e (sym mr))
    ];
    agrees = λ x y i j e. elim (In-snoc members m x i) [
      | inl ix ↦ elim (In-snoc rooms r y j) [
        | inl iy ↦ h.agrees x y ix iy e
        | inr ey ↦
            let (z, iz, ez) = h.has_room x ix in
            absurd (new_id z iz (ez ∙ sym e ∙ ap (λ (w : RoomRow). w.id) ey))
      ]
      | inr ex ↦ elim (In-snoc rooms r y j) [
        | inl iy ↦ absurd (new_id y iy (e ∙ ap (λ (w : MemberRow). w.room_id) ex ∙ mr))
        | inr ey ↦ ((λ _. rw (ex, ey) mu), (λ _. rw ex mo))
      ]
    ];
    owner_present = λ y j. elim (In-snoc rooms r y j) [
      | inl iy ↦
          let (x, ix, e, u) = h.owner_present y iy in
          (x, In-append_left members (m ∷ []) x ix, e, u)
      | inr ey ↦ (m, In-append_right members (m ∷ []) m (inl refl), rw ey mr, rw ey mu)
    ];
  }
    where
      new_id : (x : RoomRow) → In x rooms → x.id ≢ r.id
      new_id x ix e = ground (arith, exists_where-false (has_room_id r.id) rooms x fresh ix)

  -- UpsertMember on a new pair: the newcomer is a plain member, since the owner has a row
  pub newcomer-IsOwned :
      (m : MemberRow)
      → exists_where (is_row_of m.room_id m.user_id) members ≡ false
      → exists_where (has_room_id m.room_id) rooms ≡ true
      → m.role ≡ member
      → IsOwned rooms (members ++ m ∷ [])
  newcomer-IsOwned m fresh known role = record {
    unique_rooms = h.unique_rooms;
    has_room = λ x i. elim (In-snoc members m x i) [
      | inl ix ↦ h.has_room x ix
      | inr e ↦
          let (r, ir, p) = In-exists_where (has_room_id m.room_id) rooms known in
          (r, ir, rw e (==→eq r.id m.room_id p))
    ];
    agrees = λ x y i j e. elim (In-snoc members m x i) [
      | inl ix ↦ h.agrees x y ix j e
      | inr ex ↦ ((λ o. cc (ex, role, o)), (λ u. absurd (not_owner y j (cc (ex)) (cc (ex)))))
    ];
    owner_present = λ y j.
        let (x, ix, e, u) = h.owner_present y j in (x, In-append_left members (m ∷ []) x ix, e, u);
  }
    where
      not_owner : (y : RoomRow) → In y rooms → y.id ≡ m.room_id → m.user_id ≢ y.owner_id
      not_owner y j e u =
          let (x, ix, ex, ux) = h.owner_present y j in
          ground (arith, exists_where-false (is_row_of m.room_id m.user_id) members x fresh ix)
