-- ===== src/Rooms/Ownership/Tables.antt =====
-- The ownership invariant over the tables `rooms` and `room_members`, and the two kinds of updates
-- that keep it: those that touch neither ids nor owners, and those that touch neither keys nor roles.
use convoy_backend.Base.{
  ◌≡◌, refl, sym, ap, ◌∙◌, Bool, ◌↔◌, List, In, Bool-cases, inl, inr, if◌then◌else◌,
}
use convoy_backend.Base.Rows.{update_where, In-update_where, In-update_where_of}
use convoy_backend.Schema.{Db, RoomRow, MemberRow, owner}

-- the role of `m` in the room `r` is what `owner_id` says
abbrev pub RoleAgrees : MemberRow → RoomRow → Type 0
RoleAgrees m r = (m.role ≡ owner) ↔ (m.user_id ≡ r.owner_id)

pub record IsOwned (rooms : List RoomRow) (members : List MemberRow) : Type 0 where
  pub unique_rooms : (r r' : RoomRow) → In r rooms → In r' rooms → r.id ≡ r'.id → r ≡ r'
  pub has_room : (m : MemberRow) → In m members → (r : RoomRow) × In r rooms × (r.id ≡ m.room_id)
  pub agrees :
      (m : MemberRow) (r : RoomRow) → In m members → In r rooms → r.id ≡ m.room_id → RoleAgrees m r
  pub owner_present :
      (r : RoomRow)
      → In r rooms
      → (m : MemberRow) × In m members × (m.room_id ≡ r.id) × (m.user_id ≡ r.owner_id)

abbrev pub Owned : Db → Type 0
Owned db = IsOwned db.rooms db.room_members

-- an update of a room that leaves its id and its owner
abbrev pub KeepsOwner : (RoomRow → RoomRow) → Type 0
KeepsOwner f = (r : RoomRow) → ((f r).id ≡ r.id) × ((f r).owner_id ≡ r.owner_id)

-- an update of a membership that leaves its key and its role
abbrev KeepsRole : (MemberRow → MemberRow) → Type 0
KeepsRole f =
    (m : MemberRow)
    → ((f m).room_id ≡ m.room_id) × ((f m).user_id ≡ m.user_id) × ((f m).role ≡ m.role)

KeepsOwner-if :
    (p : RoomRow → Bool) (f : RoomRow → RoomRow)
    → KeepsOwner f
    → KeepsOwner (λ r. if p r then f r else r)
KeepsOwner-if p f k r = elim (Bool-cases (p r)) [ inl e ↦ rw e (k r) | inr e ↦ rw e (refl, refl) ]

KeepsRole-if :
    (p : MemberRow → Bool) (f : MemberRow → MemberRow)
    → KeepsRole f
    → KeepsRole (λ m. if p m then f m else m)
KeepsRole-if p f k m = elim (Bool-cases (p m)) [
  | inl e ↦ rw e (k m)
  | inr e ↦ rw e (refl, refl, refl)
]

module _ (rooms : List RoomRow) (members : List MemberRow) (h : IsOwned rooms members) where
  module _ (p : RoomRow → Bool) (f : RoomRow → RoomRow) (k : KeepsOwner f) where
    pub update_rooms-IsOwned : IsOwned (update_where p f rooms) members
    update_rooms-IsOwned = record {
      unique_rooms = λ r r' i i' e.
          let (x, ix, ex) = In-update_where p f rooms r i in
          let (x', ix', ex') = In-update_where p f rooms r' i' in
          let kx = KeepsOwner-if p f k x in
          let kx' = KeepsOwner-if p f k x' in
          let same : x ≡ x' = h.unique_rooms x x' ix ix' (cc (kx.0, kx'.0)) in
          ex ∙ ap (λ z. if p z then f z else z) same ∙ sym ex';
      has_room = λ m i.
          let (r, ir, e) = h.has_room m i in
          (
            if p r then f r else r,
            In-update_where_of p f rooms r ir,
            (KeepsOwner-if p f k r).0 ∙ e,
          );
      agrees = λ m r i ir e.
          let (x, ix, ex) = In-update_where p f rooms r ir in
          let kx = KeepsOwner-if p f k x in
          let a = h.agrees m x i ix (cc (kx.0)) in
          ((λ o. cc (a.0 o, kx.1)), (λ u. a.1 (cc (kx.1))));
      owner_present = λ r ir.
          let (x, ix, ex) = In-update_where p f rooms r ir in
          let kx = KeepsOwner-if p f k x in
          let (m, i, e, u) = h.owner_present x ix in (m, i, cc (kx.0), cc (kx.1));
    }

  module _ (p : MemberRow → Bool) (f : MemberRow → MemberRow) (k : KeepsRole f) where
    pub update_members-IsOwned : IsOwned rooms (update_where p f members)
    update_members-IsOwned = record {
      unique_rooms = h.unique_rooms;
      has_room = λ m i.
          let (x, ix, ex) = In-update_where p f members m i in
          let kx = KeepsRole-if p f k x in let (r, ir, e) = h.has_room x ix in (r, ir, cc (kx.0));
      agrees = λ m r i ir e.
          let (x, ix, ex) = In-update_where p f members m i in
          let kx = KeepsRole-if p f k x in
          let a = h.agrees x r ix ir (cc (kx.0)) in
          ((λ o. cc (a.0 (cc (kx.2)), kx.1)), (λ u. cc (a.1 (cc (kx.1)), kx.2)));
      owner_present = λ r ir.
          let (x, ix, e, u) = h.owner_present r ir in
          let kx = KeepsRole-if p f k x in
          (if p x then f x else x, In-update_where_of p f members x ix, kx.0 ∙ e, kx.1 ∙ u);
    }
