-- ===== src/Rooms/Clearing.antt =====
-- What ClearDestination (internal/rooms/service.go) leaves of the destination and of the route.
use convoy_backend.Rooms.Outcomes.{notify-Leads, Leads-on_store}
use convoy_backend.Exec.Leads.{Leads-Keeps, Leads->>=, Outcome}
use convoy_backend.Rooms.Service.Core.{OnWorld, World, Service}
use convoy_backend.Rooms.Store.Stop.{stop_le, stop_of, stop_in, stops_of, clear_stop_rows}
use convoy_backend.Rooms.Store.Destination
use convoy_backend.Rooms.Store.Stop
use convoy_backend.Rooms.Service.Route
use convoy_backend.Rooms.Ownership.Service.{Keeps-require_owner}
use convoy_backend.Base.{
  ◌∙◌, if◌then◌else◌, ne→==, ==→eq, map, ◌≢◌, ap, ◌⊎◌, [], ◌∷◌, refl, sym, inl, inr,
}
use convoy_backend.Base.Rows.{
  order_by, delete_where, where_rows, In-update_where, update_where, exists_where,
}
use convoy_backend.Rooms.Store.Rows.{is_open}
use convoy_backend.Schema.Leads.{Leads-write, Reaches}
use convoy_backend.Schema.{StopRow, RoomRow, Db}
use convoy_backend.Rooms.Store.Destination.{unplaced, has_destination, clear_destination_rows}
use convoy_backend.Base.{arith, In, Bool-cases, List, ℕ, ◌≡◌, refl, true, false, inl, inr}

-- no open row of the room has a destination
abbrev NoDestination : ℕ → Db → Type 0
NoDestination room db =
    (r : RoomRow) → In r db.rooms → is_open room r ≡ true → has_destination r ≡ false

-- the destination is cleared and the rest stays, the stops too
abbrev Unplaced : ℕ → Db → Db → Type 0
Unplaced room before after =
    NoDestination room after × (after ≡ record before { rooms = after.rooms })

unplaced-NoDestination :
    (room : ℕ) (rooms : List RoomRow) (r : RoomRow)
    → In r (update_where (is_open room) unplaced rooms)
    → is_open room r ≡ true
    → has_destination r ≡ false
unplaced-NoDestination room rooms r i open_ =
    let (x, ix, e) = In-update_where (is_open room) unplaced rooms r i in
    elim (Bool-cases (is_open room x)) [
      | inl a ↦ let e' : r ≡ unplaced x = rw a at e in rw e' refl
      | inr a ↦ let e' : r ≡ x = rw a at e in ground arith
    ]

clear_destination_rows-Unplaced :
    (room : ℕ) (before db : Db)
    → db ≡ before
    → Reaches (λ (_ : Unit {0}). Unplaced room before) (clear_destination_rows room db)
unfolding clear_destination_rows
clear_destination_rows-Unplaced room before db same =
    rw same (elim (Bool-cases (exists_where (is_open room) before.rooms)) [
      | inl e ↦ rw e (unplaced-NoDestination room before.rooms, refl)
      | inr e ↦ rw e tt
    ])

-- nothing happened yet, or the destination is cleared and the stops are not
abbrev pub Halfway : ℕ → Db → Db → Type 0
Halfway room before after = (after ≡ before) ⊎ Unplaced room before after

-- neither a destination nor a stop is left; the other rooms keep their stops
pub record Cleared (room : ℕ) (before after : Db) : Type 0 where
  pub no_destination : NoDestination room after
  pub no_stops : stops_of room after ≡ []
  pub others : (r : ℕ) → r ≢ room → stops_of r after ≡ stops_of r before

where_rows-delete_where :
    (room : ℕ) (ss : List StopRow) → where_rows (stop_in room) (delete_where (stop_in room) ss) ≡ []
where_rows-delete_where room [] = refl
where_rows-delete_where room (s ∷ ss) = elim (Bool-cases (stop_in room s)) [
  | inl e ↦ rw e (where_rows-delete_where room ss)
  | inr e ↦ rw (e, e) (where_rows-delete_where room ss)
]

where_rows-delete_other :
    (r room : ℕ) (ss : List StopRow)
    → r ≢ room
    → where_rows (stop_in r) (delete_where (stop_in room) ss) ≡ where_rows (stop_in r) ss
where_rows-delete_other r room [] differ = refl
where_rows-delete_other r room (s ∷ ss) differ = elim (Bool-cases (stop_in room s)) [
  | inl e ↦
      let away : stop_in r s ≡ false =
        rw (==→eq s.room_id room e) (ne→== room r (λ x. differ (sym x))) in
      rw (e, away) (where_rows-delete_other r room ss differ)
  | inr e ↦
      rw e
        (ap (λ xs. if stop_in r s then s ∷ xs else xs) (where_rows-delete_other r room ss differ))
]

clear_stop_rows-Cleared :
    (room : ℕ) (before db : Db)
    → Unplaced room before db
    → Cleared room before (clear_stop_rows room db)
unfolding clear_stop_rows
clear_stop_rows-Cleared room before db (gone, same) = record {
  no_destination = gone;
  no_stops =
      ap (λ ss. map stop_of (order_by stop_le ss)) (where_rows-delete_where room db.room_stops);
  others = λ r differ.
      ap (λ ss. map stop_of (order_by stop_le ss))
        (where_rows-delete_other r room db.room_stops differ
          ∙ ap (λ (t : Db). where_rows (stop_in r) t.room_stops) same);
}

module _ {H : Type 0} (rt : Service H) where
  -- ClearDestination leads to a room without a destination on an open row and without stops, and the
  -- other rooms keep their stops. It fails with the tables as they were, or, when only the second query
  -- fails, with the destination cleared and every stop still there.
  pub clear_destination-Cleared :
      (room actor : ℕ) (w : World H)
      → Outcome
          (λ _. OnWorld (Cleared room w.session.db))
          (OnWorld (Halfway room w.session.db))
          (Route.clear_destination rt room actor w).0
          (Route.clear_destination rt room actor w).1
  unfolding Route.clear_destination Destination.clear_destination Stop.clear_stops
  clear_destination-Cleared room actor w =
      let before = w.session.db in
      let k =
        Leads->>= _ _
          (Leads-Keeps {P = OnWorld (λ t. t ≡ before)} _ (λ v h. record { holds = inl h.holds })
            (Keeps-require_owner room actor))
          λ _.
            Leads->>= _ _
              (Leads-on_store _ (
                Leads-write {Q = λ _. Unplaced room before} _ (λ db h. inl h)
                  (λ now id db h. clear_destination_rows-Unplaced room before db h)))
              λ _.
                Leads->>= _ _
                  (Leads-on_store _ (
                    Leads-write {Q = λ _. Cleared room before} _ (λ db h. inr h)
                      (λ now id db h. clear_stop_rows-Cleared room before db h)))
                  λ _. Leads->>= _ _ (notify-Leads rt _) λ _. notify-Leads rt _ in
      k.at w (record { holds = refl })
