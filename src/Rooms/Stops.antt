-- ===== src/Rooms/Stops.antt =====
-- The route of a room: what AddStop and RemoveStop (internal/rooms/service.go) do to its ordered stops.
use convoy_backend.Rooms.Ownership.Service.{Keeps-require_owner}
use convoy_backend.Rooms.Service.Route
use convoy_backend.Rooms.Service.Route.{broadcast_stops}
use convoy_backend.Rooms.Store.Stop
use convoy_backend.Base.{none, some}
use convoy_backend.Rooms.Store.Rows.{user_exists, room_exists}
use convoy_backend.Schema.Query.{Keeps-read}
use convoy_backend.Rooms.Outcomes.{Leads-on_store, notify-Leads}
use convoy_backend.Schema.Leads.{Leads-write, Reaches}
use convoy_backend.Rooms.Service.Labels.{bad_coords, trim_label}
use convoy_backend.Rooms.Service.Route.{broadcast_stops, fan_out, broadcast_stops_by}
use convoy_backend.Rooms.Types.{Stop}
use convoy_backend.Text.{Text}
use convoy_backend.Exec.Leads.{
  Leads-guard, Leads-Keeps, Outcome, Leads-attempt, Leads->>=, Leads-pure, Leads,
}
use convoy_backend.Exec.{err, ok, Result}
use convoy_backend.Float64.{Float64}
use convoy_backend.Rooms.Service.Core.{Keeps-on_store, OnWorld, World, Service}
use convoy_backend.Base.Rows.{
  exists_where, next_above-lt, order_by, order_by-append, where_rows-append, where_rows,
}
use convoy_backend.Rooms.Store.Stop.{
  new_stop, add_stop_rows, list_stops, stop_of, stop_le, stop_in, stops_of,
}
use convoy_backend.Schema.{StopRow, Db}
use convoy_backend.Base.{
  ◌&&◌, inr, inl, ◌==◌, some, lt→ltb, Bool-cases, List, Option, map-append, [], sym, ◌∷◌, ==_refl,
  ne→==, ◌++◌, In, ℕ, ◌≡◌, ◌≢◌, refl, true, false,
}

-- the stops of every other room
abbrev OthersKeepStops : ℕ → Db → Db → Type 0
OthersKeepStops room before after = (r : ℕ) → r ≢ room → stops_of r after ≡ stops_of r before

module _ (room : ℕ) (before : Db) (s : StopRow) (here : s.room_id ≡ room) where
  after : Db
  after = record before { room_stops = before.room_stops ++ s ∷ [] }

  stop_in-here : stop_in room s ≡ true
  stop_in-here = rw here (==_refl room)

  stops_of-append :
      ((t : StopRow) → In t (where_rows (stop_in room) before.room_stops) → stop_le t s ≡ true)
      → stops_of room after ≡ stops_of room before ++ stop_of s ∷ []
  unfolding after
  stops_of-append above =
      rw
        (
          where_rows-append (stop_in room) before.room_stops s,
          stop_in-here,
          order_by-append stop_le s (where_rows (stop_in room) before.room_stops) above,
        )
        (map-append stop_of (order_by stop_le (where_rows (stop_in room) before.room_stops)) s)

  stops_of-others : OthersKeepStops room before after
  unfolding after
  stops_of-others r differ =
      let away : stop_in r s ≡ false = rw here (ne→== room r (λ e. differ (sym e))) in
      rw (where_rows-append (stop_in r) before.room_stops s, away) refl

-- the stop that AddStop returns, and what it did to the routes
pub record Appended (room user : ℕ) (lat lng : Float64) (label : Option Text) (before : Db)
    (s : Stop) (after : Db) : Type 0 where
  pub route : stops_of room after ≡ stops_of room before ++ s ∷ []
  pub others : OthersKeepStops room before after
  pub created : (s.room_id ≡ room) × (s.created_by ≡ user) × (s.lat ≡ lat) × (s.lng ≡ lng)
  pub tidy : s.label ≡ trim_label label
  pub in_range : bad_coords lat lng ≡ false

module _ (room user : ℕ) (lat lng : Float64) (label : Option Text) (before : Db) where
  new_stop-above :
      (now id : ℕ) (t : StopRow)
      → In t (where_rows (stop_in room) before.room_stops)
      → stop_le t (new_stop room user lat lng (trim_label label) now id before) ≡ true
  new_stop-above now id t i =
      let l =
        next_above-lt (λ (s : StopRow). s.position) (where_rows (stop_in room) before.room_stops) t
          i in
      rw (lt→ltb _ _ l) refl

  add_stop_rows-Appended :
      (now id : ℕ) (db : Db)
      → bad_coords lat lng ≡ false
      → db ≡ before
      → Reaches
          (Appended room user lat lng label before)
          (add_stop_rows room user lat lng (trim_label label) now id db)
  unfolding add_stop_rows after
  add_stop_rows-Appended now id db range same =
      let s = new_stop room user lat lng (trim_label label) now id before in
      rw same (elim (Bool-cases (exists_where (λ (t : StopRow). t.id == id) before.room_stops)) [
        | inl e ↦ rw e tt
        | inr e ↦ rw e (elim (Bool-cases (room_exists before room && user_exists before user)) [
          | inl f ↦ rw f (record {
            route = stops_of-append room before s refl (new_stop-above now id);
            others = stops_of-others room before s refl;
            created = (refl, refl, refl, refl);
            tidy = refl;
            in_range = range;
          })
          | inr f ↦ rw f tt
        ])
      ])

module _ {H : Type 0} (rt : Service H) where
  fan_out-Leads :
      {P : Db → Type 0} {E : World H → Type 0} (room : ℕ) (r : Result (List Stop))
      → Leads (OnWorld P) (fan_out rt room r) (λ _. OnWorld P) E
  fan_out-Leads room (ok stops) = notify-Leads rt _
  fan_out-Leads room (err e) = Leads-pure tt (λ w h. h)

  broadcast_stops_by-Leads :
      {P : Db → Type 0} {E : World H → Type 0} (s : Service H) (room : ℕ)
      → Leads (OnWorld P) (broadcast_stops_by rt s room) (λ _. OnWorld P) E
  unfolding list_stops
  broadcast_stops_by-Leads none room = Leads-pure tt (λ w h. h)
  broadcast_stops_by-Leads (some b) room =
      Leads->>= _ _ (Leads-attempt _ (Keeps-on_store _ (Keeps-read _))) λ r. fan_out-Leads room r

  broadcast_stops-Leads :
      {P : Db → Type 0} {E : World H → Type 0} (room : ℕ)
      → Leads (OnWorld P) (broadcast_stops rt room) (λ _. OnWorld P) E
  unfolding broadcast_stops
  broadcast_stops-Leads room = broadcast_stops_by-Leads rt room

  -- AddStop leads to a stop that stands last in the room's route, after the stops that were there,
  -- with a tidied label, coordinates in range and the caller as its creator; the routes of other
  -- rooms stay. When AddStop fails, the tables are as they were.
  pub add_stop-Appended :
      (room user : ℕ) (lat lng : Float64) (label : Option Text) (w : World H)
      → Outcome
          (λ s. OnWorld (Appended room user lat lng label w.session.db s))
          (OnWorld (λ t. t ≡ w.session.db))
          (Route.add_stop rt room user lat lng label w).0
          (Route.add_stop rt room user lat lng label w).1
  unfolding Route.add_stop Stop.add_stop
  add_stop-Appended room user lat lng label w =
      let before = w.session.db in
      let k = Leads->>= _ _ (Leads-Keeps _ (λ v h. h) (Keeps-require_owner room user)) λ _.
        Leads-guard (bad_coords lat lng) _ _ (λ v h. h)
          λ range.
            Leads->>= _ _
              (Leads-on_store _ (
                Leads-write {P = λ t. t ≡ before} {Q = Appended room user lat lng label before} _
                  (λ db h. h)
                  (λ now id db h.
                    add_stop_rows-Appended room user lat lng label before now id db range h)))
              λ s. Leads->>= _ _ (broadcast_stops-Leads room) λ _. Leads-pure s (λ v h. h) in
      k.at w (record { holds = refl })
