-- ===== src/Realtime/Admission.antt =====
-- Who gets a websocket: ServeHTTP of internal/realtime/handler.go, up to the pumps.
use convoy_backend.Realtime.Entry.{
  accept-Leads, refuse-Leads, Verdict, Never, ActiveMember, OpenRoom, Kept, LiveUser,
}
use convoy_backend.Httpx.{invalid_utf8, no_rows, check_violation, other}
use convoy_backend.Auth.Users.{loaded, load_user, live_user}
use convoy_backend.Realtime.Handler
use convoy_backend.Rooms.Store.Room.{get_by_id, scan_room}
use convoy_backend.Base.Rows.{In-first_where, first_where}
use convoy_backend.Rooms.Types.{Room}
use convoy_backend.Httpx.{
  api, room_not_found, unique_violation, foreign_key_violation, connection_lost, scan_failed,
  no_randomness, no_room_code,
}
use convoy_backend.Base.{◌∙◌, arith, Bool-cases, is_some, ==→eq, Option, none, some, refl, sym}
use convoy_backend.Schema.Leads.{Leads-read, Shows}
use convoy_backend.Realtime.Handler.{with_room, with_membership, with_user, failed, connected}
use convoy_backend.Schema.Query.{read, OnDb, Session}
use convoy_backend.Rooms.Store.Rows.{has_room_id, is_active_unkicked}
use convoy_backend.Exec.Leads.{Outcome, Leads->>=, Leads}
use convoy_backend.Rooms.Store.Member.{role_and_muted, active_membership}
use convoy_backend.Schema.{UserRow, MemberRow, RoomRow, Db}
use convoy_backend.Rooms.Service.Core.{on_store, World}
use convoy_backend.Base.{sym, subst, In, Bool, ℕ, ◌≡◌, refl, false, none, some, inl, inr}
use convoy_backend.Exec.{◌>>=◌, attempt, Result, ok, err}
use convoy_backend.Realtime.Hub.{Hub}
use convoy_backend.Realtime.Handler
use convoy_backend.Realtime.Handler.{
  accept, send_snapshot, announce_present, enter, Upgrade, refused, failed, connected,
}

module _ (room user : ℕ) (before : Db) (live : Hub) where
  -- a lookup that either answers, with a fact, or leaves things as they were
  Found : {A : Type 0} → Type 0 → (A → Type 0) → Result A → World Hub → Type 0
  Found facts Q (ok a) w = Kept room user before live (facts × Q a) w
  Found facts Q (err e) w = Kept room user before live facts w

  Found-of :
      {A : Type 0} (facts : Type 0) (Q : A → Type 0) (r : Result A) (s : Session) (h : Hub)
      → h ≡ live
      → Outcome
          (λ a. OnDb (λ db. (db ≡ before) × (facts × Q a)))
          (OnDb (λ db. (db ≡ before) × facts))
          r
          s
      → Found facts Q r (record { session = s; live = h })
  unfolding Found Kept
  Found-of facts Q (ok a) s h e o = record { holds = o.holds; same_live = e }
  Found-of facts Q (err x) s h e o = record { holds = o.holds; same_live = e }

  shown-before :
      {A : Type 0} (facts : Type 0) (Q : A → Type 0) (r : Result A) (db : Db)
      → (db ≡ before) × facts
      → Shows (λ a t. Q a) db r
      → Shows (λ a t. (t ≡ before) × (facts × Q a)) db r
  shown-before facts Q (ok a) db k q = (k.0, (k.1, q))
  shown-before facts Q (err e) db k q = tt

  look-Leads :
      {A : Type 0} (facts : Type 0) (Q : A → Type 0) (f : Db → Result A)
      → Shows (λ a db. Q a) before (f before)
      → Leads (Kept room user before live facts) (attempt (on_store (read f))) (Found facts Q) Never
  unfolding Kept attempt on_store
  look-Leads facts Q f shows = record {
    at = λ w h. Found-of facts Q (read f w.session).0 (read f w.session).1 w.live h.same_live (
        (Leads-read {P = λ db. (db ≡ before) × facts} {Q = λ a db. (db ≡ before) × (facts × Q a)} f
            (λ db k. k)
            (λ db k.
              shown-before facts Q (f db) db k
                (subst (λ t. Shows (λ a u. Q a) t (f t)) (sym k.0) shows))).at
          w.session (record { holds = h.holds }));
  }

  -- the row that GetByID scans
  RoomFound : Room → Type 0
  RoomFound r =
      (row : RoomRow) × In row before.rooms × (row.id ≡ room) × (r.ended_at ≡ row.ended_at)

  room-shown :
      (o : Option RoomRow)
      → first_where (has_room_id room) before.rooms ≡ o
      → Shows (λ r db. RoomFound r) before (scan_room o)
  unfolding RoomFound
  room-shown none e = tt
  room-shown (some row) e =
      let (i, a) = In-first_where (has_room_id room) before.rooms row e in
      (row, i, ==→eq row.id room a, refl)

  membership-shown :
      (o : Option MemberRow)
      → first_where (is_active_unkicked room user) before.room_members ≡ o
      → Shows (λ found db. ActiveMember room user before) before (role_and_muted o)
  membership-shown none e = tt
  membership-shown (some m) e =
      let (i, a) = In-first_where (is_active_unkicked room user) before.room_members m e in
      (m, i, a)

  user-shown :
      (o : Option UserRow)
      → first_where (live_user user) before.users ≡ o
      → Shows (λ u db. LiveUser user before) before (loaded o)
  user-shown none e = tt
  user-shown (some u) e = let (i, a) = In-first_where (live_user user) before.users u e in (u, i, a)

  Opened : Type 0
  Opened = Unit {0} × OpenRoom room before

  with_user-Leads :
      (up : Bool) (r : Result UserRow)
      → Leads
          (Found (Opened × ActiveMember room user before) (λ u. LiveUser user before) r)
          (with_user room user up r)
          (Verdict room user before live)
          Never
  unfolding Found Kept Opened
  with_user-Leads up (err e) = refuse-Leads room user before live _ 500
  with_user-Leads up (ok u) = record {
    at = λ w h.
        let (same, ((o, m), l)) = h.holds in
        (accept-Leads room user before live u up).at w (record {
          holds = (same, record { open_room = o.1; active_member = m; account = l });
          same_live = h.same_live;
        });
  }

  with_membership-Leads :
      {A : Type 0} (up : Bool) (r : Result A)
      → Leads
          (Found Opened (λ a. ActiveMember room user before) r)
          (with_membership room user up r)
          (Verdict room user before live)
          Never
  unfolding Found load_user
  with_membership-Leads up (err e) = refuse-Leads room user before live Opened 403
  with_membership-Leads up (ok a) =
      Leads->>= _ _
        (look-Leads (Opened × ActiveMember room user before) (λ u. LiveUser user before) _
          (user-shown (first_where (live_user user) before.users) refl))
        λ r. with_user-Leads up r

  open_room-Leads :
      (up : Bool)
      → Leads
          (Kept room user before live Opened)
          (do m ← attempt (on_store (active_membership room user)); with_membership room user up m)
          (Verdict room user before live)
          Never
  unfolding active_membership
  open_room-Leads up =
      Leads->>= _ _
        (look-Leads Opened (λ found. ActiveMember room user before) _
          (membership-shown (first_where (is_active_unkicked room user) before.room_members) refl))
        λ m. with_membership-Leads up m

  not_some : (o : Option ℕ) → is_some o ≡ false → o ≡ none
  not_some none e = refl
  not_some (some n) e = ground arith

  with_room-Leads :
      (up : Bool) (r : Result Room)
      → Leads
          (Found (Unit {0}) RoomFound r)
          (with_room room user up r)
          (Verdict room user before live)
          Never
  unfolding Found Opened Kept RoomFound
  with_room-Leads up (ok r) = elim (Bool-cases (is_some r.ended_at)) [
    | inl e ↦ rw e (refuse-Leads room user before live (Unit {0} × RoomFound r) 410)
    | inr e ↦ rw e (record {
      at = λ w h.
          let (same, (u, (row, i, id, ended))) = h.holds in
          (open_room-Leads up).at w (record {
            holds = (same, (u, (row, i, id, sym ended ∙ not_some r.ended_at e)));
            same_live = h.same_live;
          });
    })
  ]
  with_room-Leads up (err room_not_found) = refuse-Leads room user before live (Unit {0}) 404
  with_room-Leads up (err unique_violation) = refuse-Leads room user before live (Unit {0}) 500
  with_room-Leads up (err (api e)) = refuse-Leads room user before live (Unit {0}) 500
  with_room-Leads up (err foreign_key_violation) = refuse-Leads room user before live (Unit {0}) 500
  with_room-Leads up (err connection_lost) = refuse-Leads room user before live (Unit {0}) 500
  with_room-Leads up (err scan_failed) = refuse-Leads room user before live (Unit {0}) 500
  with_room-Leads up (err invalid_utf8) = refuse-Leads room user before live (Unit {0}) 500
  with_room-Leads up (err no_rows) = refuse-Leads room user before live (Unit {0}) 500
  with_room-Leads up (err check_violation) = refuse-Leads room user before live (Unit {0}) 500
  with_room-Leads up (err (other _)) = refuse-Leads room user before live (Unit {0}) 500
  with_room-Leads up (err no_randomness) = refuse-Leads room user before live (Unit {0}) 500
  with_room-Leads up (err no_room_code) = refuse-Leads room user before live (Unit {0}) 500

-- A websocket request with a well-formed room and a valid token never ends in an error of the model.
-- It is upgraded only if the room is open, the user is an active member who was not kicked, and the
-- account is not deleted; the tables stay. A request that is refused, or whose upgrade fails, leaves
-- the hub as it was.
pub serve-Verdict :
    (room user : ℕ) (up : Bool) (w : World Hub)
    → Outcome
        (Verdict room user w.session.db w.live)
        Never
        (Handler.serve (some room) (some user) up w).0
        (Handler.serve (some room) (some user) up w).1
unfolding Handler.serve get_by_id Found Kept
serve-Verdict room user up w =
    let before = w.session.db in
    (Leads->>= _ _
        (look-Leads room user before w.live (Unit {0}) (RoomFound room user before w.live) _
          (room-shown room user before w.live (first_where (has_room_id room) before.rooms) refl))
        (λ r. with_room-Leads room user before w.live up r)).at
      w (record { holds = (refl, tt); same_live = refl })
