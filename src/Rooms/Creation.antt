-- ===== src/Rooms/Creation.antt =====
-- What Create and its room code promise (internal/rooms/service.go), on every branch.
use convoy_backend.Httpx.{invalid_utf8, no_rows, check_violation, other}
use convoy_backend.Rooms.Outcomes.{Leads-on_store}
use convoy_backend.Rooms.Service.Core.{on_store, OnWorld, World}
use convoy_backend.Rooms.Store.Rows.{user_exists, room_exists, room_of, has_room_id, is_row_of}
use convoy_backend.Schema.Leads.{Leads-write, Leads-transaction, Reaches}
use convoy_backend.Base.Rows.{exists_where}
use convoy_backend.Rooms.Types.{Room}
use convoy_backend.Rooms.Store.Room.{
  create_room, new_owner, new_room, has_open_code, insert_owner, insert_room,
}
use convoy_backend.Exec.Leads.{Leads-tried, Leads-weaken, Leads->>=, Leads-pure, Outcome, Leads}
use convoy_backend.Schema.Query.{OnDb, Session}
use convoy_backend.Rooms.Service.Membership.{
  retry, create_loop, drawn, generate_code, draw_digits, draw,
}
use convoy_backend.Schema.{Db}
use convoy_backend.Text.{Text}
use convoy_backend.Base.{
  sym, subst, ◌++◌, ◌&&◌, not, Bool-cases, arith, [], ap, ◌∷◌, ◌≤◌, ◌+◌, In, Option, ◌<◌, length, ℕ,
  ◌≡◌, refl, false, none, some, inl, inr, zero, suc,
}
use convoy_backend.Exec.{Exec, raise, attempt, Result, ok, err}
use convoy_backend.Httpx.{
  api, room_not_found, unique_violation, foreign_key_violation, connection_lost, scan_failed,
  no_randomness, no_room_code,
}
use convoy_backend.Rooms.Service.Membership

-- a text of `k` decimal digits
abbrev IsDigits : ℕ → Text → Type 0
IsDigits k code = (length code ≡ k) × ((c : ℕ) → In c code → (b'0' ≤ c) × (c ≤ b'9'))

drawn-Leads :
    (P : Db → Type 0) (s : Session) (o : Option ℕ)
    → OnDb P s
    → Outcome (λ n. OnDb (λ db. P db × (n < 10))) (OnDb P) (drawn s o).0 (drawn s o).1
drawn-Leads P s none h = record { holds = h.holds }
drawn-Leads P s (some n) h = record { holds = (h.holds, omega arith) }

draw-Leads : (P : Db → Type 0) → Leads (OnDb P) draw (λ n. OnDb (λ db. P db × (n < 10))) (OnDb P)
unfolding draw
draw-Leads P = record { at = λ s h. drawn-Leads P s (s.env.random s.draws) h }

digit-IsDigits :
    (n k : ℕ) (rest : Text) → n < 10 → IsDigits k rest → IsDigits (suc k) ((b'0' + n) ∷ rest)
digit-IsDigits n k rest l (e, d) =
    (ap suc e, λ c i. elim i [ inl same ↦ (omega arith, omega arith) | inr j ↦ d c j ])

draw_digits-Leads :
    (P : Db → Type 0) (k : ℕ)
    → Leads (OnDb P) (draw_digits k) (λ code. OnDb (λ db. P db × IsDigits k code)) (OnDb P)
unfolding draw_digits
draw_digits-Leads P zero =
    Leads-pure [] (λ s h. record { holds = (h.holds, (refl, λ c i. absurd i)) })
draw_digits-Leads P (suc k) = Leads->>= _ _ (draw-Leads P) λ n.
    Leads->>= _ _
      (Leads-weaken _ (λ s h. record { holds = h.holds.0 })
        (draw_digits-Leads (λ db. P db × (n < 10)) k))
      λ rest.
        Leads-pure _
          (λ s h. let ((p, l), d) = h.holds in record { holds = (p, digit-IsDigits n k rest l d) })

code-Leads :
    (P : Db → Type 0)
    → Leads (OnDb P) generate_code (λ code. OnDb (λ db. P db × IsDigits 6 code)) (OnDb P)
unfolding generate_code
code-Leads P = draw_digits-Leads P 6

-- A new open room with a code that no open room had, and its owner's membership; nothing else.
pub record Allocated (user : ℕ) (name : Option Text) (before : Db) (r : Room) (after : Db)
    : Type 0 where
  pub digits : IsDigits 6 r.code
  pub free : exists_where (has_open_code r.code) before.rooms ≡ false
  pub fresh : exists_where (has_room_id r.id) before.rooms ≡ false
  pub inserted :
      (now now' : ℕ) × (r ≡ room_of (new_room r.id r.code name user now))
      × (after ≡ record before {
        rooms = before.rooms ++ new_room r.id r.code name user now ∷ [];
        room_members = before.room_members ++ new_owner r.id user now' ∷ [];
      })

module _ (user : ℕ) (name : Option Text) (before : Db) (code : Text) where
  -- after the first statement of the transaction
  record Opened (r : Room) (db : Db) : Type 0 where
    same_code : r.code ≡ code
    free : exists_where (has_open_code r.code) before.rooms ≡ false
    fresh : exists_where (has_room_id r.id) before.rooms ≡ false
    inserted :
        (now : ℕ) × (r ≡ room_of (new_room r.id r.code name user now))
        × (db ≡ record before { rooms = before.rooms ++ new_room r.id r.code name user now ∷ [] })

  insert_room-Opened :
      (now id : ℕ) (db : Db) → db ≡ before → Reaches Opened (insert_room user code name now id db)
  unfolding insert_room
  insert_room-Opened now id db same =
      rw same (elim (Bool-cases (exists_where (has_room_id id) before.rooms)) [
        | inl e ↦ rw e tt
        | inr e ↦ rw e (elim (Bool-cases (exists_where (has_open_code code) before.rooms)) [
          | inl f ↦ rw f tt
          | inr f ↦ rw f (elim (Bool-cases (not (user_exists before user))) [
            | inl g ↦ rw g tt
            | inr g ↦
                rw g
                  (record { same_code = refl; free = f; fresh = e; inserted = (now, refl, refl) })
          ])
        ])
      ])

  insert_owner-Allocated :
      (now id : ℕ) (db : Db) (r : Room)
      → IsDigits 6 code
      → Opened r db
      → Reaches (λ (_ : Unit {0}). Allocated user name before r) (insert_owner r.id user now id db)
  unfolding insert_owner
  insert_owner-Allocated now id db r d o =
      let (now1, er, edb) = o.inserted in
      elim (Bool-cases (exists_where (is_row_of r.id user) db.room_members)) [
        | inl e ↦ rw e tt
        | inr e ↦ rw e (elim (Bool-cases (not (room_exists db r.id && user_exists db user))) [
          | inl f ↦ rw f tt
          | inr f ↦ rw f (record {
            digits = subst (IsDigits 6) (sym o.same_code) d;
            free = o.free;
            fresh = o.fresh;
            inserted = (now1, now, er, rw edb refl);
          })
        ])
      ]

  create_room-Allocated :
      IsDigits 6 code
      → Leads
          (OnDb (λ t. t ≡ before))
          (create_room user code name)
          (λ r. OnDb (Allocated user name before r))
          (OnDb (λ t. t ≡ before))
  unfolding create_room
  create_room-Allocated d = Leads-transaction _ (
      Leads->>= _ _
        (Leads-write {Q = Opened} _ (λ db h. tt) (λ now id db h. insert_room-Opened now id db h))
        λ r.
          Leads->>= _ _
            (Leads-write {Q = λ _. Allocated user name before r} _ (λ db h. tt)
              (λ now id db o. insert_owner-Allocated now id db r d o))
            λ _. Leads-pure r (λ s h. h))

module _ {H : Type 0} {P E : World H → Type 0} {Q : Room → World H → Type 0} where
  Leads-retry :
      (r : Result Room) (next : Exec (World H) Room)
      → ((w : World H) → P w → E w)
      → Leads P next Q E
      → Leads (Outcome Q P r) (retry r next) Q E
  unfolding raise
  Leads-retry (ok room) next f k = Leads-pure room (λ w h. h)
  Leads-retry (err unique_violation) next f k = k
  Leads-retry (err (api e)) next f k = record { at = f }
  Leads-retry (err room_not_found) next f k = record { at = f }
  Leads-retry (err foreign_key_violation) next f k = record { at = f }
  Leads-retry (err connection_lost) next f k = record { at = f }
  Leads-retry (err scan_failed) next f k = record { at = f }
  Leads-retry (err invalid_utf8) next f k = record { at = f }
  Leads-retry (err no_rows) next f k = record { at = f }
  Leads-retry (err check_violation) next f k = record { at = f }
  Leads-retry (err (other _)) next f k = record { at = f }
  Leads-retry (err no_randomness) next f k = record { at = f }
  Leads-retry (err no_room_code) next f k = record { at = f }

module _ {H : Type 0} (user : ℕ) (name : Option Text) (before : Db) where
  try_code-Leads :
      (code : Text)
      → Leads
          (OnWorld {H = H} (λ t. (t ≡ before) × IsDigits 6 code))
          (attempt (on_store (create_room user code name)))
          (λ r.
            Outcome
              (λ room. OnWorld (Allocated user name before room))
              (OnWorld (λ t. t ≡ before))
              r)
          (OnWorld (λ t. t ≡ before))
  try_code-Leads code = record {
    at = λ w h.
        (Leads-tried _
            (Leads-on_store _ (create_room-Allocated user name before code h.holds.1))).at
          w (record { holds = h.holds.0 });
  }

  create_loop-Leads :
      (attempts : ℕ)
      → Leads
          (OnWorld {H = H} (λ t. t ≡ before))
          (create_loop attempts user name)
          (λ r. OnWorld (Allocated user name before r))
          (OnWorld (λ t. t ≡ before))
  unfolding create_loop raise
  create_loop-Leads zero = record { at = λ w h. h }
  create_loop-Leads (suc k) =
      Leads->>= _ _ (Leads-on_store _ (code-Leads (λ t. t ≡ before))) λ code.
        Leads->>= _ _ (try_code-Leads code) λ r. Leads-retry r _ (λ w h. h) (create_loop-Leads k)

module _ {H : Type 0} where
  -- Create leads to a new room with a code of six digits that no open room had, the caller as its
  -- owner, in the room's row and with the one new membership, and all other rows as they were. When
  -- Create fails, at whichever query, draw or attempt, the tables are as they were.
  pub create-Allocated :
      (user : ℕ) (name : Option Text) (w : World H)
      → Outcome
          (λ r. OnWorld (Allocated user name w.session.db r))
          (OnWorld (λ t. t ≡ w.session.db))
          (Membership.create user name w).0
          (Membership.create user name w).1
  unfolding Membership.create
  create-Allocated user name w =
      (create_loop-Leads user name w.session.db 8).at w (record { holds = refl })
