-- ===== src/Auth/Closing.antt =====
-- What HandleDeleteAccount (internal/auth/auth.go) leaves of an account.
use convoy_backend.Httpx.{connection_lost, err_unauthorized}
use convoy_backend.Text.{Text}
use convoy_backend.Auth.Tokens.{issue, Signer}
use convoy_backend.Auth.Session.{Documented, authenticate-issue}
use convoy_backend.Exec.{err, ok}
use convoy_backend.Base.{
  ◌+◌, ◌+◌, ltb, Bool-cases, ◌⊎◌, ◌⊎◌, ◌++◌, ◌++◌, [], ◌∷◌, inr, inl, ◌∷◌, some, none, List, sym,
  refl, subst, ◌↔◌, and-true, ◌==◌, ap, true, false, ◌==◌, ◌&&◌, some, In, ◌&&◌, Bool, ◌≡◌, ℕ,
}
use convoy_backend.Base.Rows.{first_where, update_where-clears, update_where-kept}
use convoy_backend.Exec.Leads.{Leads, Leads->>=, Leads-given}
use convoy_backend.Schema.{Db, UserRow, RoomRow, MemberRow}
use convoy_backend.Schema.Query.{Session, read, OnDb}
use convoy_backend.Schema.Leads.{Leads-write, Leads-transaction, Anything}
use convoy_backend.Rooms.Ownership.Tables.{Owned, update_rooms-IsOwned, update_members-IsOwned}
use convoy_backend.Auth.Users.{bearer, authenticate, load_user, Account, live_user}
use convoy_backend.Auth.Deletion.{
  stamp_deleted, is_open_owned, end_owned, is_present_member, kick_everywhere, erase,
  delete_account,
}

-- The account is gone, its rooms are closed and its memberships ended; what belongs to others stays.
pub record Closed (user : ℕ) (before after : Db) : Type 0 where
  pub refused : (u : UserRow) → In u after.users → live_user user u ≡ false
  pub rooms_ended : (r : RoomRow) → In r after.rooms → is_open_owned user r ≡ false
  pub memberships_ended :
      (m : MemberRow) → In m after.room_members → is_present_member user m ≡ false
  pub other_users : (u : UserRow) → (u.id == user) ≡ false → In u before.users ↔ In u after.users
  pub other_rooms :
      (r : RoomRow) → (r.owner_id == user) ≡ false → In r before.rooms ↔ In r after.rooms
  pub other_members :
      (m : MemberRow)
      → (m.user_id == user) ≡ false
      → In m before.room_members ↔ In m after.room_members
  pub rest : after ≡ record before {
    users = after.users;
    rooms = after.rooms;
    room_members = after.room_members;
  }
  pub owned : Owned before → Owned after

pub and-false : (b : Bool) → (b && false) ≡ false
and-false true = refl
and-false false = refl

module _ (user t1 t2 t3 : ℕ) (before : Db) where
  abbrev erased : Db
  erased = kick_everywhere user t3 (end_owned user t2 (stamp_deleted user t1 before))

  erased-Owned : Owned before → Owned erased
  unfolding stamp_deleted end_owned kick_everywhere
  erased-Owned h =
      update_members-IsOwned _ _
        (update_rooms-IsOwned _ _ h (is_open_owned user) (λ r. record r { ended_at = some t2 })
          (λ r. (refl, refl)))
        (is_present_member user) (λ m. record m { kicked = true; left_at = some t3 })
        (λ m. (refl, refl, refl))

  pub erased-Closed : Closed user before erased
  unfolding stamp_deleted end_owned kick_everywhere
  erased-Closed = record {
    refused = λ u i.
        update_where-clears (live_user user) (λ v. record v { deleted_at = some t1 }) before.users u
          (λ v. and-false (v.id == user)) i;
    rooms_ended = λ r i.
        update_where-clears (is_open_owned user) (λ v. record v { ended_at = some t2 }) before.rooms
          r (λ v. and-false (v.owner_id == user)) i;
    memberships_ended = λ m i.
        update_where-clears (is_present_member user)
          (λ v. record v { kicked = true; left_at = some t3 }) before.room_members m
          (λ v. and-false (v.user_id == user)) i;
    other_users = λ u n.
        update_where-kept (λ (v : UserRow). v.id == user) (live_user user)
          (λ v. record v { deleted_at = some t1 }) before.users u
          (λ v h. (and-true (v.id == user) _ h).0) (λ v. refl) n;
    other_rooms = λ r n.
        update_where-kept (λ (v : RoomRow). v.owner_id == user) (is_open_owned user)
          (λ v. record v { ended_at = some t2 }) before.rooms r
          (λ v h. (and-true (v.owner_id == user) _ h).0) (λ v. refl) n;
    other_members = λ m n.
        update_where-kept (λ (v : MemberRow). v.user_id == user) (is_present_member user)
          (λ v. record v { kicked = true; left_at = some t3 }) before.room_members m
          (λ v h. (and-true (v.user_id == user) _ h).0) (λ v. refl) n;
    rest = refl;
    owned = erased-Owned;
  }

-- after the first statement, and after the second
abbrev pub Stamped : ℕ → Db → Db → Type 0
Stamped user before db = (t : ℕ) × (db ≡ stamp_deleted user t before)

abbrev pub Ended : ℕ → Db → Db → Type 0
Ended user before db = (t1 : ℕ) × (t2 : ℕ) × (db ≡ end_owned user t2 (stamp_deleted user t1 before))

module _ (user : ℕ) (before : Db) (E : Db → Type 0) (unchanged : (db : Db) → db ≡ before → E db)
    (stamped : (db : Db) → Stamped user before db → E db)
    (ended : (db : Db) → Ended user before db → E db) where
  -- the three statements one after another, where a failure leaves `E`
  pub erase-Closed :
      Leads (OnDb (λ t. t ≡ before)) (erase user) (λ _. OnDb (Closed user before)) (OnDb E)
  unfolding erase
  erase-Closed =
      Leads->>= _ _
        (Leads-write {Q = λ _. Stamped user before} (λ now _ db. ok (tt, stamp_deleted user now db))
          unchanged (λ now id db e. (now, ap (stamp_deleted user now) e)))
        λ _.
          Leads->>= _ _
            (Leads-write {Q = λ _. Ended user before} (λ now _ db. ok (tt, end_owned user now db))
              stamped (λ now id db h. (h.0, now, ap (end_owned user now) h.1)))
            λ _.
              Leads-write (λ now _ db. ok (tt, kick_everywhere user now db)) ended
                (λ now id db h.
                  subst (Closed user before) (sym (ap (kick_everywhere user now) h.2))
                    (erased-Closed user h.0 h.1 now before))

-- A deletion that succeeds leaves an account that LoadUser refuses, every room it owned ended and
-- every membership it had ended as kicked; other users' rows, rooms and memberships, and all other
-- tables, stay as they were, and the agreement of owners with roles is kept. A deletion that fails
-- changes nothing, at whichever statement it fails.
pub delete_account-Closed :
    (u : Account) (before : Db)
    → Leads
        (OnDb (λ t. t ≡ before))
        (delete_account (some u))
        (λ _. OnDb (Closed u.id before))
        (OnDb (λ t. t ≡ before))
unfolding delete_account
delete_account-Closed u before = Leads-given u _ (
    Leads-transaction (erase u.id)
      (erase-Closed u.id before Anything (λ db e. tt) (λ db e. tt) (λ db e. tt)))

none_live :
    {A : Type 0} (p : A → Bool) (xs : List A)
    → ((x : A) → In x xs → p x ≡ false)
    → first_where p xs ≡ none
none_live p [] off = refl
none_live p (x ∷ xs) off = rw (off x (inl refl)) (none_live p xs (λ y i. off y (inr i)))

-- After an account is closed, a token of it is dead, though it has not expired: a request with it
-- is answered with 401, or its one query fails.
pub Closed-refuses :
    (signer : Signer) (documented : Documented signer.jwt) (user at_time now : ℕ) (token : Text)
    (before : Db) (s : Session)
    → issue signer at_time user ≡ some token
    → Closed user before s.db
    → ((authenticate signer now (bearer ++ token) s).0 ≡ err err_unauthorized)
      ⊎ ((authenticate signer now (bearer ++ token) s).0 ≡ err connection_lost)
unfolding load_user read
Closed-refuses signer documented user at_time now token before s issued closed =
    rw (authenticate-issue signer documented user at_time token issued now s)
      (elim (Bool-cases (ltb now (at_time + signer.ttl))) [
        | inr late ↦ rw late (inl refl)
        | inl early ↦ rw early (elim (Bool-cases (s.env.fails s.queries)) [
          | inl lost ↦ rw lost (inr refl)
          | inr runs ↦ rw (runs, none_live (live_user user) s.db.users closed.refused) (inl refl)
        ])
      ])
