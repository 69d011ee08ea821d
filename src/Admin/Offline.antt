-- ===== src/Admin/Offline.antt =====
-- Taking an account offline and back (internal/admin/users.go).
use convoy_backend.Auth.Users.{live_user}
use convoy_backend.Base.{
  and-true, some, List, Bool, if◌then◌else◌, if◌then◌else◌, ◌∙◌, ◌∙◌, refl, ap, ◌+◌, Bool-cases,
  ◌↔◌, sym, ◌+◌, inr, false, true, none, subst, inl, ◌==◌, ◌≡◌, ◌==◌, ◌≡◌, In, ℕ,
}
use convoy_backend.Base.Rows.{update_where-clears, In-update_where, update_where-kept}
use convoy_backend.Exec.{pure, Result, attempt, ok, ◌>>=◌}
use convoy_backend.Exec.Leads.{Leads}
use convoy_backend.Schema.{Db, UserRow, RoomRow, MemberRow}
use convoy_backend.Schema.Query.{OnDb, Session, change, write}
use convoy_backend.Schema.Leads.{Leads-write}
use convoy_backend.Auth.Deletion.{end_owned, stamp_deleted, is_open_owned, is_present_member}
use convoy_backend.Auth.Closing.{and-false, erased-Closed, Closed}
use convoy_backend.Admin.Users.{
  to_user, http_error, UserPage, user_soft_delete, soft_delete, restore_rows,
}

-- The account is refused, while nothing else but rooms has changed: the memberships go on.
pub record LockedOut (user : ℕ) (before after : Db) : Type 0 where
  pub refused : (u : UserRow) → In u after.users → live_user user u ≡ false
  pub other_users : (u : UserRow) → (u.id == user) ≡ false → In u before.users ↔ In u after.users
  pub rest : after ≡ record before { users = after.users; rooms = after.rooms }

-- The user's rooms are ended, and the others are as they were.
pub record RoomsEnded (user : ℕ) (before after : Db) : Type 0 where
  pub ended : (r : RoomRow) → In r after.rooms → is_open_owned user r ≡ false
  pub other_rooms :
      (r : RoomRow) → (r.owner_id == user) ≡ false → In r before.rooms ↔ In r after.rooms

module _ (user t1 t2 : ℕ) (before : Db) where
  stamped-LockedOut :
      (rooms : List RoomRow)
      → LockedOut user before (record (stamp_deleted user t1 before) { rooms = rooms })
  unfolding stamp_deleted
  stamped-LockedOut rooms = record {
    refused = λ u i.
        update_where-clears (live_user user) (λ v. record v { deleted_at = some t1 }) before.users u
          (λ v. and-false (v.id == user)) i;
    other_users = λ u n.
        update_where-kept (λ (v : UserRow). v.id == user) (live_user user)
          (λ v. record v { deleted_at = some t1 }) before.users u
          (λ v h. (and-true (v.id == user) _ h).0) (λ v. refl) n;
    rest = refl;
  }

  end_owned-RoomsEnded : RoomsEnded user before (end_owned user t2 (stamp_deleted user t1 before))
  unfolding stamp_deleted end_owned
  end_owned-RoomsEnded = record {
    ended = λ r i.
        update_where-clears (is_open_owned user) (λ v. record v { ended_at = some t2 }) before.rooms
          r (λ v. and-false (v.owner_id == user)) i;
    other_rooms = λ r n.
        update_where-kept (λ (v : RoomRow). v.owner_id == user) (is_open_owned user)
          (λ v. record v { ended_at = some t2 }) before.rooms r
          (λ v h. (and-true (v.owner_id == user) _ h).0) (λ v. refl) n;
  }

-- What the page answers and leaves, by whether the first, the second and the third statement lose the
-- connection.
abbrev pub SoftDeleted : ℕ → Db → Bool → Bool → Bool → Result UserPage × Session → Type 0
SoftDeleted user before true second third (r, s) = (r ≡ ok (http_error 500)) × (s.db ≡ before)
SoftDeleted user before false true third (r, s) =
    (r ≡ ok (http_error 500)) × LockedOut user before s.db × (s.db.rooms ≡ before.rooms)
SoftDeleted user before false false true (r, s) =
    (r ≡ ok (http_error 500)) × LockedOut user before s.db × RoomsEnded user before s.db
SoftDeleted user before false false false (r, s) = (r ≡ ok (to_user user)) × Closed user before s.db

-- The administrator's soft delete, when its three statements run, closes an account as the user's own
-- deletion does. It is no transaction: when it answers 500, the tables are as they were, if the first
-- statement failed; otherwise the account is refused already, while its memberships go on, and its
-- rooms go on too, if the second failed, or are ended, if the third did. Other accounts, and the rooms
-- of others, stay.
pub user_soft_delete-SoftDeleted :
    (user : ℕ) (s : Session)
    → SoftDeleted user s.db
        (s.env.fails s.queries)
        (s.env.fails (s.queries + 1))
        (s.env.fails (s.queries + 1 + 1))
        (user_soft_delete (some user) s)
unfolding user_soft_delete soft_delete write attempt pure ◌>>=◌ stamp_deleted end_owned
user_soft_delete-SoftDeleted user s =
    let t1 = s.env.now s.queries in
    let t2 = s.env.now (s.queries + 1) in
    elim (Bool-cases (s.env.fails s.queries)) [
      | inl e ↦ rw e (refl, refl)
      | inr e ↦ elim (Bool-cases (s.env.fails (s.queries + 1))) [
        | inl f ↦ rw (e, f) (refl, stamped-LockedOut user t1 t2 s.db s.db.rooms, refl)
        | inr f ↦ elim (Bool-cases (s.env.fails (s.queries + 1 + 1))) [
          | inl g ↦
              rw (e, f, g)
                (refl, stamped-LockedOut user t1 t2 s.db _, end_owned-RoomsEnded user t1 t2 s.db)
          | inr g ↦
              rw (e, f, g) (refl, erased-Closed user t1 t2 (s.env.now (s.queries + 1 + 1)) s.db)
        ]
      ]
    ]

-- The account is live again; all else is as before.
pub record Restored (user : ℕ) (before after : Db) : Type 0 where
  pub live : (u : UserRow) → In u after.users → (u.id == user) ≡ true → u.deleted_at ≡ none
  pub other_users : (u : UserRow) → (u.id == user) ≡ false → In u before.users ↔ In u after.users
  pub rest : after ≡ record before { users = after.users }

restore_rows-Restored : (user : ℕ) (before : Db) → Restored user before (restore_rows user before)
unfolding restore_rows
restore_rows-Restored user before = record {
  live = λ u i own.
      let (x, ix, e) =
        In-update_where (λ (v : UserRow). v.id == user) (λ v. record v { deleted_at = none })
          before.users u i in
      elim (Bool-cases (x.id == user)) [
        | inl y ↦
            ap (λ (v : UserRow). v.deleted_at)
              (e ∙ ap (λ b. if b then record x { deleted_at = none } else x) y)
        | inr n ↦
            let same : u ≡ x = e ∙ ap (λ b. if b then record x { deleted_at = none } else x) n in
            absurd
              (let c : true ≡ false = sym own ∙ ap (λ (v : UserRow). v.id == user) same ∙ n in cc c)
      ];
  other_users = λ u n.
      update_where-kept (λ (v : UserRow). v.id == user) (λ v. v.id == user)
        (λ v. record v { deleted_at = none }) before.users u (λ x h. h) (λ x. refl) n;
  rest = refl;
}

-- The account is live again, and what the deletion ended stays ended.
pub record Reinstated (user : ℕ) (before after : Db) : Type 0 where
  pub live : (u : UserRow) → In u after.users → (u.id == user) ≡ true → u.deleted_at ≡ none
  pub rooms_ended : (r : RoomRow) → In r after.rooms → is_open_owned user r ≡ false
  pub memberships_ended :
      (m : MemberRow) → In m after.room_members → is_present_member user m ≡ false

-- A restore after a soft delete brings back the account alone: its user can sign in again, but every
-- room that it owned stays ended and every membership stays ended. When the restore fails, the
-- account stays closed.
pub restore-Reinstated :
    (user : ℕ) (before closed : Db)
    → Closed user before closed
    → Leads
        (OnDb (λ t. t ≡ closed))
        (change (λ now db. restore_rows user db))
        (λ _. OnDb (Reinstated user before))
        (OnDb (Closed user before))
restore-Reinstated user before closed h =
    Leads-write (λ now _ db. ok (tt, restore_rows user db))
      (λ db e. subst (Closed user before) (sym e) h)
      (λ now id db e. rw e (
        let r = restore_rows-Restored user closed in
        record {
          live = r.live;
          rooms_ended =
              subst (λ t. (x : RoomRow) → In x t → is_open_owned user x ≡ false)
                (sym (ap (λ (t : Db). t.rooms) r.rest)) h.rooms_ended;
          memberships_ended =
              subst (λ t. (x : MemberRow) → In x t → is_present_member user x ≡ false)
                (sym (ap (λ (t : Db). t.room_members) r.rest)) h.memberships_ended;
        }))
