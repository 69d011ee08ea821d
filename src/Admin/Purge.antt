-- ===== src/Admin/Purge.antt =====
-- What the hard delete of internal/admin/users.go removes, and what holds it back.
use convoy_backend.Base.{
  ◌||◌, ◌⊎◌, ◌||◌, ◌⊎◌, inr, ==_refl, ◌&&◌, inl, ◌&&◌, some, not, Bool-cases, ◌∷◌, [], refl, arith,
  ◌∷◌, or-false, true, ◌==◌, length, false, ◌==◌, ◌≡◌, List, ◌≡◌, In, ℕ, Bool,
}
use convoy_backend.Base.Rows.{
  update_where, exists_where-false, exists_where-In, delete_where-kept, update_where-clears,
}
use convoy_backend.Exec.{ok, attempt, pure, ◌>>=◌}
use convoy_backend.Exec.Leads.{Leads}
use convoy_backend.Schema.{
  Db, UserRow, RoomRow, MemberRow, MarkerRow, StopRow, MessageRow, IdentityRow, FeedbackRow,
  TokenRow,
}
use convoy_backend.Schema.Query.{OnDb, Session, write, counted}
use convoy_backend.Schema.Leads.{Leads-write, Reaches}
use convoy_backend.Rooms.Store.Rows.{user_exists}
use convoy_backend.Admin.Users.{
  http_error, is_owned_by, goes, set_destination_by, holds_back, wrote, anonymous, hard_delete_rows,
  user_hard_delete,
}

-- No row speaks of the user any more; other users, and the rooms of others, are as before.
pub record Purged (user : ℕ) (before after : Db) : Type 0 where
  pub no_user : (u : UserRow) → In u after.users → (u.id == user) ≡ false
  pub no_owner :
      (r : RoomRow)
      → In r after.rooms
      → (is_owned_by user r ≡ false) × (set_destination_by user r ≡ false)
  pub no_member : (m : MemberRow) → In m after.room_members → (m.user_id == user) ≡ false
  pub no_marker : (m : MarkerRow) → In m after.personal_markers → (m.user_id == user) ≡ false
  pub no_stop : (t : StopRow) → In t after.room_stops → (t.created_by == user) ≡ false
  pub no_message : (m : MessageRow) → In m after.messages → (m.user_id == user) ≡ false
  pub no_identity : (i : IdentityRow) → In i after.user_identities → (i.user_id == user) ≡ false
  pub no_token : (t : TokenRow) → In t after.push_tokens → (t.user_id == user) ≡ false
  pub no_author : (f : FeedbackRow) → In f after.feedback → wrote user f ≡ false
  pub same_feedback : length after.feedback ≡ length before.feedback
  pub other_users : (u : UserRow) → (u.id == user) ≡ false → In u before.users → In u after.users
  pub other_rooms :
      (r : RoomRow) → is_owned_by user r ≡ false → In r before.rooms → In r after.rooms
  pub other_members :
      (m : MemberRow)
      → (m.user_id == user) ≡ false
      → goes user before m.room_id ≡ false
      → In m before.room_members
      → In m after.room_members

length-update :
    {A : Type 0} (p : A → Bool) (f : A → A) (xs : List A) → length (update_where p f xs) ≡ length xs
length-update p f [] = refl
length-update p f (x ∷ xs) = omega (arith, length-update p f xs)

module _ (user : ℕ) (before : Db) (free : holds_back user before ≡ false) where
  no_destination :
      (r : RoomRow)
      → In r before.rooms
      → is_owned_by user r ≡ false
      → set_destination_by user r ≡ false
  no_destination r i o =
      let x = exists_where-false _ before.rooms r (or-false _ _ free).0 i in rw o at x

  no_stop_left : (t : StopRow) → In t before.room_stops → (t.created_by == user) ≡ false
  no_stop_left t i =
      exists_where-false (λ (y : StopRow). y.created_by == user) before.room_stops t
        (or-false _ _ free).1 i

  hard_delete-Purged :
      user_exists before user ≡ true
      → Reaches (λ _. Purged user before) (hard_delete_rows user before)
  unfolding hard_delete_rows
  hard_delete-Purged here =
      rw (here, free)
        (record {
          no_user = λ u i. ((delete_where-kept _ before.users u).0 i).1;
          no_owner = λ r i.
              let (j, o) = (delete_where-kept (is_owned_by user) before.rooms r).0 i in
              (o, no_destination r j o);
          no_member = λ m i. (or-false _ _ ((delete_where-kept _ before.room_members m).0 i).1).0;
          no_marker =
              λ m i. (or-false _ _ ((delete_where-kept _ before.personal_markers m).0 i).1).0;
          no_stop =
              λ t i. let (j, g) = (delete_where-kept _ before.room_stops t).0 i in no_stop_left t j;
          no_message = λ m i. (or-false _ _ ((delete_where-kept _ before.messages m).0 i).1).0;
          no_identity = λ x i. ((delete_where-kept _ before.user_identities x).0 i).1;
          no_token = λ t i. ((delete_where-kept _ before.push_tokens t).0 i).1;
          no_author =
              λ f i. update_where-clears (wrote user) anonymous before.feedback f (λ x. refl) i;
          same_feedback = length-update (wrote user) anonymous before.feedback;
          other_users = λ u n i. (delete_where-kept _ before.users u).1 (i, n);
          other_rooms = λ r n i. (delete_where-kept _ before.rooms r).1 (i, n);
          other_members =
              λ m n g i. (delete_where-kept _ before.room_members m).1 (i, rw (n, g) refl);
        })

-- The hard delete, when it succeeds for a user who exists, leaves no row that speaks of the user, in
-- any table, keeps every feedback entry without its author, and keeps the other users, their rooms
-- and their memberships in these. When it fails, nothing changes.
pub hard_delete-Leads :
    (user : ℕ) (before : Db)
    → user_exists before user ≡ true
    → Leads
        (OnDb (λ t. t ≡ before))
        (write (λ now _ db. hard_delete_rows user db))
        (λ _. OnDb (Purged user before))
        (OnDb (λ t. t ≡ before))
unfolding hard_delete_rows
hard_delete-Leads user before here =
    Leads-write (λ now _ db. hard_delete_rows user db) (λ db e. e)
      λ now id db e. rw e (elim (Bool-cases (holds_back user before)) [
        | inl h ↦ rw (here, h) tt
        | inr h ↦ hard_delete-Purged user before h here
      ])

-- what the user left in the tables and no cascade takes along
abbrev pub Obstructed : ℕ → Db → Type 0
Obstructed user db =
    ((r : RoomRow) × In r db.rooms × (is_owned_by user r ≡ false) × (r.dest_set_by ≡ some user))
    ⊎ ((t : StopRow) × In t db.room_stops × (t.created_by ≡ user))

Obstructed-holds_back : (user : ℕ) (db : Db) → Obstructed user db → holds_back user db ≡ true
Obstructed-holds_back user db (inl (r, i, other, set)) =
    rw
      (exists_where-In (λ x. not (is_owned_by user x) && set_destination_by user x) db.rooms r i
        (rw (other, set, ==_refl user) refl))
      refl
Obstructed-holds_back user db (inr (t, i, own)) =
    rw
      (exists_where-In (λ (x : StopRow). x.created_by == user) db.room_stops t i
        (rw (own, ==_refl user) refl))
      (or-true _)
  where
    or-true : (b : Bool) → (b || true) ≡ true
    or-true true = refl
    or-true false = refl

-- A user who set the destination of a room that now belongs to somebody else, or who added a stop to
-- any room, also to an own one, cannot be purged: these foreign keys do not cascade, the page answers
-- 500, and nothing is removed.
pub user_hard_delete-holds_back :
    (user : ℕ) (is_htmx : Bool) (s : Session)
    → user_exists s.db user ≡ true
    → Obstructed user s.db
    → s.env.fails s.queries ≡ false
    → user_hard_delete (some user) is_htmx s ≡ (ok (http_error 500), counted s)
unfolding user_hard_delete hard_delete_rows write attempt pure ◌>>=◌
user_hard_delete-holds_back user is_htmx s here held runs =
    rw (runs, here, Obstructed-holds_back user s.db held) refl
