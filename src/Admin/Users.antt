-- ===== src/Admin/Users.antt =====
-- internal/admin/users.go. `ILIKE` is a parameter; the order of a user's providers is left open, as
-- that in which they stand.
use convoy_backend.Rooms.Store.Rows.{user_exists, has_room_id}
use convoy_backend.Base.{
  ◌++◌, ◌++◌, ◌&&◌, true, take, ◌&&◌, ◌==◌, ◌||◌, if◌then◌else◌, not, ◌||◌, if◌then◌else◌, map,
  false, ◌==◌, [], ◌∷◌, leb, ℕ, Bool, none, length, List, Option, some,
}
use convoy_backend.Text.{Text, runes, trim_space, is_empty, same_text}
use convoy_backend.Httpx.{no_rows, foreign_key_violation}
use convoy_backend.Exec.{Result, ok, err, Exec, attempt, pure, ◌>>=◌, ◌>>◌}
use convoy_backend.Schema.{
  Db, UserRow, RoomRow, MemberRow, MarkerRow, StopRow, MessageRow, IdentityRow, FeedbackRow,
  TokenRow,
}
use convoy_backend.Schema.Query.{Session, read, write, change}
use convoy_backend.Base.Rows.{
  first_where, exists_where, where_rows, update_where, delete_where, order_by,
}
use convoy_backend.Auth.Deletion.{
  stamp_deleted, end_owned, kick_everywhere, is_open_owned, is_present_member,
}

-- userRow
pub record AdminUser : Type 0 where
  pub id : ℕ
  pub display_name : Text
  pub email : Text
  pub avatar_url : Text
  pub created_at : ℕ
  pub deleted_at : Option ℕ
  pub providers : List Text
  pub active_rooms : ℕ
  pub joined_rooms : ℕ

-- identity
pub record AdminIdentity : Type 0 where
  pub provider : Text
  pub subject : Text
  pub email : Text
  pub created_at : ℕ

-- COALESCE(..., '')
abbrev pub or_empty : Option Text → Text
or_empty none = []
or_empty (some t) = t

abbrev pub listed : List Text → Text → Bool
listed [] p = false
listed (q ∷ ps) p = same_text q p || listed ps p

-- array_agg(DISTINCT provider)
abbrev pub distinct : List IdentityRow → List Text
distinct [] = []
distinct (i ∷ rows) =
    let rest = distinct rows in if listed rest i.provider then rest else i.provider ∷ rest

abbrev pub identities_of : Db → ℕ → List IdentityRow
identities_of db user = where_rows (λ (i : IdentityRow). i.user_id == user) db.user_identities

abbrev pub admin_user : Db → UserRow → AdminUser
admin_user db u = record {
  id = u.id;
  display_name = u.display_name;
  email = or_empty u.email;
  avatar_url = or_empty u.avatar_url;
  created_at = u.created_at;
  deleted_at = u.deleted_at;
  providers = distinct (identities_of db u.id);
  active_rooms = length (where_rows (is_open_owned u.id) db.rooms);
  joined_rooms = length (where_rows (is_present_member u.id) db.room_members);
}

abbrev pub ilike_any : (Text → Text → Bool) → Text → UserRow → Bool
ilike_any ilike pattern u =
    ilike pattern u.display_name || elim u.email [ none ↦ false | some e ↦ ilike pattern e ]

abbrev pub percent : Text
percent = runes "%"

-- WHERE ... ILIKE, only if there is a query
abbrev pub matches_query : (Text → Text → Bool) → Text → UserRow → Bool
matches_query ilike q u = if is_empty q then true else ilike_any ilike (percent ++ q ++ percent) u

-- ORDER BY u.created_at DESC
abbrev pub newest_user : UserRow → UserRow → Bool
newest_user u v = leb v.created_at u.created_at

unfoldable pub query_users : (Text → Text → Bool) → Text → ℕ → Exec Session (List AdminUser)
query_users ilike q limit = read λ db. ok (
    map (admin_user db)
      (take limit (order_by newest_user (where_rows (matches_query ilike q) db.users))))

abbrev pub one_user : Db → Option UserRow → Result AdminUser
one_user db none = err no_rows
one_user db (some u) = ok (admin_user db u)

abbrev pub admin_identity : IdentityRow → AdminIdentity
admin_identity i = record {
  provider = i.provider;
  subject = i.subject;
  email = or_empty i.email;
  created_at = i.created_at;
}

-- ORDER BY created_at ASC
abbrev pub oldest_identity : IdentityRow → IdentityRow → Bool
oldest_identity i j = leb i.created_at j.created_at

unfoldable pub fetch_user : ℕ → Exec Session (AdminUser × List AdminIdentity)
fetch_user id = do
  u ← read λ db. one_user db (first_where (λ (v : UserRow). v.id == id) db.users)
  ids ← read λ db. ok (map admin_identity (order_by oldest_identity (identities_of db id)))
  pure (u, ids)

-- what a page over users answers
pub data UserPage : Type 0 where
  users_page : Text → List AdminUser → UserPage
  detail_page : AdminUser → List AdminIdentity → UserPage
  not_found : UserPage
  http_error : ℕ → UserPage
  to_users : Bool → UserPage  -- by HX-Redirect, or as a redirect
  to_user : ℕ → UserPage

abbrev pub users_answer : Text → Result (List AdminUser) → UserPage
users_answer q (ok rows) = users_page q rows
users_answer q (err e) = http_error 500

-- usersList, of the parameter q
unfoldable pub users_list : (Text → Text → Bool) → Text → Exec Session UserPage
users_list ilike q = do
  r ← attempt (query_users ilike (trim_space q) 200)
  pure (users_answer (trim_space q) r)

abbrev pub detail_answer : Result (AdminUser × List AdminIdentity) → UserPage
detail_answer (ok (u, ids)) = detail_page u ids
detail_answer (err no_rows) = not_found
detail_answer (err e) = http_error 500

-- uuid.Parse of the parameter id
abbrev pub with_user : Option ℕ → (ℕ → Exec Session UserPage) → Exec Session UserPage
with_user none next = pure (http_error 400)
with_user (some id) next = next id

unfoldable pub user_detail : Option ℕ → Exec Session UserPage
user_detail id = with_user id λ user. do r ← attempt (fetch_user user); pure (detail_answer r)

abbrev pub page_after : UserPage → Result (Unit {0}) → UserPage
page_after page (ok u) = page
page_after page (err e) = http_error 500

-- the three statements, each of its own
unfoldable pub soft_delete : ℕ → Exec Session (Unit {0})
soft_delete user = do
  change (λ now db. stamp_deleted user now db)
  change (λ now db. end_owned user now db)
  change (λ now db. kick_everywhere user now db)

unfoldable pub user_soft_delete : Option ℕ → Exec Session UserPage
user_soft_delete id =
    with_user id λ user. do r ← attempt (soft_delete user); pure (page_after (to_user user) r)

-- UPDATE users SET deleted_at = NULL WHERE id = $1
unfoldable pub restore_rows : ℕ → Db → Db
restore_rows user db = record db {
  users =
      update_where (λ (u : UserRow). u.id == user) (λ u. record u { deleted_at = none }) db.users;
}

unfoldable pub user_restore : Option ℕ → Exec Session UserPage
user_restore id = with_user id λ user. do
  r ← attempt (change (λ now db. restore_rows user db))
  pure (page_after (to_user user) r)

abbrev pub is_owned_by : ℕ → RoomRow → Bool
is_owned_by user r = r.owner_id == user

-- a room that goes with its owner
abbrev pub goes : ℕ → Db → ℕ → Bool
goes user db room = exists_where (λ r. has_room_id room r && is_owned_by user r) db.rooms

abbrev pub set_destination_by : ℕ → RoomRow → Bool
set_destination_by user r = elim r.dest_set_by [ none ↦ false | some u ↦ u == user ]

-- rooms.dest_set_by and room_stops.created_by do not cascade. The checks run in the order of the
-- migrations, once the owner's rooms are gone and before what refers to these rooms follows them: the
-- destination of an own room is no obstacle, a stop in one is.
abbrev pub holds_back : ℕ → Db → Bool
holds_back user db =
    exists_where (λ r. not (is_owned_by user r) && set_destination_by user r) db.rooms
    || exists_where (λ (t : StopRow). t.created_by == user) db.room_stops

abbrev pub anonymous : FeedbackRow → FeedbackRow
anonymous f = record f { user_id = none }

abbrev pub wrote : ℕ → FeedbackRow → Bool
wrote user f = elim f.user_id [ none ↦ false | some u ↦ u == user ]

-- DELETE FROM users WHERE id = $1, with the foreign keys of the migrations
unfoldable pub hard_delete_rows : ℕ → Db → Result (Unit {0} × Db)
hard_delete_rows user db =
    if user_exists db user && holds_back user db
    then err foreign_key_violation
    else if user_exists db user
    then ok (
      tt,
      record db {
        users = delete_where (λ (u : UserRow). u.id == user) db.users;
        user_identities = delete_where (λ (i : IdentityRow). i.user_id == user) db.user_identities;
        feedback = update_where (wrote user) anonymous db.feedback;
        push_tokens = delete_where (λ (t : TokenRow). t.user_id == user) db.push_tokens;
        rooms = delete_where (is_owned_by user) db.rooms;
        room_members =
            delete_where (λ (m : MemberRow). m.user_id == user || goes user db m.room_id)
              db.room_members;
        personal_markers =
            delete_where (λ (m : MarkerRow). m.user_id == user || goes user db m.room_id)
              db.personal_markers;
        room_stops = delete_where (λ (t : StopRow). goes user db t.room_id) db.room_stops;
        messages =
            delete_where (λ (m : MessageRow). m.user_id == user || goes user db m.room_id)
              db.messages;
      },
    )
    else ok (tt, db)

unfoldable pub user_hard_delete : Option ℕ → Bool → Exec Session UserPage
user_hard_delete id is_htmx = with_user id λ user. do
  r ← attempt (write (λ now _ db. hard_delete_rows user db))
  pure (page_after (to_users is_htmx) r)
