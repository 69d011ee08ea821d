-- ===== src/Rooms/Store/Chat.antt =====
-- The methods of internal/rooms/store.go on `messages`.
use convoy_backend.Base.{
  true, false, [], Bool, ◌∷◌, ℕ, ◌&&◌, ◌||◌, ◌==◌, ltb, leb, take, ◌++◌, List, Option, none, some,
  if◌then◌else◌,
}
use convoy_backend.Base.Rows.{first_where, exists_where, where_rows, order_by}
use convoy_backend.Text.{Text}
use convoy_backend.Httpx.{unique_violation, foreign_key_violation}
use convoy_backend.Exec.{Result, ok, err, Exec}
use convoy_backend.Schema.{Db, UserRow, MessageRow}
use convoy_backend.Schema.Query.{Session, read, write}
use convoy_backend.Rooms.Types.{Message}
use convoy_backend.Rooms.Store.Rows.{user_of, room_exists}

abbrev message_of : MessageRow → UserRow → Message
message_of m u = record {
  id = m.id;
  room_id = m.room_id;
  user_id = m.user_id;
  display_name = u.display_name;
  avatar_url = u.avatar_url;
  body = m.body;
  created_at = m.created_at;
}

abbrev pub inserted : Db → MessageRow → Option UserRow → Result (Message × Db)
inserted db m none = err foreign_key_violation
inserted db m (some u) = ok (message_of m u, record db { messages = db.messages ++ m ∷ [] })

abbrev pub new_message : ℕ → ℕ → Text → ℕ → ℕ → MessageRow
new_message room user body now id = record {
  id = id;
  room_id = room;
  user_id = user;
  body = body;
  created_at = now;
}

-- The foreign key on the author is what finds the author's row for the join.
unfoldable pub create_message_rows : ℕ → ℕ → Text → ℕ → ℕ → Db → Result (Message × Db)
create_message_rows room user body now id db =
    if exists_where (λ (m : MessageRow). m.id == id) db.messages
    then err unique_violation
    else if room_exists db room
    then inserted db (new_message room user body now id) (user_of db user)
    else err foreign_key_violation

unfoldable pub create_message : ℕ → ℕ → Text → Exec Session Message
create_message room user body = write (create_message_rows room user body)

-- (a.created_at, a.id) < (b.created_at, b.id)
abbrev pub older : MessageRow → MessageRow → Bool
older a b = ltb a.created_at b.created_at || (a.created_at == b.created_at && ltb a.id b.id)

-- ORDER BY created_at DESC, id DESC
abbrev pub newer_first : MessageRow → MessageRow → Bool
newer_first a b = ltb b.created_at a.created_at || (a.created_at == b.created_at && leb b.id a.id)

-- `$2::uuid IS NULL OR (created_at, id) < (SELECT created_at, id ... WHERE id = $2)`; a comparison
-- with the row of an unknown id is NULL, which is not true
abbrev pub before_row : Option MessageRow → MessageRow → Bool
before_row none m = false
before_row (some c) m = older m c

abbrev before_cursor : Db → Option ℕ → MessageRow → Bool
before_cursor db none m = true
before_cursor db (some id) m =
    before_row (first_where (λ (c : MessageRow). c.id == id) db.messages) m

abbrev on_page : Db → ℕ → Option ℕ → MessageRow → Bool
on_page db room before m = m.room_id == room && before_cursor db before m

-- JOIN users u ON u.id = m.user_id
unfoldable pub join_authors : Db → List MessageRow → List Message
join_authors db [] = []
join_authors db (m ∷ ms) =
    let rest = join_authors db ms in
    elim (user_of db m.user_id) [ none ↦ rest | some u ↦ message_of m u ∷ rest ]

abbrev pub history : Db → ℕ → Option ℕ → List MessageRow
history db room before = order_by newer_first (where_rows (on_page db room before) db.messages)

unfoldable pub list_messages : ℕ → Option ℕ → ℕ → Exec Session (List Message)
list_messages room before limit =
    read λ db. ok (take limit (join_authors db (history db room before)))
