-- ===== src/Feedback/Store.antt =====
-- internal/feedback/store.go
use convoy_backend.Base.{
  ◌++◌, ◌||◌, ◌||◌, take, ◌++◌, none, some, ◌==◌, map, ◌==◌, ltb, ◌∷◌, if◌then◌else◌, leb, length,
  List, if◌then◌else◌, [], true, some, ℕ, Bool, Option,
}
use convoy_backend.Text.{Text}
use convoy_backend.Text.Cut.{Cut, column}
use convoy_backend.Httpx.{unique_violation, foreign_key_violation}
use convoy_backend.Exec.{Result, ok, err, Exec}
use convoy_backend.Schema.{Db, FeedbackRow, UserRow}
use convoy_backend.Schema.Query.{Session, read, write}
use convoy_backend.Base.Rows.{exists_where, where_rows, order_by}
use convoy_backend.Base.Int.{ℤ, pos, negsuc}
use convoy_backend.Rooms.Store.Rows.{user_exists, user_of}

pub record Entry : Type 0 where
  pub id : ℕ
  pub user_id : Option ℕ
  pub author_name : Text
  pub message : Text
  pub created_at : ℕ

-- COALESCE(u.display_name, '')
abbrev pub author_of : Option UserRow → Text
author_of none = []
author_of (some u) = u.display_name

-- LEFT JOIN users u ON u.id = f.user_id
abbrev pub joined_user : Db → Option ℕ → Option UserRow
joined_user db none = none
joined_user db (some u) = user_of db u

abbrev pub entry_of : Db → FeedbackRow → Entry
entry_of db f = record {
  id = f.id;
  user_id = f.user_id;
  author_name = author_of (joined_user db f.user_id);
  message = f.message;
  created_at = f.created_at;
}

abbrev pub new_feedback : ℕ → Text → ℕ → ℕ → FeedbackRow
new_feedback user message now id = record {
  id = id;
  user_id = some user;
  message = message;
  created_at = now;
}

abbrev pub insert_message : ℕ → ℕ → ℕ → Db → Result Text → Result (Entry × Db)
insert_message user now id db (err e) = err e
insert_message user now id db (ok message) =
    if exists_where (λ (f : FeedbackRow). f.id == id) db.feedback
    then err unique_violation
    else if user_exists db user
    then ok (
      entry_of db (new_feedback user message now id),
      record db { feedback = db.feedback ++ new_feedback user message now id ∷ [] },
    )
    else err foreign_key_violation

-- WITH inserted AS (INSERT ...) SELECT ...
unfoldable pub create_rows : ℕ → Cut → ℕ → ℕ → Db → Result (Entry × Db)
create_rows user message now id db = insert_message user now id db (column message)

unfoldable pub create : ℕ → Cut → Exec Session Entry
create user message = write (create_rows user message)

-- `if limit <= 0 || limit > 200 { limit = 50 }`
abbrev pub page_limit : ℤ → ℕ
page_limit (negsuc n) = 50
page_limit (pos n) = if n == 0 || ltb 200 n then 50 else n

-- WHERE f.created_at < $1, if there is a cursor
abbrev pub older_than : Option ℕ → FeedbackRow → Bool
older_than none f = true
older_than (some t) f = ltb f.created_at t

-- ORDER BY f.created_at DESC
abbrev pub newest_first : FeedbackRow → FeedbackRow → Bool
newest_first f g = leb g.created_at f.created_at

-- the cursor is a time, as PostgreSQL reads its text, or none for nil and the empty text
unfoldable pub list : ℤ → Option ℕ → Exec Session (List Entry)
list limit before = read λ db. ok (
    map (entry_of db) (
      take (page_limit limit) (order_by newest_first (where_rows (older_than before) db.feedback))))

unfoldable pub count : Exec Session ℕ
count = read λ db. ok (length db.feedback)
