-- ===== src/Admin/Broadcasts.antt =====
-- internal/admin/broadcasts.go
use convoy_backend.Base.{
  none, some, ◌||◌, [], ◌++◌, ◌∷◌, ◌++◌, ◌||◌, ◌==◌, take, ◌==◌, length, some, leb, ◌∷◌, Bool, List,
  if◌then◌else◌, Option, ℕ,
}
use convoy_backend.Text.{Text, runes, trim_space, is_empty}
use convoy_backend.Text.Cut.{Cut, cut_over, column}
use convoy_backend.Httpx.{unique_violation}
use convoy_backend.Exec.{Result, ok, err, Exec, attempt, pure, ◌>>=◌}
use convoy_backend.Schema.{Db, BroadcastRow}
use convoy_backend.Schema.Query.{Session, read, write}
use convoy_backend.Base.Rows.{exists_where, order_by}
use convoy_backend.Push.Expo.{Network, SendResult, empty_result, send}
use convoy_backend.Push.Store

abbrev pub new_broadcast : Text → Text → ℕ → ℕ → ℕ → ℕ → ℕ → BroadcastRow
new_broadcast title body recipients delivered failed now id = record {
  id = id;
  title = title;
  body = body;
  sent_at = now;
  recipients = recipients;
  delivered = delivered;
  failed = failed;
}

abbrev pub append_broadcast : BroadcastRow → Db → Result (BroadcastRow × Db)
append_broadcast b db =
    if exists_where (λ (x : BroadcastRow). x.id == b.id) db.broadcasts
    then err unique_violation
    else ok (b, record db { broadcasts = db.broadcasts ++ b ∷ [] })

abbrev pub insert_texts :
    ℕ → ℕ → ℕ → ℕ → ℕ → Db → Result Text → Result Text → Result (BroadcastRow × Db)
insert_texts recipients delivered failed now id db (ok title) (ok body) =
    append_broadcast (new_broadcast title body recipients delivered failed now id) db
insert_texts recipients delivered failed now id db (ok title) (err e) = err e
insert_texts recipients delivered failed now id db (err e) r = err e

-- INSERT INTO broadcasts
unfoldable pub insert_rows : Cut → Cut → ℕ → ℕ → ℕ → ℕ → ℕ → Db → Result (BroadcastRow × Db)
insert_rows title body recipients delivered failed now id db =
    insert_texts recipients delivered failed now id db (column title) (column body)

unfoldable pub insert : Cut → Cut → ℕ → ℕ → ℕ → Exec Session BroadcastRow
insert title body recipients delivered failed =
    write (insert_rows title body recipients delivered failed)

-- ORDER BY sent_at DESC
abbrev pub newest_broadcast : BroadcastRow → BroadcastRow → Bool
newest_broadcast a b = leb b.sent_at a.sent_at

unfoldable pub list : ℕ → Exec Session (List BroadcastRow)
list limit = read λ db. ok (take limit (order_by newest_broadcast db.broadcasts))

unfoldable pub count : Exec Session ℕ
count = read λ db. ok (length db.broadcasts)

-- what a page over broadcasts answers
pub data BroadcastPage : Type 0 where
  broadcasts_page : List BroadcastRow → BroadcastPage
  new_form : ℕ → BroadcastPage
  result_error : Text → BroadcastPage
  result_page : ℕ → ℕ → ℕ → ℕ → BroadcastPage
  http_error : ℕ → BroadcastPage

abbrev pub list_answer : Result (List BroadcastRow) → BroadcastPage
list_answer (ok items) = broadcasts_page items
list_answer (err e) = http_error 500

unfoldable pub broadcast_list : Exec Session BroadcastPage
broadcast_list = do r ← attempt (list 100); pure (list_answer r)

-- n, with 0 for an error that is dropped
abbrev pub or_zero : Result ℕ → ℕ
or_zero (ok n) = n
or_zero (err e) = 0

unfoldable pub broadcast_new_form : Exec Session BroadcastPage
broadcast_new_form = do r ← attempt Store.count; pure (new_form (or_zero r))

abbrev pub result_or : ℕ → SendResult → Result BroadcastRow → BroadcastPage
result_or recipients res (ok b) =
    result_page recipients res.delivered res.failed (length res.invalid_tokens)
result_or recipients res (err e) = http_error 500

-- the delivery is done: prune, record, answer; the error of the pruning is dropped
unfoldable pub record_sent : Cut → Cut → ℕ → SendResult → Exec Session BroadcastPage
record_sent title body recipients res = do
  pruned ← attempt (Store.delete_tokens res.invalid_tokens)
  stored ← attempt (insert title body recipients res.delivered res.failed)
  pure (result_or recipients res stored)

-- the result of Send, which always gives one
abbrev pub sent_result : Option SendResult → SendResult
sent_result none = empty_result
sent_result (some res) = res

abbrev pub deliver : Network → Cut → Cut → Result (List Text) → Exec Session BroadcastPage
deliver net title body (err e) = pure (http_error 500)
deliver net title body (ok []) = pure (result_error (runes "No devices registered yet."))
deliver net title body (ok (t ∷ tokens)) =
    record_sent title body (length (t ∷ tokens))
      (sent_result (send net title body (runes "broadcast") (t ∷ tokens)))

-- broadcastSend, of the form's title and body, if the form parses
unfoldable pub broadcast_send : Network → Option (Text × Text) → Exec Session BroadcastPage
unfolding record_sent
broadcast_send net none = pure (http_error 400)
broadcast_send net (some (title, body)) =
    if is_empty (trim_space title) || is_empty (trim_space body)
    then pure (result_error (runes "Title and body are required."))
    else do
      r ← attempt Store.all_tokens
      deliver net (cut_over 80 (trim_space title)) (cut_over 240 (trim_space body)) r
