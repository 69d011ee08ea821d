-- ===== src/Rooms/Handlers/Chat.antt =====
-- The chat handlers of internal/rooms/handlers.go.
use convoy_backend.Base.{ℕ, Option, none, some}
use convoy_backend.Base.Int.{ℤ, pos}
use convoy_backend.Text.{Text}
use convoy_backend.Httpx.{err_bad_request}
use convoy_backend.Rooms.Service.Core.{Service}
use convoy_backend.Rooms.Service.Chat
use convoy_backend.Rooms.Handlers.{
  User, Decoded, Handler, json, message, messages, status_ok, status_created, fail, answer, with_id,
  with_body,
}

-- the query parameter `before`: missing or empty, a UUID, or other text
pub data Cursor : Type 0 where
  absent : Cursor
  at : ℕ → Cursor
  malformed : Cursor

abbrev pub with_cursor : {H : Type 0} → Cursor → (Option ℕ → Handler H) → Handler H
with_cursor absent k = k none
with_cursor (at id) k = k (some id)
with_cursor malformed k = fail err_bad_request

-- the query parameter `limit`, by strconv.Atoi: 0 if it is missing or no number
abbrev limit_of : Option ℤ → ℤ
limit_of none = pos 0
limit_of (some n) = n

module _ {H : Type 0} (rt : Service H) where
  unfoldable pub post_message : User → Option ℕ → Decoded Text → Handler H
  post_message user room req = with_id room λ id.
      with_body req
        λ text. answer (Chat.post_message rt id user.id text) (λ m. json status_created (message m))

module _ {H : Type 0} where
  unfoldable pub list_messages : User → Option ℕ → Cursor → Option ℤ → Handler H
  list_messages user room before limit = with_id room λ id. with_cursor before λ cursor.
      answer (Chat.list_messages id user.id cursor (limit_of limit))
        (λ ms. json status_ok (messages ms))
