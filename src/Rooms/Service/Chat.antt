-- ===== src/Rooms/Service/Chat.antt =====
-- Chat (internal/rooms/service.go).
use convoy_backend.Base.{ℕ, zero, suc, ltb, length, List, Option, if◌then◌else◌}
use convoy_backend.Base.Int.{ℤ, pos, negsuc}
use convoy_backend.Text.{Text, trim_space, is_empty}
use convoy_backend.Httpx.{api_err}
use convoy_backend.Exec.{Exec, pure, refuse, ◌>>=◌, ◌>>◌}
use convoy_backend.Rooms.Types.{Message}
use convoy_backend.Rooms.Store.Chat
use convoy_backend.Rooms.Service.Core.{Service, World, on_store, notify, assert_member}

abbrev max_message_len : ℕ
max_message_len = 2000

abbrev default_message_page : ℕ
default_message_page = 50

abbrev pub max_message_page : ℕ
max_message_page = 100

-- if limit <= 0 || limit > maxMessagePage { limit = defaultMessagePage }
unfoldable pub page_size : ℤ → ℕ
page_size (negsuc n) = default_message_page
page_size (pos zero) = default_message_page
page_size (pos (suc n)) = if ltb max_message_page (suc n) then default_message_page else suc n

module _ {H : Type 0} (rt : Service H) where
  unfoldable pub post_message : ℕ → ℕ → Text → Exec (World H) Message
  post_message room user text = do
    assert_member room user
    let body = trim_space text
    refuse (is_empty body) (api_err 400 "empty_message" "message cannot be empty")
    refuse (ltb max_message_len (length body))
        (api_err 400 "message_too_long" "message is too long")
    msg ← on_store (Chat.create_message room user body)
    notify rt (λ b. b.broadcast_chat_message room msg)
    pure msg

module _ {H : Type 0} where
  unfoldable pub list_messages : ℕ → ℕ → Option ℕ → ℤ → Exec (World H) (List Message)
  list_messages room user before limit = do
    assert_member room user
    on_store (Chat.list_messages room before (page_size limit))
