-- ===== src/Feedback/Handlers.antt =====
-- internal/feedback/handlers.go
use convoy_backend.Base.{ℕ, Option}
use convoy_backend.Text.{Text, trim_space, is_empty}
use convoy_backend.Text.Cut.{cut_over}
use convoy_backend.Httpx.{api_err}
use convoy_backend.Exec.{Exec, refuse, ◌>>=◌, ◌>>◌}
use convoy_backend.Schema.Query.{Session}
use convoy_backend.Web.{Decoded, Answer, reply, served, decoded, in_context}
use convoy_backend.Feedback.Store.{Entry, create}

abbrev pub max_message_len : ℕ
max_message_len = 2000

-- Submit up to its last error
unfoldable pub submitted : Option ℕ → Decoded Text → Exec Session Entry
submitted context req = do
  user ← in_context context
  text ← decoded req
  refuse (is_empty (trim_space text)) (api_err 400 "empty_message" "message is required")
  create user (cut_over max_message_len (trim_space text))

unfoldable pub submit : Option ℕ → Decoded Text → Exec Session (Answer Entry)
submit context req = served (submitted context req) (reply 201)
