-- ===== src/Httpx.antt =====
-- internal/httpx/response.go, and the errors that the other packages return.
use convoy_backend.Base.{ℕ, String}

pub record ApiError : Type 0 where
  pub status : ℕ
  pub code : String
  pub message : String

-- The error values that reach a handler. `room_not_found` is rooms.ErrNotFound, the `pg` errors are
-- those of PostgreSQL by their cause, `no_rows` is pgx.ErrNoRows and
-- `other` is what errors.New makes.
pub data Error : Type 0 where
  api : ApiError → Error
  room_not_found : Error
  unique_violation foreign_key_violation : Error
  connection_lost scan_failed invalid_utf8 : Error
  no_rows check_violation : Error
  other : String → Error
  no_randomness no_room_code : Error

abbrev pub api_err : ℕ → String → String → Error
api_err status code msg = api (record { status = status; code = code; message = msg })

abbrev pub err_unauthorized : Error
err_unauthorized = api_err 401 "unauthorized" "unauthorized"

abbrev pub err_forbidden : Error
err_forbidden = api_err 403 "forbidden" "forbidden"

abbrev pub err_not_found : Error
err_not_found = api_err 404 "not_found" "not found"

abbrev pub err_bad_request : Error
err_bad_request = api_err 400 "bad_request" "bad request"

abbrev pub err_internal : ApiError
err_internal = record { status = 500; code = "internal"; message = "internal error" }

-- WriteErr: an API error with its own status, any other as 500
unfoldable pub write_err : Error → ApiError
write_err (api e) = e
write_err _ = err_internal
