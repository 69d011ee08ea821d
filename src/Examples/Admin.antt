-- ===== src/Examples/Admin.antt =====
-- The administrator on small tables.
use convoy_backend.Push.Tokens.{TicketEach}
use convoy_backend.Push.Expo.{send_batch, Network}
use convoy_backend.Base.{
  ◌*◌, ◌*◌, ℕ, inl, Option, ◌∷◌, ◌⊎◌, [], false, true, length, ◌⊎◌, ◌+◌, arith, ◌==◌, refl, ◌∷◌,
  ◌≡◌,
}
use convoy_backend.Examples.{some, ◌∷◌, ◌+◌, none, convoy, env, session_of}
use convoy_backend.Text.{trim_space, Text, runes}
use convoy_backend.Exec.{ok}
use convoy_backend.Exec.Leads.{Outcome}
use convoy_backend.Schema.{Db, RoomRow, TokenRow}
use convoy_backend.Schema.Query.{counted, OnDb, Session, write}
use convoy_backend.Rooms.Store.Room.{new_room}
use convoy_backend.Admin.Session.{
  session_lifetime, second, redirect, Admin, Page, sign_session, login_submit, require_auth,
  rendered, unauthorized,
}
use convoy_backend.Admin.Cookie.{NoDot, require_auth-login, require_auth-Signed, Signed}
use convoy_backend.Admin.Users.{user_soft_delete, UserPage, user_hard_delete, hard_delete_rows}
use convoy_backend.Admin.Purge.{Purged, hard_delete-Leads, user_hard_delete-holds_back}
use convoy_backend.Admin.Offline.{SoftDeleted, user_soft_delete-SoftDeleted}
use convoy_backend.Admin.Published.{Published, settings_submit-Published}
use convoy_backend.Admin.Settings.{settings_submit}
use convoy_backend.Admin.Delivery.{broadcast_send-Sent}
use convoy_backend.Admin.Recording.{Sent}
use convoy_backend.Admin.Broadcasts.{broadcast_send}

-- the MAC is the length of the payload
abbrev admin : Admin
admin = record {
  password = runes "pw";
  cookie_secret = runes "0123456789abcdef";
  mac = λ secret payload. (1000 + length payload) ∷ [];
}

no_dots : (secret payload : Text) → NoDot (admin.mac secret payload)
no_dots secret payload = (ground arith, tt)

-- a login within the second 1000, and a request seven days and half a second later
abbrev login_time : ℕ
login_time = 1000 * second + 700000000

abbrev later : ℕ
later = 1000 * second + 1200000000 + session_lifetime

abbrev cookie : Text
cookie = sign_session admin 1000

require_auth-login_example :
    (runes "pw" ≡ admin.password)
    × (require_auth {A = Page} (λ p. p) admin later (some cookie) false rendered
        ≡ redirect (runes "/admin/login"))
unfolding login_submit require_auth
require_auth-login_example =
    require_auth-login {A = Page} (λ p. p) admin login_time later (runes "pw") cookie false rendered
      no_dots (omega arith) refl

require_auth-Signed_example :
    ((text : Text) × (some (runes "v1.1.x") ≡ some text) × Signed admin 2 text)
    ⊎ (require_auth {A = Option Page} some admin 2 (some (runes "v1.1.x")) true none
        ≡ some unauthorized)
require_auth-Signed_example = require_auth-Signed admin 2 (some (runes "v1.1.x")) true

-- user 8 set the destination of the room that is now of user 7
abbrev handed_over : RoomRow
handed_over = record (new_room 1 (runes "123456") none 7 100) { dest_set_by = some 8 }

abbrev held_back : Db
held_back = record convoy { rooms = handed_over ∷ [] }

user_hard_delete-holds_back_example :
    user_hard_delete (some 8) false (session_of held_back)
    ≡ (ok (UserPage.http_error 500), counted (session_of held_back))
user_hard_delete-holds_back_example =
    user_hard_delete-holds_back 8 false (session_of held_back) refl
      (inl (handed_over, inl refl, refl, refl)) refl

hard_delete-Leads_example :
    Purged 7 convoy (write (λ now _ db. hard_delete_rows 7 db) (session_of convoy)).1.db
unfolding write hard_delete_rows
hard_delete-Leads_example =
    ((hard_delete-Leads 7 convoy refl).at (session_of convoy) (record { holds = refl })).holds

-- the second query loses its connection
abbrev flaky : Session
flaky = record (session_of convoy) { env = record env { fails = λ n. n == 1 } }

user_soft_delete-SoftDeleted_example :
    SoftDeleted 7 convoy false true false (user_soft_delete (some 7) flaky)
user_soft_delete-SoftDeleted_example = user_soft_delete-SoftDeleted 7 flaky

settings_submit-Published_example :
    Outcome
      (λ page. OnDb (Published (runes "1.2.3") convoy page))
      (λ s. ⊥)
      (settings_submit true (some (runes " 1.2.3")) (session_of convoy)).0
      (settings_submit true (some (runes " 1.2.3")) (session_of convoy)).1
unfolding trim_space
settings_submit-Published_example =
    (settings_submit-Published (runes " 1.2.3") convoy).at (session_of convoy)
      (record { holds = refl })

abbrev device : TokenRow
device = record { token = runes "t"; user_id = 8; platform = runes "ios"; updated_at = 100 }

abbrev one_device : Db
one_device = record convoy { push_tokens = device ∷ [] }

-- no request is answered
abbrev offline : Network
offline n msgs = none

no_tickets : TicketEach offline
unfolding send_batch
no_tickets n msgs tks e = cc e

broadcast_send-Sent_example :
    Outcome
      (λ page. OnDb (Sent (runes "Hi") (runes "there") one_device page))
      (λ s. ⊥)
      (broadcast_send offline (some (runes "Hi", runes "there")) (session_of one_device)).0
      (broadcast_send offline (some (runes "Hi", runes "there")) (session_of one_device)).1
broadcast_send-Sent_example =
    (broadcast_send-Sent offline no_tickets (runes "Hi") (runes "there") one_device).at
      (session_of one_device) (record { holds = refl })
