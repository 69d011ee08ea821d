-- ===== src/Examples.antt =====
-- Small tables and hubs that the model runs on: a room with its owner, a member and their messages.
mod Rooms
mod Realtime
mod Accounts
mod Push
mod Admin
use convoy_backend.Rooms.Store.Member.{new_member}
use convoy_backend.Realtime.Client.{new_client}
use convoy_backend.Realtime.Fanout.{hub_broadcaster}
use convoy_backend.Rooms.Store.Room.{new_owner, new_room}
use convoy_backend.Realtime.Hub.{new_hub, Hub}
use convoy_backend.Schema.{MessageRow, UserRow, Db}
use convoy_backend.Rooms.Service.Core.{World, Service}
use convoy_backend.Text.{Text}
use convoy_backend.Livekit.{Sdk, Config}
use convoy_backend.Base.{refl, ◌∷◌, some, ◌+◌, none, [], false, ℕ}
use convoy_backend.Schema.Query.{Session, Env}
use convoy_backend.Rooms.Handlers.{User, body}
use convoy_backend.Rooms.Handlers.Serve.{Request, post_room, post_join, post_owner, post_kick}

abbrev user_row : ℕ → UserRow
user_row id = record {
  id = id;
  display_name = b'U' ∷ [];
  avatar_url = none;
  email = none;
  created_at = 90;
  deleted_at = none;
}

abbrev pub env : Env
env = record {
  fails = λ n. false;
  now = λ n. 200 + n;
  uuid = λ n. 50 + n;
  random = λ n. some (n + 1);
  upper = λ c. c;
}

abbrev pub code : Text
code = b'1' ∷ b'2' ∷ b'3' ∷ b'4' ∷ b'5' ∷ b'6' ∷ []

abbrev pub said : ℕ → MessageRow
said id = record { id = id; room_id = 1; user_id = 7; body = b'h' ∷ []; created_at = 150 }

-- only the users
abbrev pub users_only : Db
users_only = record {
  users = user_row 7 ∷ user_row 8 ∷ [];
  user_identities = [];
  feedback = [];
  push_tokens = [];
  broadcasts = [];
  app_config = [];
  rooms = [];
  room_members = [];
  personal_markers = [];
  room_stops = [];
  messages = [];
}

-- the room 1 of user 7, where user 8 is a member
abbrev pub convoy : Db
convoy = record users_only {
  rooms = new_room 1 code none 7 100 ∷ [];
  room_members = new_owner 1 7 100 ∷ new_member 1 8 101 ∷ [];
  messages = said 31 ∷ said 32 ∷ said 33 ∷ [];
}

abbrev pub world_of : Db → World Hub
world_of db = record {
  session = record { db = db; env = env; queries = 0; draws = 0 };
  live = new_hub (λ c. new_client (c + 7) 1);
}

abbrev pub rt : Service Hub
rt = some hub_broadcaster

abbrev pub sdk : Sdk
sdk = record { to_jwt = λ key secret room user name. some key }

abbrev pub config : Config
config = record { url = b'u' ∷ []; api_key = b'k' ∷ []; api_secret = b's' ∷ [] }

abbrev pub session_of : Db → Session
session_of db = record { db = db; env = env; queries = 0; draws = 0 }
