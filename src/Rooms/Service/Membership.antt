-- ===== src/Rooms/Service/Membership.antt =====
-- Creating, joining and leaving a room (internal/rooms/service.go).
use convoy_backend.Base.{ℕ, zero, suc, ◌+◌, ◌%◌, [], ◌∷◌, Option, none, some}
use convoy_backend.Text.{Text, trim_space, to_upper}
use convoy_backend.Httpx.{
  Error, api_err, room_not_found, unique_violation, no_randomness, no_room_code,
}
use convoy_backend.Exec.{Result, ok, err, Exec, pure, raise, gets, attempt, map_err, ◌>>=◌, ◌>>◌}
use convoy_backend.Schema.Query.{Session}
use convoy_backend.Rooms.Types.{Room, Member}
use convoy_backend.Rooms.Store.Room.{create_room, get_active_by_code}
use convoy_backend.Rooms.Store.Member.{upsert_member, mark_left, get_member}
use convoy_backend.Rooms.Service.Core.{Service, World, on_store, notify}

abbrev max_code_attempts : ℕ
max_code_attempts = 8

-- rand.Int(rand.Reader, 10): a draw below 10, or an error
abbrev pub drawn : Session → Option ℕ → Result ℕ × Session
drawn s none = (err no_randomness, record s { draws = s.draws + 1 })
drawn s (some n) = (ok (n % 10), record s { draws = s.draws + 1 })

unfoldable pub draw : Exec Session ℕ
draw s = drawn s (s.env.random s.draws)

-- codeAlphabet is "0123456789", so its n-th byte is b'0' + n
unfoldable pub draw_digits : ℕ → Exec Session Text
draw_digits zero = pure []
draw_digits (suc k) = do n ← draw; rest ← draw_digits k; pure ((b'0' + n) ∷ rest)

unfoldable pub generate_code : Exec Session Text
generate_code = draw_digits 6

abbrev pub no_such_code : Error → Error
no_such_code room_not_found = api_err 404 "room_not_found" "no active room for that code"
no_such_code e = e

module _ {H : Type 0} where
  -- after an attempt: return the room, go on after a taken code, return any other error
  abbrev pub retry : Result Room → Exec (World H) Room → Exec (World H) Room
  retry (ok room) next = pure room
  retry (err unique_violation) next = next
  retry (err e) next = raise e

  unfoldable pub create_loop : ℕ → ℕ → Option Text → Exec (World H) Room
  create_loop zero owner_id name = raise no_room_code
  create_loop (suc attempts) owner_id name = do
    code ← on_store generate_code
    r ← attempt (on_store (create_room owner_id code name))
    retry r (create_loop attempts owner_id name)

  unfoldable pub create : ℕ → Option Text → Exec (World H) Room
  create owner_id name = create_loop max_code_attempts owner_id name

module _ {H : Type 0} (rt : Service H) where
  abbrev pub announce : ℕ → Result Member → Exec (World H) (Unit {0})
  announce room (ok m) = notify rt (λ b. b.broadcast_member_joined room m)
  announce room (err e) = pure tt

  abbrev pub announce_member : Service H → ℕ → ℕ → Exec (World H) (Unit {0})
  announce_member none room user = pure tt
  announce_member (some b) room user = do
    r ← attempt (on_store (get_member room user))
    announce room r

  unfoldable pub join : ℕ → Text → Exec (World H) Room
  join user code = do
    upper ← gets (λ w. w.session.env.upper)
    room ← map_err no_such_code (on_store (get_active_by_code (to_upper upper (trim_space code))))
    on_store (upsert_member room.id user)
    announce_member rt room.id user
    pure room

  unfoldable pub leave : ℕ → ℕ → Exec (World H) (Unit {0})
  leave room user = do
    on_store (mark_left room user)
    notify rt (λ b. b.broadcast_member_left room user)
    notify rt (λ b. b.disconnect_user room user)
