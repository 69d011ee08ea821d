-- ===== src/Realtime/Disconnect.antt =====
-- The end of a websocket: what follows the read pump in ServeHTTP (internal/realtime/handler.go).
use convoy_backend.Realtime.Shutting.{Run-Lasts}
use convoy_backend.Realtime.Filing.{close-user}
use convoy_backend.Realtime.Departure.{leave-Left, Left}
use convoy_backend.Realtime.Soundness.{Run-IsSound}
use convoy_backend.Base.Maps.{lookup}
use convoy_backend.Realtime.Handler.{departed, read_loop_ended, disconnect}
use convoy_backend.Realtime.Delivery.{close-Closed, broadcast_at-SameRooms, SameRooms}
use convoy_backend.Realtime.Presence.{state_of-same, OthersStay, client_at, IsApart}
use convoy_backend.Realtime.Dropping.{tidied}
use convoy_backend.Realtime.Steps.{begun, broadcast-Run, leave-Run, Run-trans, Run}
use convoy_backend.Realtime.Message.{member_absent, emergency, Frame}
use convoy_backend.Realtime.Client.{Client}
use convoy_backend.Realtime.Fanout.{
  close_conn, broadcast_emergency, broadcast_member_absent, broadcast,
}
use convoy_backend.Base.{
  arith, refl, ne→==, ◌≢◌, inr, sym, ==_refl, ◌≢◌, some, none, ap, inl, ◌∙◌, ◌∙◌, ◌<◌, ◌<◌,
  Bool-cases, true, false, some, ◌≡◌, ◌≡◌, Bool, Option, ℕ,
}
use convoy_backend.Realtime.Hub.{
  RoomState, is_current, no_clients, room_for, new_hub, leave_at, dropped, Hub, drop_if_empty,
  remove_client, leave,
}

broadcast-SameRooms :
    (room : ℕ) (f : Frame) (exclude : Option ℕ) (h : Hub) → SameRooms h (broadcast room f exclude h)
unfolding broadcast
broadcast-SameRooms room f exclude h = broadcast_at-SameRooms exclude (room_for room h) f h

-- Telling the others changes no presence, and is a run.
departed-SameRooms :
    (room user : ℕ) (r : (Bool × Bool) × Hub) → SameRooms r.1 (departed room user r)
unfolding broadcast_member_absent broadcast_emergency
departed-SameRooms room user ((true, true), h) =
    let f = emergency user false in
    let (rooms, states) = broadcast-SameRooms room f none h in
    let (rooms', states') =
      broadcast-SameRooms room (member_absent user) (some user) (broadcast room f none h) in
    (rooms' ∙ rooms, states' ∙ states)
departed-SameRooms room user ((true, false), h) =
    broadcast-SameRooms room (member_absent user) (some user) h
departed-SameRooms room user ((false, cleared), h) = (refl, refl)

departed-Run : (room user : ℕ) (r : (Bool × Bool) × Hub) → Run r.1 (departed room user r)
unfolding broadcast_member_absent broadcast_emergency
departed-Run room user ((true, true), h) =
    let f = emergency user false in
    Run-trans (broadcast-Run room f none h)
      (broadcast-Run room (member_absent user) (some user) (broadcast room f none h))
departed-Run room user ((true, false), h) = broadcast-Run room (member_absent user) (some user) h
departed-Run room user ((false, cleared), h) = begun

departed-silent :
    (room user : ℕ) (r : (Bool × Bool) × Hub) → r.0.0 ≡ false → departed room user r ≡ r.1
departed-silent room user ((true, cleared), h) e = ground arith
departed-silent room user ((false, cleared), h) e = refl

-- leave touches no connection.
dropped-conns : (room : ℕ) (o : Option ℕ) (h : Hub) → (dropped room o h).conns ≡ h.conns
dropped-conns room none h = refl
dropped-conns room (some a) h = elim (Bool-cases (no_clients (h.states a))) [
  | inl e ↦ rw e refl
  | inr e ↦ rw e refl
]

tidied-conns : (room a : ℕ) (h : Hub) → (tidied room a h).conns ≡ h.conns
unfolding drop_if_empty
tidied-conns room a h = elim (Bool-cases (no_clients (h.states a))) [
  | inl e ↦ rw e (dropped-conns room (room_for room h) h)
  | inr e ↦ rw e refl
]

remove_client-conns : (a c : ℕ) (h : Hub) → (remove_client a c h).1.conns ≡ h.conns
unfolding remove_client
remove_client-conns a c h =
    elim (Bool-cases (is_current c (lookup (h.conns c).user (h.states a).clients))) [
      | inl e ↦ rw e refl
      | inr e ↦ rw e refl
    ]

leave_at-conns : (room c : ℕ) (o : Option ℕ) (h : Hub) → (leave_at room c o h).1.conns ≡ h.conns
leave_at-conns room c none h = refl
leave_at-conns room c (some a) h =
    tidied-conns room a (remove_client a c h).1 ∙ remove_client-conns a c h

leave-conns : (room c : ℕ) (h : Hub) → (leave room c h).1.conns ≡ h.conns
unfolding leave
leave-conns room c h = leave_at-conns room c (room_for room h) h

-- What the end of the client's socket leaves behind.
pub record Gone (room c : ℕ) (h g : Hub) : Type 0 where
  pub closed : (g.conns c).closed ≡ true
  pub of_current :
      client_at room (h.conns c).user h ≡ some c → client_at room (h.conns c).user g ≡ none
  pub of_other :
      client_at room (h.conns c).user h ≢ some c
      → (client_at room (h.conns c).user g ≡ client_at room (h.conns c).user h)
        × ((d : ℕ) → d ≢ c → g.conns d ≡ h.conns d)
  pub others : OthersStay room (h.conns c).user h g

module _ (room c : ℕ) (h : Hub) (apart : IsApart h) (known : c < h.next_conn) where
  ended : Hub
  ended = read_loop_ended c h

  same_user : (ended.conns c).user ≡ (h.conns c).user
  unfolding ended read_loop_ended close_conn
  same_user = rw (==_refl c) (close-user "read loop ended" (h.conns c))

  other_conns : (d : ℕ) → d ≢ c → ended.conns d ≡ h.conns d
  unfolding ended read_loop_ended close_conn
  other_conns d differ = rw (ne→== c d (λ e. differ (sym e))) refl

  shut : (ended.conns c).closed ≡ true
  unfolding ended read_loop_ended close_conn
  shut = rw (==_refl c) (close-Closed "read loop ended" (h.conns c)).1

  gone : Left room c ended (leave room c ended)
  unfolding ended read_loop_ended close_conn
  gone = leave-Left room c ended (record { distinct = apart.distinct; allocated = apart.allocated })

  same_presence : (r u : ℕ) → client_at r u ended ≡ client_at r u h
  unfolding ended read_loop_ended close_conn
  same_presence r u = ap (λ (s : RoomState). lookup u s.clients) (state_of-same h ended refl refl r)

  told : Hub
  told = disconnect room c h

  told-departed : told ≡ departed room (h.conns c).user (leave room c ended)
  unfolding told disconnect ended
  told-departed = ap (λ u. departed room u (leave room c ended)) same_user

  after_leave : (r u : ℕ) → client_at r u told ≡ client_at r u (leave room c ended).1
  after_leave r u =
      let l = leave room c ended in
      let (rooms, states) = departed-SameRooms room (h.conns c).user l in
      ap (client_at r u) told-departed
      ∙ ap (λ (s : RoomState). lookup u s.clients)
          (state_of-same l.1 (departed room (h.conns c).user l) rooms states r)

  still_shut : (told.conns c).closed ≡ true
  unfolding ended read_loop_ended close_conn
  still_shut =
      let r =
        Run-trans (leave-Run room c ended)
          (departed-Run room (h.conns c).user (leave room c ended)) in
      ap (λ (g : Hub). (g.conns c).closed) told-departed ∙ ((Run-Lasts r).closes c known shut).0

  before_leave :
      (o : Option ℕ)
      → client_at room (h.conns c).user h ≡ o
      → client_at room (ended.conns c).user ended ≡ o
  before_leave o e =
      ap (λ u. client_at room u ended) same_user ∙ same_presence room (h.conns c).user ∙ e

  -- When a websocket ends, its client is closed; if it was the user's client in the room, the user is
  -- absent afterwards, and if another one had replaced it, that one stays and no other connection
  -- is touched. Nobody else's presence changes in any room.
  disconnect-Gone : Gone room c h (disconnect room c h)
  unfolding told
  disconnect-Gone = record {
    closed = still_shut;
    of_current = λ e.
        after_leave room (h.conns c).user
        ∙ ap (λ u. client_at room u (leave room c ended).1) (sym same_user)
        ∙ (gone.of_current (before_leave (some c) e)).0;
    of_other = λ differ.
        let (stays, absent, cleared) =
          gone.of_other (λ e. differ (sym (before_leave _ refl) ∙ e)) in
        (
          after_leave room (h.conns c).user
              ∙ ap (λ u. client_at room u (leave room c ended).1) (sym same_user)
              ∙ stays
              ∙ before_leave _ refl,
          λ d other.
              ap (λ (g : Hub). g.conns d)
                (told-departed ∙ departed-silent room (h.conns c).user (leave room c ended) absent)
              ∙ ap (λ f. f d) (leave-conns room c ended)
              ∙ other_conns d other,
        );
    others = λ r u differ.
        after_leave r u ∙ gone.others r u (λ e. differ (e.0, e.1 ∙ same_user)) ∙ same_presence r u;
  }

-- When a websocket of a hub that any requests lead to ends, its client is closed; if it was the user's
-- client in the room, the user is absent afterwards; if another had replaced it, that one stays and no
-- other connection is touched. Nobody else's presence changes, in any room.
pub Run-disconnect-Gone :
    (conns : ℕ → Client) (room c : ℕ) {h : Hub}
    → Run (new_hub conns) h
    → c < h.next_conn
    → Gone room c h (disconnect room c h)
Run-disconnect-Gone conns room c {h} run known =
    disconnect-Gone room c h (Run-IsSound conns run).apart known
