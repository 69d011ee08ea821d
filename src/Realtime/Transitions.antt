-- ===== src/Realtime/Transitions.antt =====
-- `join` (internal/realtime/hub.go) as a transition of who is present.
use convoy_backend.Base.{none, some, refl, sym}
use convoy_backend.Base.{none, some, refl, sym}
use convoy_backend.Base.Maps.{lookup}
use convoy_backend.Realtime.Presence.{
  state_of-found, insert_client-others, insert_client-here, close_existing-rooms, OthersStay,
  created-Ready, client_at, IsApart,
}
use convoy_backend.Realtime.Hub.{
  RoomState, created, close_existing, room_for, room_for_create, join, Hub, insert_client,
}
use convoy_backend.Base.{◌∙◌, sym, is_some, ap, not, Option, Bool, ℕ, ◌≡◌, refl, none, some}

pub insert_client-IsApart : (a c : ℕ) (h : Hub) → IsApart h → IsApart (insert_client a c h).1
unfolding insert_client
insert_client-IsApart a c h apart =
    let o = lookup (h.conns c).user (h.states a).clients in
    record {
      distinct = λ r r' b e e'.
          let same = close_existing-rooms o h in
          apart.distinct r r' b (sym (ap (lookup r) same) ∙ e) (sym (ap (lookup r') same) ∙ e');
      allocated = λ r b e.
          let l = apart.allocated r b (sym (ap (lookup r) (close_existing-rooms o h)) ∙ e) in
          rw (close_existing-next o h) l;
    }
  where
    close_existing-next : (o : Option ℕ) (h : Hub) → (close_existing o h).next_state ≡ h.next_state
    close_existing-next none h = refl
    close_existing-next (some old) h = refl

-- The client is the user's in the room, whoever was there before; everybody else stays.
pub record Joined (room c : ℕ) (h : Hub) (r : Bool × Hub) : Type 0 where
  pub present : client_at room (h.conns c).user r.1 ≡ some c
  pub others : OthersStay room (h.conns c).user h r.1
  pub transitioned : r.0 ≡ not (is_some (client_at room (h.conns c).user h))
  pub still_apart : IsApart r.1

-- join leads to the client's being the user's client in the room, also where another client was; it
-- reports a transition exactly when the user had no client there. Nobody else's presence changes, in
-- any room, as long as rooms do not share states; and they do not afterwards.
pub join-Joined : (room c : ℕ) (h : Hub) → IsApart h → Joined room c h (join room c h)
unfolding join room_for_create insert_client
join-Joined room c h apart =
    let r = created-Ready room h (room_for room h) apart refl in
    let (a, h1) = created room (room_for room h) h in
    let user = (h.conns c).user in
    let same_user : (h1.conns c).user ≡ user = ap (λ f. (f c).user) r.same_conns in
    record {
      present =
          ap (λ u. client_at room u (insert_client a c h1).1) (sym same_user)
          ∙ insert_client-here room a c h1 r.apart r.found;
      others = λ q u differ.
          insert_client-others room a c h1 r.apart r.found q u (λ e. differ (e.0, e.1 ∙ same_user))
          ∙ r.same_clients q u;
      transitioned =
          ap (λ o. not (is_some o))
            (ap (λ u. lookup u (h1.states a).clients) same_user
              ∙ ap (λ (s : RoomState). lookup user s.clients)
                  (sym (state_of-found room a h1 r.found))
              ∙ r.same_clients room user);
      still_apart = insert_client-IsApart a c h1 r.apart;
    }
