-- ===== src/Realtime/Departure.antt =====
-- `leave` (internal/realtime/hub.go) as a transition of who is present.
use convoy_backend.Realtime.Dropping.{
  tidied-IsApart, tidied-client_at, lookup-empty, lookup-remove_here, tidied, lookup-remove_there,
}
use convoy_backend.Base.{◌&&◌, false, none, some, refl, sym, inl, inr}
use convoy_backend.Base.{==_refl, ne→==, if◌then◌else◌, Bool-cases, none, some, refl, sym, inl, inr}
use convoy_backend.Base.Maps.{lookup}
use convoy_backend.Realtime.Presence.{
  read-assign_here, others-stay, state_of-found, OthersStay, client_at, IsApart,
}
use convoy_backend.Realtime.Hub.{
  state_of, without_user, leave_state, remove_client, leave_at, leave, is_current, set_state,
  read_state, RoomState, room_for, Hub,
}
use convoy_backend.Base.{
  ◌∙◌, sym, is_some, ap, Option, Bool, ℕ, ◌≡◌, ◌≢◌, refl, true, none, some, inl, inr,
}

-- The outcome of leave by what its test of the user's current client says.
record LeftBy (room c : ℕ) (h : Hub) (r : (Bool × Bool) × Hub) : Type 0 where
  absent : client_at room (h.conns c).user r.1 ≡ (
      if is_current c (client_at room (h.conns c).user h)
      then none
      else client_at room (h.conns c).user h)
  others : OthersStay room (h.conns c).user h r.1
  transitioned : r.0.0 ≡ is_current c (client_at room (h.conns c).user h)
  cleared : r.0.1 ≡ (
      is_current c (client_at room (h.conns c).user h)
      && is_some (lookup (h.conns c).user (state_of room h).emergencies))
  still_apart : IsApart r.1

module _ (room a c : ℕ) (h : Hub) (apart : IsApart h) (found : lookup room h.rooms ≡ some a) where
  user : ℕ
  user = (h.conns c).user

  removed : Hub
  removed = set_state a (without_user user (h.states a)) h

  here : client_at room user h ≡ lookup user (h.states a).clients
  here = ap (λ (s : RoomState). lookup user s.clients) (state_of-found room a h found)

  removed-IsApart : IsApart removed
  unfolding removed
  removed-IsApart = record { distinct = apart.distinct; allocated = apart.allocated }

  removed-here : client_at room user removed ≡ none
  unfolding removed
  removed-here =
      ap (λ (s : RoomState). lookup user s.clients)
        (read-assign_here room a (without_user user (h.states a)) h found)
      ∙ lookup-remove_here user (h.states a).clients

  removed-others : OthersStay room user h removed
  unfolding removed
  removed-others =
      others-stay room a user (without_user user (h.states a)) h
        (set_state a (without_user user (h.states a)) h) apart found (λ r. refl)
        (λ u differ. lookup-remove_there user u (h.states a).clients differ)

  current-LeftBy :
      is_current c (lookup user (h.states a).clients) ≡ true
      → LeftBy room c h
          ((true, is_some (lookup user (h.states a).emergencies)), tidied room a removed)
  unfolding user
  current-LeftBy e =
      let cur : is_current c (client_at room user h) ≡ true = ap (is_current c) here ∙ e in
      record {
        absent =
            tidied-client_at room a removed room user
            ∙ removed-here
            ∙ sym (ap (λ b. if b then none else client_at room user h) cur);
        others = λ r u differ. tidied-client_at room a removed r u ∙ removed-others r u differ;
        transitioned = sym cur;
        cleared =
            ap (λ (s : RoomState). is_some (lookup user s.emergencies))
              (sym (state_of-found room a h found))
            ∙ sym (ap (λ b. b && is_some (lookup user (state_of room h).emergencies)) cur);
        still_apart = tidied-IsApart room a removed removed-IsApart;
      }

  other-LeftBy :
      is_current c (lookup user (h.states a).clients) ≡ false
      → LeftBy room c h ((false, false), tidied room a h)
  unfolding user
  other-LeftBy e =
      let cur : is_current c (client_at room user h) ≡ false = ap (is_current c) here ∙ e in
      record {
        absent =
            tidied-client_at room a h room user
            ∙ sym (ap (λ b. if b then none else client_at room user h) cur);
        others = λ r u differ. tidied-client_at room a h r u;
        transitioned = sym cur;
        cleared = sym (ap (λ b. b && is_some (lookup user (state_of room h).emergencies)) cur);
        still_apart = tidied-IsApart room a h apart;
      }

  leave_state-LeftBy : LeftBy room c h (leave_state room a c h)
  unfolding remove_client user removed
  leave_state-LeftBy = elim (Bool-cases (is_current c (lookup user (h.states a).clients))) [
    | inl e ↦ rw e (current-LeftBy e)
    | inr e ↦ rw e (other-LeftBy e)
  ]

leave_at-LeftBy :
    (room c : ℕ) (h : Hub) (o : Option ℕ)
    → IsApart h
    → room_for room h ≡ o
    → LeftBy room c h (leave_at room c o h)
leave_at-LeftBy room c h (some a) apart e = leave_state-LeftBy room a c h apart e
leave_at-LeftBy room c h none apart e =
    let gone : client_at room (h.conns c).user h ≡ none =
      ap (λ o. lookup (h.conns c).user (read_state h o).clients) e ∙ lookup-empty _ in
    let cur : is_current c (client_at room (h.conns c).user h) ≡ false = ap (is_current c) gone in
    record {
      absent = sym (ap (λ b. if b then none else client_at room (h.conns c).user h) cur);
      others = λ r u differ. refl;
      transitioned = sym cur;
      cleared =
          sym (ap (λ b. b && is_some (lookup (h.conns c).user (state_of room h).emergencies)) cur);
      still_apart = apart;
    }

-- The client is gone if it was the user's; everybody else stays.
pub record Left (room c : ℕ) (h : Hub) (r : (Bool × Bool) × Hub) : Type 0 where
  pub of_current :
      client_at room (h.conns c).user h ≡ some c
      → (client_at room (h.conns c).user r.1 ≡ none)
        × (r.0.0 ≡ true)
        × (r.0.1 ≡ is_some (lookup (h.conns c).user (state_of room h).emergencies))
  pub of_other :
      client_at room (h.conns c).user h ≢ some c
      → (client_at room (h.conns c).user r.1 ≡ client_at room (h.conns c).user h)
        × (r.0.0 ≡ false)
        × (r.0.1 ≡ false)
  pub others : OthersStay room (h.conns c).user h r.1
  pub still_apart : IsApart r.1

is_current-some : (c : ℕ) (o : Option ℕ) → o ≢ some c → is_current c o ≡ false
is_current-some c none differ = refl
is_current-some c (some d) differ = ne→== d c (λ e. differ (ap some e))

module _ (room c : ℕ) (h : Hub) (r : (Bool × Bool) × Hub) (l : LeftBy room c h r) where
  mine : Option ℕ
  mine = client_at room (h.conns c).user h

  flagged : Bool
  flagged = is_some (lookup (h.conns c).user (state_of room h).emergencies)

  LeftBy-Left : Left room c h r
  unfolding mine flagged
  LeftBy-Left = record {
    of_current = λ e.
        let cur : is_current c mine ≡ true = ap (is_current c) e ∙ ==_refl c in
        (
          l.absent ∙ ap (λ b. if b then none else mine) cur,
          l.transitioned ∙ cur,
          l.cleared ∙ ap (λ b. b && flagged) cur,
        );
    of_other = λ differ.
        let cur : is_current c mine ≡ false = is_current-some c mine differ in
        (
          l.absent ∙ ap (λ b. if b then none else mine) cur,
          l.transitioned ∙ cur,
          l.cleared ∙ ap (λ b. b && flagged) cur,
        );
    others = l.others;
    still_apart = l.still_apart;
  }

-- leave removes the client if it is the user's client in the room, and reports it, and whether the
-- user had an emergency; a client that another has replaced removes nothing. Nobody else's presence
-- changes, in any room, as long as rooms do not share states, whether the room is then dropped or not;
-- and rooms do not share states afterwards.
pub leave-Left : (room c : ℕ) (h : Hub) → IsApart h → Left room c h (leave room c h)
unfolding leave
leave-Left room c h apart =
    LeftBy-Left room c h _ (leave_at-LeftBy room c h (room_for room h) apart refl)
