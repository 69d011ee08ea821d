-- ===== src/Realtime/Race.antt =====
-- The steps of join and leave (internal/realtime/hub.go) between which the hub is not locked.
use convoy_backend.Realtime.Dropping.{lookup-empty, lookup-remove_here}
use convoy_backend.Realtime.Message.{Frame}
use convoy_backend.Realtime.Presence.{lookup-put_here, close_existing-rooms}
use convoy_backend.Realtime.Fanout.{broadcast_at, broadcast}
use convoy_backend.Base.{is_some, Option, ◌∙◌, if◌then◌else◌, ap, none, some, refl}
use convoy_backend.Base.Maps.{put, remove, lookup}
use convoy_backend.Realtime.Hub.{
  read_state, close_existing, dropped, created, is_present, no_clients, without_user, insert_client,
  set_state, remove_client, drop_if_empty, is_current, room_for_create, Hub,
}
use convoy_backend.Base.{==_refl, ℕ, ◌≡◌, refl, true, false, none, some, [], ◌∷◌}

-- join reads the state of the room; before it takes the state's lock, another client's leave removes
-- the last client and drops the room; then join puts its client into the state that it read.
unfoldable pub overtaken_join : ℕ → ℕ → ℕ → Hub → Hub
overtaken_join room leaver joiner h =
    let (a, h1) = room_for_create room h in
    let (r, h2) = remove_client a leaver h1 in (insert_client a joiner (drop_if_empty room h2)).1

module _ (room a leaver joiner : ℕ) (h : Hub) (found : lookup room h.rooms ≡ some a)
    (alone : (h.states a).clients ≡ ((h.conns leaver).user, leaver) ∷ []) where
  emptied : Hub
  emptied = set_state a (without_user (h.conns leaver).user (h.states a)) h

  is-current : is_current leaver (lookup (h.conns leaver).user (h.states a).clients) ≡ true
  unfolding lookup
  is-current = rw (alone, ==_refl (h.conns leaver).user) (==_refl leaver)

  removed : (remove_client a leaver h).1 ≡ emptied
  unfolding remove_client emptied
  removed = rw is-current refl

  nobody : no_clients (emptied.states a) ≡ true
  unfolding emptied remove
  nobody = rw (==_refl a, alone, ==_refl (h.conns leaver).user) refl

  unmapped : Hub
  unmapped = record emptied { rooms = remove room h.rooms }

  drop-unmapped : drop_if_empty room emptied ≡ unmapped
  unfolding drop_if_empty unmapped emptied
  drop-unmapped =
      ap (λ o. dropped room o emptied) found ∙ ap (λ b. if b then unmapped else emptied) nobody

  overtaken : overtaken_join room leaver joiner h ≡ (insert_client a joiner unmapped).1
  unfolding overtaken_join room_for_create
  overtaken =
      ap
        (λ o.
          (insert_client (created room o h).0 joiner (
            drop_if_empty room
              (remove_client (created room o h).0 leaver (created room o h).1).1)).1)
        found
      ∙ ap (λ g. (insert_client a joiner (drop_if_empty room g)).1) removed
      ∙ ap (λ g. (insert_client a joiner g).1) drop-unmapped

  still_unmapped : lookup room (insert_client a joiner unmapped).1.rooms ≡ none
  unfolding insert_client unmapped emptied
  still_unmapped =
      ap (lookup room)
        (close_existing-rooms (lookup (h.conns joiner).user (unmapped.states a).clients) unmapped)
      ∙ lookup-remove_here room h.rooms

  held :
      lookup (h.conns joiner).user ((insert_client a joiner unmapped).1.states a).clients
      ≡ some joiner
  unfolding insert_client unmapped emptied
  held =
      ap
        (λ b.
          lookup (h.conns joiner).user
            (if b
              then record (unmapped.states a) {
                clients = put (h.conns joiner).user joiner (unmapped.states a).clients;
              }
              else ((close_existing (lookup (h.conns joiner).user (unmapped.states a).clients)
                    unmapped).states
                  a)).clients)
        (==_refl a)
      ∙ lookup-put_here (h.conns joiner).user joiner (unmapped.states a).clients

  -- When the one client of a room leaves between join's read of the room and its lock of the state,
  -- the client that joined is held by a state that no room has any more: it does not count as
  -- present and no broadcast to the room goes to it.
  pub overtaken_join-lost :
      (is_present room (h.conns joiner).user (overtaken_join room leaver joiner h) ≡ false)
      × (lookup (h.conns joiner).user ((overtaken_join room leaver joiner h).states a).clients
          ≡ some joiner)
      × ((f : Frame) (exclude : Option ℕ)
          → broadcast room f exclude (overtaken_join room leaver joiner h)
            ≡ overtaken_join room leaver joiner h)
  unfolding is_present broadcast
  overtaken_join-lost =
      let lost : lookup room (overtaken_join room leaver joiner h).rooms ≡ none =
        ap (λ (g : Hub). lookup room g.rooms) overtaken ∙ still_unmapped in
      (
        ap
              (λ o. is_some (
                lookup (h.conns joiner).user
                  (read_state (overtaken_join room leaver joiner h) o).clients))
              lost
            ∙ ap is_some (lookup-empty (h.conns joiner).user),
        ap (λ (g : Hub). lookup (h.conns joiner).user (g.states a).clients) overtaken ∙ held,
        λ f exclude. ap (λ o. broadcast_at exclude o f (overtaken_join room leaver joiner h)) lost,
      )
