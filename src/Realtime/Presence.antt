-- ===== src/Realtime/Presence.antt =====
-- Who is present in which room after `join` and `leave` (internal/realtime/hub.go).
use convoy_backend.Base.{◌⊎◌, if◌then◌else◌, ==→eq, arith, none, some, refl, sym, inl, inr}
use convoy_backend.Base.{none, some, refl, sym, inl, inr}
use convoy_backend.Base.Maps.{Map, lookup-put, put, lookup}
use convoy_backend.Realtime.Hub.{
  new_room_state, created, assign, insert_client, close_existing, read_state, set_state, state_of,
  RoomState, Hub,
}
use convoy_backend.Base.{
  ◌==◌, some, none, Bool-cases, ne→==, sym, ==_refl, ◌∙◌, Option-cases, ap, ◌<◌, Option, ℕ, ◌≡◌,
  ◌≢◌, refl, inl, inr,
}

-- Two rooms never share a state, and no room has a state that is not allocated.
pub record IsApart (h : Hub) : Type 0 where
  pub distinct : (r r' a : ℕ) → lookup r h.rooms ≡ some a → lookup r' h.rooms ≡ some a → r ≡ r'
  pub allocated : (r a : ℕ) → lookup r h.rooms ≡ some a → a < h.next_state

-- the client of a user in a room
abbrev pub client_at : ℕ → ℕ → Hub → Option ℕ
client_at room user h = lookup user (state_of room h).clients

-- the clients of everybody else, in this room and in the others
abbrev pub OthersStay : ℕ → ℕ → Hub → Hub → Type 0
OthersStay room user h h' =
    (r u : ℕ) → ((r ≡ room) × (u ≡ user) → ⊥) → client_at r u h' ≡ client_at r u h

-- a room that exists, with its state at `a`
module _ (room a : ℕ) (h : Hub) (found : lookup room h.rooms ≡ some a) where
  pub state_of-found : state_of room h ≡ h.states a
  state_of-found = ap (read_state h) found

-- what a new state at `a` shows of a room
module _ (room a : ℕ) (rs : RoomState) (h : Hub) where
  pub read-assign_here : lookup room h.rooms ≡ some a → state_of room (set_state a rs h) ≡ rs
  read-assign_here found = ap (read_state (set_state a rs h)) found ∙ rw (==_refl a) refl

  read-assign_there :
      (r : ℕ)
      → IsApart h
      → lookup room h.rooms ≡ some a
      → r ≢ room
      → state_of r (set_state a rs h) ≡ state_of r h
  read-assign_there r apart found differ = elim (Option-cases (lookup r h.rooms)) [
    | inl n ↦ ap (read_state (set_state a rs h)) n ∙ sym (ap (read_state h) n)
    | inr (b, e) ↦
        let other : a ≢ b =
          λ same. differ (apart.distinct r room a (e ∙ ap some (sym same)) found) in
        ap (read_state (set_state a rs h)) e ∙ rw (ne→== a b other) (sym (ap (read_state h) e))
  ]

-- Only the rooms and their states show who is present.
module _ (h h' : Hub) (rooms : h'.rooms ≡ h.rooms) (states : h'.states ≡ h.states) where
  pub state_of-same : (r : ℕ) → state_of r h' ≡ state_of r h
  state_of-same r = elim (Option-cases (lookup r h.rooms)) [
    | inl n ↦ ap (read_state h') (ap (lookup r) rooms ∙ n) ∙ sym (ap (read_state h) n)
    | inr (b, e) ↦
        ap (read_state h') (ap (lookup r) rooms ∙ e)
        ∙ ap (λ f. f b) states
        ∙ sym (ap (read_state h) e)
  ]

-- A new state that keeps the clients of all users but one.
pub others-stay :
    (room a user : ℕ) (rs : RoomState) (h h' : Hub)
    → IsApart h
    → lookup room h.rooms ≡ some a
    → ((r : ℕ) → state_of r h' ≡ state_of r (set_state a rs h))
    → ((u : ℕ) → u ≢ user → lookup u rs.clients ≡ lookup u (h.states a).clients)
    → OthersStay room user h h'
others-stay room a user rs h h' apart found state keeps r u differ = elim (Bool-cases (r == room)) [
  | inl e ↦
      let same : r ≡ room = ==→eq r room e in
      ap (λ (s : RoomState). lookup u s.clients)
        (state r
          ∙ ap (λ q. state_of q (set_state a rs h)) same
          ∙ read-assign_here room a rs h found)
      ∙ keeps u (λ eu. differ (same, eu))
      ∙ ap (λ (s : RoomState). lookup u s.clients)
          (sym (ap (λ q. state_of q h) same ∙ state_of-found room a h found))
  | inr e ↦
      ap (λ (s : RoomState). lookup u s.clients)
        (state r ∙ read-assign_there room a rs h r apart found (λ same. ground arith))
]

pub close_existing-rooms : (o : Option ℕ) (h : Hub) → (close_existing o h).rooms ≡ h.rooms
close_existing-rooms none h = refl
close_existing-rooms (some old) h = refl

pub close_existing-states : (o : Option ℕ) (h : Hub) → (close_existing o h).states ≡ h.states
close_existing-states none h = refl
close_existing-states (some old) h = refl

module _ (room a c : ℕ) (h : Hub) (apart : IsApart h) (found : lookup room h.rooms ≡ some a) where
  joined_state : RoomState
  joined_state = record (h.states a) { clients = put (h.conns c).user c (h.states a).clients }

  insert_client-state :
      (r : ℕ) → state_of r (insert_client a c h).1 ≡ state_of r (set_state a joined_state h)
  unfolding insert_client joined_state
  insert_client-state r =
      let o = lookup (h.conns c).user (h.states a).clients in
      state_of-same (set_state a joined_state h) (insert_client a c h).1 (close_existing-rooms o h)
        (ap (assign a joined_state) (close_existing-states o h)) r

  pub insert_client-here : client_at room (h.conns c).user (insert_client a c h).1 ≡ some c
  unfolding joined_state
  insert_client-here =
      ap (λ (s : RoomState). lookup (h.conns c).user s.clients)
        (insert_client-state room ∙ read-assign_here room a joined_state h found)
      ∙ lookup-put (h.conns c).user (h.conns c).user c (h.states a).clients
      ∙ ap (λ b. if b then some c else lookup (h.conns c).user (h.states a).clients)
          (==_refl (h.conns c).user)

  pub insert_client-others : OthersStay room (h.conns c).user h (insert_client a c h).1
  unfolding joined_state
  insert_client-others =
      others-stay room a (h.conns c).user joined_state h (insert_client a c h).1 apart found
        insert_client-state keeps
    where
      keeps :
          (u : ℕ)
          → u ≢ (h.conns c).user
          → lookup u joined_state.clients ≡ lookup u (h.states a).clients
      keeps u differ =
          lookup-put (h.conns c).user u c (h.states a).clients
          ∙ ap (λ b. if b then some c else lookup u (h.states a).clients)
              (ne→== (h.conns c).user u (λ e. differ (sym e)))

some_inj : {a b : ℕ} → some a ≡ some b → a ≡ b
some_inj {a} {b} e = ground arith

-- roomFor creates a state that shows nobody, and changes nothing else.
pub record Ready (room : ℕ) (h : Hub) (r : ℕ × Hub) : Type 0 where
  pub found : lookup room r.1.rooms ≡ some r.0
  pub apart : IsApart r.1
  pub same_clients : (q u : ℕ) → client_at q u r.1 ≡ client_at q u h
  pub same_conns : r.1.conns ≡ h.conns

module _ (room n : ℕ) (rooms : Map ℕ) where
  pub lookup-put_here : lookup room (put room n rooms) ≡ some n
  lookup-put_here =
      lookup-put room room n rooms
      ∙ ap (λ b. if b then some n else lookup room rooms) (==_refl room)

  lookup-put_there : (q : ℕ) → room ≢ q → lookup q (put room n rooms) ≡ lookup q rooms
  lookup-put_there q differ =
      lookup-put room q n rooms
      ∙ ap (λ b. if b then some n else lookup q rooms) (ne→== room q differ)

module _ (room : ℕ) (h : Hub) (apart : IsApart h) (missing : lookup room h.rooms ≡ none) where
  opened : Hub
  opened = (created room none h).1

  opened-states : (b : ℕ) → b < h.next_state → opened.states b ≡ h.states b
  unfolding opened
  opened-states b l = rw (ne→== h.next_state b (λ e. ground arith)) refl

  opened-state : (q : ℕ) → state_of q opened ≡ state_of q h
  unfolding opened
  opened-state q = elim (Bool-cases (room == q)) [
    | inl e ↦
        let same : room ≡ q = ==→eq room q e in
        ap (λ r. state_of r opened) (sym same)
        ∙ ap (read_state opened) (lookup-put_here room h.next_state h.rooms)
        ∙ ap (λ b. if b then new_room_state else h.states h.next_state) (==_refl h.next_state)
        ∙ sym (ap (read_state h) missing)
        ∙ ap (λ r. state_of r h) same
    | inr e ↦
        let there = lookup-put_there room h.next_state h.rooms q (λ same. ground arith) in
        elim (Option-cases (lookup q h.rooms)) [
          | inl none' ↦ ap (read_state opened) (there ∙ none') ∙ sym (ap (read_state h) none')
          | inr (b, f) ↦
              ap (read_state opened) (there ∙ f)
              ∙ opened-states b (apart.allocated q b f)
              ∙ sym (ap (read_state h) f)
        ]
  ]

  -- a room of the map after the creation
  opened-room :
      (q b : ℕ)
      → lookup q opened.rooms ≡ some b
      → ((q ≡ room) × (b ≡ h.next_state)) ⊎ (lookup q h.rooms ≡ some b)
  unfolding opened
  opened-room q b e = elim (Bool-cases (room == q)) [
    | inl f ↦
        let same : room ≡ q = ==→eq room q f in
        let g : lookup q (put room h.next_state h.rooms) ≡ some h.next_state =
          ap (λ r. lookup r (put room h.next_state h.rooms)) (sym same)
          ∙ lookup-put_here room h.next_state h.rooms in
        inl (sym same, some_inj (sym e ∙ g))
    | inr f ↦ inr (sym (lookup-put_there room h.next_state h.rooms q (λ same. ground arith)) ∙ e)
  ]

  opened-IsApart : IsApart opened
  unfolding opened
  opened-IsApart = record {
    distinct = λ r r' b e e'. elim (opened-room r b e) [
      | inl (p, n) ↦ elim (opened-room r' b e') [
        | inl (p', n') ↦ p ∙ sym p'
        | inr f' ↦ let l = apart.allocated r' b f' in ground arith
      ]
      | inr f ↦ elim (opened-room r' b e') [
        | inl (p', n') ↦ let l = apart.allocated r b f in ground arith
        | inr f' ↦ apart.distinct r r' b f f'
      ]
    ];
    allocated = λ r b e. elim (opened-room r b e) [
      | inl (p, n) ↦ omega (arith, n)
      | inr f ↦ let l = apart.allocated r b f in omega (arith, l)
    ];
  }

pub created-Ready :
    (room : ℕ) (h : Hub) (o : Option ℕ)
    → IsApart h
    → lookup room h.rooms ≡ o
    → Ready room h (created room o h)
unfolding opened
created-Ready room h (some a) apart e = record {
  found = e;
  apart = apart;
  same_clients = λ q u. refl;
  same_conns = refl;
}
created-Ready room h none apart e = record {
  found = lookup-put_here room h.next_state h.rooms;
  apart = opened-IsApart room h apart e;
  same_clients = λ q u. ap (λ (s : RoomState). lookup u s.clients) (opened-state room h apart e q);
  same_conns = refl;
}
