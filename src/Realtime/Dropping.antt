-- ===== src/Realtime/Dropping.antt =====
-- What `leave` (internal/realtime/hub.go) does to a room that has become empty.
use convoy_backend.Base.{none, some, refl, sym, inl, inr, [], ◌∷◌}
use convoy_backend.Base.{
  arith, ==_refl, ne→==, if◌then◌else◌, length, ==→eq, ◌==◌, Bool-cases, none, some, refl, sym, inl,
  inr, [], ◌∷◌,
}
use convoy_backend.Base.Maps.{lookup-remove, Map, remove, lookup}
use convoy_backend.Realtime.Presence.{state_of-found, client_at, IsApart}
use convoy_backend.Realtime.Hub.{
  drop_if_empty, dropped, read_state, no_clients, RoomState, room_for, Hub,
}
use convoy_backend.Base.{
  ◌∙◌, sym, ap, Option, ℕ, ◌≡◌, ◌≢◌, refl, true, none, some, inl, inr, [], ◌∷◌,
}

-- A room without clients may be dropped: nobody's presence changes.
no_clients-nil : (rs : RoomState) → no_clients rs ≡ true → rs.clients ≡ []
no_clients-nil rs e = length-nil rs.clients (==→eq _ _ e)
  where
    length-nil : (m : Map ℕ) → length m ≡ 0 → m ≡ []
    length-nil [] e = refl
    length-nil (x ∷ m) e = ground arith

pub lookup-remove_there :
    {V : Type 0} (k j : ℕ) (m : Map V) → j ≢ k → lookup j (remove k m) ≡ lookup j m
lookup-remove_there k j m differ =
    lookup-remove k j m ∙ ap (λ b. if b then none else lookup j m) (ne→== k j (λ e. differ (sym e)))

pub lookup-remove_here : {V : Type 0} (k : ℕ) (m : Map V) → lookup k (remove k m) ≡ none
lookup-remove_here k m = lookup-remove k k m ∙ ap (λ b. if b then none else lookup k m) (==_refl k)

pub absent_found : {A : Type 0} (v : A) → none ≡ some v → ⊥
absent_found v e = ground arith

found_before :
    {V : Type 0} (k j : ℕ) (v : V) (m : Map V)
    → lookup j (remove k m) ≡ some v
    → lookup j m ≡ some v
found_before k j v m e = elim (Bool-cases (k == j)) [
  | inl f ↦
      absurd (
        absent_found v (sym (lookup-remove k j m ∙ ap (λ b. if b then none else lookup j m) f) ∙ e))
  | inr f ↦ sym (lookup-remove k j m ∙ ap (λ b. if b then none else lookup j m) f) ∙ e
]

pub lookup-empty : {V : Type 0} (k : ℕ) → lookup {V = V} k [] ≡ none
unfolding lookup
lookup-empty k = refl

module _ (room a : ℕ) (h : Hub) (found : lookup room h.rooms ≡ some a) where
  dropped_hub : Hub
  dropped_hub = record h { rooms = remove room h.rooms }

  dropped-client_at :
      (h.states a).clients ≡ [] → (r u : ℕ) → client_at r u dropped_hub ≡ client_at r u h
  unfolding dropped_hub lookup
  dropped-client_at empty r u = elim (Bool-cases (r == room)) [
    | inl e ↦
        let same : r ≡ room = ==→eq r room e in
        ap (λ q. client_at q u dropped_hub) same
        ∙ ap (λ o. lookup u (read_state dropped_hub o).clients) (lookup-remove_here room h.rooms)
        ∙ sym (
            ap (λ q. client_at q u h) same
            ∙ ap (λ (s : RoomState). lookup u s.clients) (state_of-found room a h found)
            ∙ ap (lookup u) empty)
    | inr e ↦
        ap (λ o. lookup u (read_state dropped_hub o).clients)
          (lookup-remove_there room r h.rooms (λ same. ground arith))
  ]

  dropped-IsApart : IsApart h → IsApart dropped_hub
  unfolding dropped_hub
  dropped-IsApart apart = record {
    distinct = λ r r' b e e'.
        apart.distinct r r' b (found_before room r b h.rooms e) (found_before room r' b h.rooms e');
    allocated = λ r b e. apart.allocated r b (found_before room r b h.rooms e);
  }

drop-client_at :
    (room : ℕ) (h : Hub) (o : Option ℕ)
    → lookup room h.rooms ≡ o
    → (r u : ℕ) → client_at r u (dropped room o h) ≡ client_at r u h
unfolding dropped_hub
drop-client_at room h none e r u = refl
drop-client_at room h (some a) e r u = elim (Bool-cases (no_clients (h.states a))) [
  | inl n ↦ rw n (dropped-client_at room a h e (no_clients-nil (h.states a) n) r u)
  | inr n ↦ rw n refl
]

pub drop-IsApart :
    (room : ℕ) (h : Hub) (o : Option ℕ)
    → lookup room h.rooms ≡ o
    → IsApart h
    → IsApart (dropped room o h)
unfolding dropped_hub
drop-IsApart room h none e apart = apart
drop-IsApart room h (some a) e apart = elim (Bool-cases (no_clients (h.states a))) [
  | inl n ↦ rw n (dropped-IsApart room a h e apart)
  | inr n ↦ rw n apart
]

-- what leave does after the client is removed
abbrev pub tidied : ℕ → ℕ → Hub → Hub
tidied room a h = if no_clients (h.states a) then drop_if_empty room h else h

pub tidied-client_at :
    (room a : ℕ) (h : Hub) (r u : ℕ) → client_at r u (tidied room a h) ≡ client_at r u h
unfolding drop_if_empty
tidied-client_at room a h r u = elim (Bool-cases (no_clients (h.states a))) [
  | inl n ↦ rw n (drop-client_at room h (room_for room h) refl r u)
  | inr n ↦ rw n refl
]

pub tidied-IsApart : (room a : ℕ) (h : Hub) → IsApart h → IsApart (tidied room a h)
unfolding drop_if_empty
tidied-IsApart room a h apart = elim (Bool-cases (no_clients (h.states a))) [
  | inl n ↦ rw n (drop-IsApart room h (room_for room h) refl apart)
  | inr n ↦ rw n apart
]
