-- ===== src/Realtime/Filing.antt =====
-- The filing of clients that broadcasts rely on, in the parts of `join` and `leave`
-- (internal/realtime/hub.go).
use convoy_backend.Realtime.Hub.{no_clients, dropped, set_state, without_user}
use convoy_backend.Realtime.Presence.{close_existing-states}
use convoy_backend.Realtime.Reach.{UniqueKeys, IsFiled}
use convoy_backend.Base.Maps.{remove, lookup, Map, put}
use convoy_backend.Realtime.Client.{Client, close}
use convoy_backend.Base.{
  arith, subst, ==→eq, ◌⊎◌, ◌==◌, ◌⊎◌, ◌==◌, ◌∙◌, Bool-cases, ap, In, ◌∙◌, String, Option, ℕ, ◌≡◌,
  refl, sym, none, some, inl, inr, [], ◌∷◌,
}
use convoy_backend.Realtime.Hub.{created, close_existing, insert_client, Hub}

-- A change of the map that gives a user a client of its own.
pub In-put :
    (k v u d : ℕ) (m : Map ℕ)
    → In (u, d) (put k v m)
    → (◌≡◌ {A = ℕ × ℕ} (u, d) (k, v)) ⊎ In (u, d) m
unfolding put
In-put k v u d [] (inl e) = inl e
In-put k v u d [] (inr i) = absurd i
In-put k v u d ((j, w) ∷ m) i = elim (Bool-cases (j == k)) [
  | inl e ↦ elim (let p : In (u, d) ((k, v) ∷ m) = rw e at i in p) [
    | inl s ↦ inl s
    | inr r ↦ inr (inr r)
  ]
  | inr e ↦ elim (let p : In (u, d) ((j, w) ∷ put k v m) = rw e at i in p) [
    | inl s ↦ inr (inl s)
    | inr r ↦ elim (In-put k v u d m r) [ inl s ↦ inl s | inr t ↦ inr (inr t) ]
  ]
]

put-UniqueKeys : (k v : ℕ) (m : Map ℕ) → UniqueKeys m → UniqueKeys (put k v m)
unfolding put
put-UniqueKeys k v [] q = ((λ d i. absurd i), tt)
put-UniqueKeys k v ((j, w) ∷ m) (q, r) = elim (Bool-cases (j == k)) [
  | inl e ↦ rw e ((λ d i. q d (subst (λ x. In (x, d) m) (sym (==→eq j k e)) i)), r)
  | inr e ↦ rw e (
    (λ d i. elim (In-put k v j d m i) [
      | inl s ↦ let f : j ≡ k = ap (λ p. p.0) s in ground arith
      | inr t ↦ q d t
    ]),
    put-UniqueKeys k v m r,
  )
]

pub close-user : (reason : String) (c : Client) → (close reason c).user ≡ c.user
unfolding close
close-user reason c = elim (Bool-cases c.closed) [ inl e ↦ rw e refl | inr e ↦ rw e refl ]

pub close_existing-user :
    (o : Option ℕ) (h : Hub) (c : ℕ) → ((close_existing o h).conns c).user ≡ (h.conns c).user
close_existing-user none h c = refl
close_existing-user (some old) h c = elim (Bool-cases (old == c)) [
  | inl e ↦ rw e (
      close-user "replaced by new connection" (h.conns old)
      ∙ ap (λ x. (h.conns x).user) (==→eq old c e))
  | inr e ↦ rw e refl
]

-- In every state, each user stands once, with a client of its own.
abbrev pub FiledHub : Hub → Type 0
FiledHub h = (a : ℕ) → IsFiled h.conns (h.states a).clients

pub same_users-IsFiled :
    (conns conns' : ℕ → Client) (m : Map ℕ)
    → ((c : ℕ) → (conns' c).user ≡ (conns c).user)
    → IsFiled conns m
    → IsFiled conns' m
same_users-IsFiled conns conns' m same h = record {
  unique = h.unique;
  own = λ u c i. same c ∙ h.own u c i;
}

empty-IsFiled : (conns : ℕ → Client) → IsFiled conns []
empty-IsFiled conns = record { unique = tt; own = λ u c i. absurd i }

put-IsFiled :
    (conns : ℕ → Client) (c : ℕ) (m : Map ℕ)
    → IsFiled conns m
    → IsFiled conns (put (conns c).user c m)
put-IsFiled conns c m h = record {
  unique = put-UniqueKeys (conns c).user c m h.unique;
  own = λ u d i. elim (In-put (conns c).user c u d m i) [
    | inl s ↦
        let ku : u ≡ (conns c).user = ap (λ p. p.0) s in
        let kd : d ≡ c = ap (λ p. p.1) s in ap (λ x. (conns x).user) kd ∙ sym ku
    | inr j ↦ h.own u d j
  ];
}

pub created-FiledHub :
    (room : ℕ) (o : Option ℕ) (h : Hub) → FiledHub h → FiledHub (created room o h).1
created-FiledHub room (some a) h f b = f b
created-FiledHub room none h f b = elim (Bool-cases (h.next_state == b)) [
  | inl e ↦ rw e (empty-IsFiled h.conns)
  | inr e ↦ rw e (f b)
]

pub insert_client-FiledHub : (a c : ℕ) (h : Hub) → FiledHub h → FiledHub (insert_client a c h).1
unfolding insert_client
insert_client-FiledHub a c h f b =
    let o = lookup (h.conns c).user (h.states a).clients in
    same_users-IsFiled h.conns (close_existing o h).conns _ (λ d. close_existing-user o h d)
      (elim (Bool-cases (a == b)) [
        | inl e ↦ rw e (put-IsFiled h.conns c (h.states a).clients (f a))
        | inr e ↦ rw (e, close_existing-states o h) (f b)
      ])

pub In-remove : (k u d : ℕ) (m : Map ℕ) → In (u, d) (remove k m) → In (u, d) m
unfolding remove
In-remove k u d [] i = absurd i
In-remove k u d ((j, w) ∷ m) i = elim (Bool-cases (j == k)) [
  | inl e ↦ inr (In-remove k u d m (rw e at i))
  | inr e ↦ elim (let p : In (u, d) ((j, w) ∷ remove k m) = rw e at i in p) [
    | inl s ↦ inl s
    | inr r ↦ inr (In-remove k u d m r)
  ]
]

remove-UniqueKeys : (k : ℕ) (m : Map ℕ) → UniqueKeys m → UniqueKeys (remove k m)
unfolding remove
remove-UniqueKeys k [] q = tt
remove-UniqueKeys k ((j, w) ∷ m) (q, r) = elim (Bool-cases (j == k)) [
  | inl e ↦ rw e (remove-UniqueKeys k m r)
  | inr e ↦ rw e ((λ d i. q d (In-remove k j d m i)), remove-UniqueKeys k m r)
]

pub removed-FiledHub :
    (a user : ℕ) (h : Hub) → FiledHub h → FiledHub (set_state a (without_user user (h.states a)) h)
removed-FiledHub a user h f b = elim (Bool-cases (a == b)) [
  | inl e ↦ rw e (record {
    unique = remove-UniqueKeys user (h.states a).clients (f a).unique;
    own = λ u d i. (f a).own u d (In-remove user u d (h.states a).clients i);
  })
  | inr e ↦ rw e (f b)
]

pub dropped-FiledHub :
    (room : ℕ) (o : Option ℕ) (h : Hub) → FiledHub h → FiledHub (dropped room o h)
dropped-FiledHub room none h f b = f b
dropped-FiledHub room (some a) h f b = elim (Bool-cases (no_clients (h.states a))) [
  | inl e ↦ rw e (f b)
  | inr e ↦ rw e (f b)
]
