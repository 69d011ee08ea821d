-- ===== src/Realtime/Reach.antt =====
-- Whom `broadcast` (internal/realtime/hub.go) reaches.
use convoy_backend.Realtime.Presence.{state_of-found, client_at}
use convoy_backend.Realtime.Fanout.{broadcast_packed, broadcast_at, broadcast}
use convoy_backend.Base.{some, refl, sym, true, false}
use convoy_backend.Realtime.Hub.{RoomState, set_conn, Hub}
use convoy_backend.Realtime.Fanout.{excluded, enqueue_all, targets}
use convoy_backend.Base.Maps.{Map, lookup}
use convoy_backend.Realtime.Message.{pack, Frame}
use convoy_backend.Realtime.Client.{enqueue, Client}
use convoy_backend.Base.{
  ne→==, ==_refl, if◌then◌else◌, if◌then◌else◌, ◌∙◌, ◌∙◌, subst, ==→eq, ◌==◌, sym, ap, ◌==◌, arith,
  Bool-cases, In, Option, List, ℕ, ◌≡◌, refl, true, false, some, inl, inr, [], ◌∷◌,
}

abbrev Distinct : List ℕ → Type 0
Distinct [] = Unit
Distinct (c ∷ cs) = (In c cs → ⊥) × Distinct cs

-- each user stands once
abbrev pub UniqueKeys : Map ℕ → Type 0
UniqueKeys [] = Unit
UniqueKeys ((u, c) ∷ m) = ((d : ℕ) → In (u, d) m → ⊥) × UniqueKeys m

-- each user stands once, with a client of its own
pub record IsFiled (conns : ℕ → Client) (m : Map ℕ) : Type 0 where
  pub unique : UniqueKeys m
  pub own : (u c : ℕ) → In (u, c) m → (conns c).user ≡ u

same_pair : (u v c d : ℕ) → v ≡ u → some d ≡ some c → ◌≡◌ {A = ℕ × ℕ} (u, c) (v, d)
same_pair u v c d e f =
    let g : d ≡ c = ground arith in
    let left : ◌≡◌ {A = ℕ × ℕ} (v, d) (u, d) = ap (λ x. (x, d)) e in
    let right : ◌≡◌ {A = ℕ × ℕ} (u, d) (u, c) = ap (λ y. (u, y)) g in sym (left ∙ right)

pub In-lookup : (u c : ℕ) (m : Map ℕ) → lookup u m ≡ some c → In (u, c) m
unfolding lookup
In-lookup u c [] e = ground arith
In-lookup u c ((v, d) ∷ m) e = elim (Bool-cases (v == u)) [
  | inl f ↦ inl (same_pair u v c d (==→eq v u f) (rw f at e))
  | inr f ↦ inr (In-lookup u c m (rw f at e))
]

lookup-In : (u c : ℕ) (m : Map ℕ) → UniqueKeys m → In (u, c) m → lookup u m ≡ some c
unfolding lookup
lookup-In u c [] q i = absurd i
lookup-In u c ((v, d) ∷ m) (q, r) (inl same) =
    let eu : v ≡ u = sym (ap (λ p. p.0) same) in
    let ed : d ≡ c = sym (ap (λ p. p.1) same) in
    ap (λ x. if x then some d else lookup u m) (ap (λ x. v == x) (sym eu) ∙ ==_refl v) ∙ ap some ed
lookup-In u c ((v, d) ∷ m) (q, r) (inr i) =
    ap (λ x. if x then some d else lookup u m)
      (ne→== v u (λ e. q c (subst (λ x. In (x, c) m) (sym e) i)))
    ∙ lookup-In u c m r i

In-targets :
    (exclude : Option ℕ) (m : Map ℕ) (c : ℕ)
    → In c (targets exclude m)
    → (u : ℕ) × In (u, c) m × (excluded exclude u ≡ false)
In-targets exclude [] c i = absurd i
In-targets exclude ((u, d) ∷ m) c i = elim (Bool-cases (excluded exclude u)) [
  | inl e ↦ let (v, j, f) = In-targets exclude m c (rw e at i) in (v, inr j, f)
  | inr e ↦ elim (let j : In c (d ∷ targets exclude m) = rw e at i in j) [
    | inl same ↦ (u, inl (ap (λ x. (u, x)) same), e)
    | inr j ↦ let (v, k, f) = In-targets exclude m c j in (v, inr k, f)
  ]
]

targets-In :
    (exclude : Option ℕ) (m : Map ℕ) (u c : ℕ)
    → In (u, c) m
    → excluded exclude u ≡ false
    → In c (targets exclude m)
targets-In exclude [] u c i e = absurd i
targets-In exclude ((v, d) ∷ m) u c (inl same) e =
    let eu : u ≡ v = ap (λ p. p.0) same in
    let f : excluded exclude v ≡ false = ap (excluded exclude) (sym eu) ∙ e in
    rw f (inl (ap (λ p. p.1) same))
targets-In exclude ((v, d) ∷ m) u c (inr i) e = elim (Bool-cases (excluded exclude v)) [
  | inl f ↦ rw f (targets-In exclude m u c i e)
  | inr f ↦ rw f (inr (targets-In exclude m u c i e))
]

targets-Distinct :
    (exclude : Option ℕ) (conns : ℕ → Client) (m : Map ℕ)
    → IsFiled conns m
    → Distinct (targets exclude m)
targets-Distinct exclude conns [] h = tt
targets-Distinct exclude conns ((u, c) ∷ m) h =
    let rest =
      targets-Distinct exclude conns m
        (record { unique = h.unique.1; own = λ v d i. h.own v d (inr i) }) in
    elim (Bool-cases (excluded exclude u)) [
      | inl e ↦ rw e rest
      | inr e ↦ rw e (
        (λ i.
            let (v, j, f) = In-targets exclude m c i in
            let same : v ≡ u = sym (h.own v c (inr j)) ∙ h.own u c (inl refl) in
            h.unique.0 c (subst (λ w. In (w, c) m) same j)),
        rest,
      )
    ]

module _ (b : Frame) where
  enqueue_all-other :
      (cs : List ℕ) (h : Hub) (c : ℕ) → (In c cs → ⊥) → (enqueue_all b cs h).conns c ≡ h.conns c
  unfolding enqueue_all
  enqueue_all-other [] h c out = refl
  enqueue_all-other (d ∷ cs) h c out =
      enqueue_all-other cs (set_conn d (enqueue b (h.conns d)) h) c (λ i. out (inr i))
      ∙ ap (λ x. if x then enqueue b (h.conns d) else h.conns c)
          (ne→== d c (λ e. out (inl (sym e))))

  enqueue_all-target :
      (cs : List ℕ) (h : Hub) (c : ℕ)
      → Distinct cs
      → In c cs
      → (enqueue_all b cs h).conns c ≡ enqueue b (h.conns c)
  unfolding enqueue_all
  enqueue_all-target [] h c distinct i = absurd i
  enqueue_all-target (d ∷ cs) h c (apart, distinct) (inl same) =
      enqueue_all-other cs (set_conn d (enqueue b (h.conns d)) h) c
        (λ i. apart (subst (λ x. In x cs) same i))
      ∙ ap (λ x. if x then enqueue b (h.conns d) else h.conns c) (ap (λ x. d == x) same ∙ ==_refl d)
      ∙ ap (λ x. enqueue b (h.conns x)) (sym same)
  enqueue_all-target (d ∷ cs) h c (apart, distinct) (inr i) =
      enqueue_all-target cs (set_conn d (enqueue b (h.conns d)) h) c distinct i
      ∙ ap (enqueue b) (
          ap (λ x. if x then enqueue b (h.conns d) else h.conns c)
            (ne→== d c (λ e. apart (subst (λ x. In x cs) (sym e) i))))

contrary : false ≡ true → ⊥
contrary e = ground arith

-- A broadcast enqueues its frame once for every client of the room but the excluded user's, and touches
-- no other connection.
pub record Reached (room : ℕ) (b : Frame) (exclude : Option ℕ) (h h' : Hub) : Type 0 where
  pub others_get :
      (u c : ℕ)
      → client_at room u h ≡ some c
      → excluded exclude u ≡ false
      → h'.conns c ≡ enqueue b (h.conns c)
  pub rest_stay :
      (c : ℕ)
      → ((u : ℕ) → client_at room u h ≡ some c → excluded exclude u ≡ true)
      → h'.conns c ≡ h.conns c

module _ (room a : ℕ) (f b : Frame) (exclude : Option ℕ) (h : Hub)
    (found : lookup room h.rooms ≡ some a) (encoded : pack f ≡ some b)
    (filed : IsFiled h.conns (h.states a).clients) where
  told_all : broadcast room f exclude h ≡ enqueue_all b (targets exclude (h.states a).clients) h
  unfolding broadcast
  told_all =
      ap (λ o. broadcast_at exclude o f h) found ∙ ap (λ o. broadcast_packed exclude a o h) encoded

  shown : (u : ℕ) → client_at room u h ≡ lookup u (h.states a).clients
  shown u = ap (λ (s : RoomState). lookup u s.clients) (state_of-found room a h found)

  -- Where each user stands once among the room's clients, with a client of its own, a frame that
  -- encodes is enqueued exactly once for the client of each user but the excluded one, and every other
  -- connection stays as it was.
  pub broadcast-Reached : Reached room b exclude h (broadcast room f exclude h)
  broadcast-Reached =
      let clients = (h.states a).clients in
      let distinct = targets-Distinct exclude h.conns clients filed in
      record {
        others_get = λ u c e out.
            ap (λ (g : Hub). g.conns c) told_all
            ∙ enqueue_all-target b (targets exclude clients) h c distinct
                (targets-In exclude clients u c (In-lookup u c clients (sym (shown u) ∙ e)) out);
        rest_stay = λ c none_else.
            ap (λ (g : Hub). g.conns c) told_all
            ∙ enqueue_all-other b (targets exclude clients) h c (λ i.
              let (u, j, out) = In-targets exclude clients c i in
              let e = none_else u (shown u ∙ lookup-In u c clients filed.unique j) in
              contrary (sym out ∙ e));
      }
