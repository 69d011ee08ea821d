-- ===== src/Realtime/Shutting.antt =====
-- What stays of a close of a client (internal/realtime/client.go), whatever runs after it.
use convoy_backend.Realtime.Sections.{IsSound}
use convoy_backend.Realtime.Delivery.{kick_connection-closes}
use convoy_backend.Realtime.Reach.{In-lookup}
use convoy_backend.Realtime.Dropping.{lookup-empty, absent_found}
use convoy_backend.Base.Maps.{lookup}
use convoy_backend.Realtime.Presence.{client_at}
use convoy_backend.Realtime.Soundness.{Run-IsSound}
use convoy_backend.Realtime.Message.{Frame}
use convoy_backend.Realtime.Hub.{
  new_hub, room_for, read_state, close_existing, no_clients, is_current, drop_if_empty, set_state,
  created, insert_client, RoomState, dropped, set_conn, Hub, room_for_create, remove_client, flag,
}
use convoy_backend.Realtime.Client.{send_buffer, Client, close, enqueue}
use convoy_backend.Base.{
  if◌then◌else◌, if◌then◌else◌, ap, not, ◌&&◌, ◌&&◌, ==→eq, inr, none, refl, ◌∙◌, some, length, inl,
  ◌∙◌, sym, ◌≤◌, ◌==◌, ◌==◌, some, subst, true, ltb, arith, ◌≤◌, is_some, ◌<◌, ◌≡◌, ◌≡◌, ne→==,
  Bool-cases, Bool, ◌<◌, String, Option, ℕ,
}
use convoy_backend.Realtime.Steps.{
  takes, closes, enqueues, locates, flags, drops, removes, inserts, kick_connection-Run, opens,
  connects, Step, Run, begun, later,
}
use convoy_backend.Realtime.Handler.{allocated}
use convoy_backend.Realtime.Fanout.{close_conn, kick_connection}

-- An operation keeps a close and its reason.
abbrev KeepsClose : Client → Client → Type 0
KeepsClose c d = c.closed ≡ true → (d.closed ≡ true) × (d.reason ≡ c.reason)

close-KeepsClose : (reason : String) (c : Client) → KeepsClose c (close reason c)
unfolding close
close-KeepsClose reason c e =
    let same : close reason c ≡ c =
      ap (λ b. if b then c else record c { closed = true; reason = reason }) e in
    (ap (λ (x : Client). x.closed) same ∙ e, ap (λ (x : Client). x.reason) same)

enqueue-KeepsClose : (b : Frame) (c : Client) → KeepsClose c (enqueue b c)
unfolding enqueue
enqueue-KeepsClose b c e = elim (Bool-cases (ltb (length c.send) send_buffer)) [
  | inl f ↦ rw f (e, refl)
  | inr f ↦ rw f (close-KeepsClose "send buffer full" c e)
]

-- An allocated client keeps its close; and it stays allocated.
pub record Lasts (h g : Hub) : Type 0 where
  pub closes : (c : ℕ) → c < h.next_conn → KeepsClose (h.conns c) (g.conns c)
  pub stays : h.next_conn ≤ g.next_conn

same_conns-Lasts : (h g : Hub) → g.conns ≡ h.conns → g.next_conn ≡ h.next_conn → Lasts h g
same_conns-Lasts h g conns next = record {
  closes = λ c l e.
      subst (λ f. ((f c).closed ≡ true) × ((f c).reason ≡ (h.conns c).reason)) (sym conns)
        (e, refl);
  stays = omega (arith, next);
}

set_conn-Lasts :
    (c : ℕ) (d : Client) (h : Hub) → KeepsClose (h.conns c) d → Lasts h (set_conn c d h)
set_conn-Lasts c d h keeps = record {
  closes = λ x l e. elim (Bool-cases (c == x)) [
    | inl f ↦
        let same = ==→eq c x f in
        rw f (
          subst (λ y. (d.closed ≡ true) × (d.reason ≡ (h.conns y).reason)) same
            (keeps (subst (λ y. (h.conns y).closed ≡ true) (sym same) e)))
    | inr f ↦ rw f (e, refl)
  ];
  stays = omega arith;
}

created-Lasts : (room : ℕ) (o : Option ℕ) (h : Hub) → Lasts h (created room o h).1
created-Lasts room none h = same_conns-Lasts h _ refl refl
created-Lasts room (some a) h = same_conns-Lasts h _ refl refl

close_existing-Lasts :
    (o : Option ℕ) (a : ℕ) (rs : RoomState) (h : Hub)
    → Lasts h (set_state a rs (close_existing o h))
close_existing-Lasts none a rs h = same_conns-Lasts h _ refl refl
close_existing-Lasts (some old) a rs h =
    let s = set_conn-Lasts old _ h (close-KeepsClose "replaced by new connection" (h.conns old)) in
    record { closes = s.closes; stays = s.stays }

removed-Lasts : (a c : ℕ) (h : Hub) → Lasts h (remove_client a c h).1
unfolding remove_client
removed-Lasts a c h =
    elim (Bool-cases (is_current c (lookup (h.conns c).user (h.states a).clients))) [
      | inl e ↦ rw e (same_conns-Lasts h _ refl refl)
      | inr e ↦ rw e (same_conns-Lasts h _ refl refl)
    ]

dropped-Lasts : (room : ℕ) (o : Option ℕ) (h : Hub) → Lasts h (dropped room o h)
dropped-Lasts room none h = same_conns-Lasts h _ refl refl
dropped-Lasts room (some a) h = elim (Bool-cases (no_clients (h.states a))) [
  | inl e ↦ rw e (same_conns-Lasts h _ refl refl)
  | inr e ↦ rw e (same_conns-Lasts h _ refl refl)
]

flag-Lasts : (a user : ℕ) (active : Bool) (h : Hub) → Lasts h (flag a user active h).1
unfolding flag
flag-Lasts a user active h =
    let has = is_some (lookup user (h.states a).emergencies) in
    elim (Bool-cases (active && not has)) [
      | inl e ↦ rw e (same_conns-Lasts h _ refl refl)
      | inr e ↦ elim (Bool-cases (not active && has)) [
        | inl f ↦ rw (e, f) (same_conns-Lasts h _ refl refl)
        | inr f ↦ rw (e, f) (same_conns-Lasts h _ refl refl)
      ]
    ]

allocated-Lasts : (user room : ℕ) (h : Hub) → Lasts h (allocated user room h)
allocated-Lasts user room h = record {
  closes = λ c l e. rw (ne→== h.next_conn c (λ f. omega (arith, f, l))) (e, refl);
  stays = omega arith;
}

Step-Lasts : {h g : Hub} → Step h g → Lasts h g
unfolding room_for_create insert_client drop_if_empty close_conn
Step-Lasts {h} (connects user room) = allocated-Lasts user room h
Step-Lasts {h} (opens room) = created-Lasts room (room_for room h) h
Step-Lasts {h} (inserts a c known) =
    close_existing-Lasts (lookup (h.conns c).user (h.states a).clients) a _ h
Step-Lasts {h} (removes a c) = removed-Lasts a c h
Step-Lasts {h} (drops room) = dropped-Lasts room (room_for room h) h
Step-Lasts {h} (flags a user active) = flag-Lasts a user active h
Step-Lasts {h} (locates a ev) = same_conns-Lasts h _ refl refl
Step-Lasts {h} (enqueues c b) = set_conn-Lasts c _ h (enqueue-KeepsClose b (h.conns c))
Step-Lasts {h} (closes c reason) = set_conn-Lasts c _ h (close-KeepsClose reason (h.conns c))
Step-Lasts {h} (takes c) = set_conn-Lasts c _ h (λ e. (e, refl))

pub Run-Lasts : {h g : Hub} → Run h g → Lasts h g
Run-Lasts {h} begun = same_conns-Lasts h h refl refl
Run-Lasts {h} (later r s) =
    let before = Run-Lasts r in
    let last = Step-Lasts s in
    record {
      closes = λ c l e.
          let (closed, reason) = before.closes c l e in
          let m = before.stays in
          let (closed', reason') = last.closes c (omega (arith, l, m)) closed in
          (closed', reason' ∙ reason);
      stays = let m = before.stays in let n = last.stays in omega (arith, m, n);
    }

known_in :
    (user c : ℕ) (h : Hub) (o : Option ℕ)
    → IsSound h
    → lookup user (read_state h o).clients ≡ some c
    → c < h.next_conn
known_in user c h none sound e = absurd (absent_found c (sym (lookup-empty user) ∙ e))
known_in user c h (some a) sound e = sound.known a user c (In-lookup user c (h.states a).clients e)

-- In a hub that any requests lead to, the connection that the target of a kick has in the room is
-- closed by the kick, and stays closed for the reason it then has, whatever requests run afterwards and
-- however they interleave.
pub kick_connection-closes_for_good :
    (conns : ℕ → Client) (room user by c : ℕ) {h g : Hub}
    → Run (new_hub conns) h
    → client_at room user h ≡ some c
    → Run (kick_connection room user by h) g
    → ((g.conns c).closed ≡ true)
      × ((g.conns c).reason ≡ ((kick_connection room user by h).conns c).reason)
kick_connection-closes_for_good conns room user by c {h} run here after =
    let m = (Run-Lasts (kick_connection-Run room user by h)).stays in
    let l = known_in user c h (room_for room h) (Run-IsSound conns run) here in
    (Run-Lasts after).closes c (omega (arith, l, m)) (kick_connection-closes room user by c h here)
