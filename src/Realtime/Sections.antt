-- ===== src/Realtime/Sections.antt =====
-- What each critical section of the hub (internal/realtime/hub.go) keeps.
use convoy_backend.Realtime.Message.{Frame}
use convoy_backend.Realtime.Transitions.{insert_client-IsApart}
use convoy_backend.Realtime.Reach.{IsFiled}
use convoy_backend.Realtime.Dropping.{lookup-empty, drop-IsApart, absent_found}
use convoy_backend.Base.Maps.{lookup}
use convoy_backend.Realtime.Filing.{
  dropped-FiledHub, same_users-IsFiled, insert_client-FiledHub, created-FiledHub, In-remove,
  close-user, removed-FiledHub, In-put, FiledHub,
}
use convoy_backend.Realtime.Presence.{created-Ready, IsApart}
use convoy_backend.Realtime.Message.{Frame}
use convoy_backend.Realtime.Hub.{
  room_for, no_clients, created, dropped, close_existing, assign, is_current, set_state, set_conn,
  flag, insert_client, new_hub, room_for_create, drop_if_empty, remove_client, RoomState, Hub,
}
use convoy_backend.Realtime.Client.{send_buffer, Client, enqueue}
use convoy_backend.Base.{
  none, some, ==→eq, refl, sym, ap, ◌∙◌, ◌∙◌, not, subst, inr, ◌&&◌, some, ◌&&◌, inl, length, ◌==◌,
  ◌==◌, [], In, is_some, ltb, ◌<◌, arith, ◌<◌, Bool-cases, Option, Bool, ◌≡◌, ne→==, ◌≡◌, ℕ,
}
use convoy_backend.Realtime.Handler.{allocated}

-- Rooms do not share states; in each state, a user stands once, with a client of its own that was
-- allocated.
pub record IsSound (h : Hub) : Type 0 where
  pub apart : IsApart h
  pub filed : FiledHub h
  pub known : (a u c : ℕ) → In (u, c) (h.states a).clients → c < h.next_conn

pub new_hub-IsSound : (conns : ℕ → Client) → IsSound (new_hub conns)
new_hub-IsSound conns = record {
  apart = record {
    distinct = λ r r' a e. absurd (nowhere a r e);
    allocated = λ r a e. absurd (nowhere a r e);
  };
  filed = λ a. record { unique = tt; own = λ u c i. absurd i };
  known = λ a u c i. absurd i;
}
  where
    nowhere : (a r : ℕ) → lookup r [] ≡ some a → ⊥
    nowhere a r e = absent_found a (sym (lookup-empty r) ∙ e)

-- A state whose clients are among those it had keeps the hub sound.
module _ (h : Hub) (sound : IsSound h) where
  pub kept_clients :
      (a : ℕ) (rs : RoomState) → rs.clients ≡ (h.states a).clients → IsSound (set_state a rs h)
  kept_clients a rs same = record {
    apart = record { distinct = sound.apart.distinct; allocated = sound.apart.allocated };
    filed = λ b. elim (Bool-cases (a == b)) [
      | inl e ↦ rw e (subst (IsFiled h.conns) (sym same) (sound.filed a))
      | inr e ↦ rw e (sound.filed b)
    ];
    known = λ b u c i. elim (Bool-cases (a == b)) [
      | inl e ↦ sound.known a u c (subst (λ m. In (u, c) m) same (rw e at i))
      | inr e ↦ sound.known b u c (rw e at i)
    ];
  }

  pub same_user : (c : ℕ) (d : Client) → d.user ≡ (h.conns c).user → IsSound (set_conn c d h)
  same_user c d same = record {
    apart = record { distinct = sound.apart.distinct; allocated = sound.apart.allocated };
    filed = λ b. same_users-IsFiled h.conns (assign c d h.conns) _ everyone (sound.filed b);
    known = sound.known;
  }
    where
      everyone : (x : ℕ) → (assign c d h.conns x).user ≡ (h.conns x).user
      everyone x = elim (Bool-cases (c == x)) [
        | inl e ↦ rw e (same ∙ ap (λ y. (h.conns y).user) (==→eq c x e))
        | inr e ↦ rw e refl
      ]

  pub allocated-IsSound : (user room : ℕ) → IsSound (allocated user room h)
  allocated-IsSound user room = record {
    apart = record { distinct = sound.apart.distinct; allocated = sound.apart.allocated };
    filed = λ b. record {
      unique = (sound.filed b).unique;
      own = λ u c i.
          let l = sound.known b u c i in
          rw (ne→== h.next_conn c (λ e. omega (arith, e, l))) ((sound.filed b).own u c i);
    };
    known = λ b u c i. let l = sound.known b u c i in omega (arith, l);
  }

  pub created-IsSound : (room : ℕ) → IsSound (room_for_create room h).1
  unfolding room_for_create
  created-IsSound room = record {
    apart = (created-Ready room h (room_for room h) sound.apart refl).apart;
    filed = created-FiledHub room (room_for room h) h sound.filed;
    known = created-known (room_for room h);
  }
    where
      created-known :
          (o : Option ℕ) (b u c : ℕ)
          → In (u, c) ((created room o h).1.states b).clients
          → c < (created room o h).1.next_conn
      created-known (some a) b u c i = sound.known b u c i
      created-known none b u c i = elim (Bool-cases (h.next_state == b)) [
        | inl e ↦ absurd (rw e at i)
        | inr e ↦ sound.known b u c (rw e at i)
      ]

  pub insert_client-IsSound : (a c : ℕ) → c < h.next_conn → IsSound (insert_client a c h).1
  unfolding insert_client
  insert_client-IsSound a c new = record {
    apart = insert_client-IsApart a c h sound.apart;
    filed = insert_client-FiledHub a c h sound.filed;
    known = inserted-known;
  }
    where
      o : Option ℕ
      o = lookup (h.conns c).user (h.states a).clients

      replaced-known :
          (p : Option ℕ) (b u d : ℕ)
          → In (u, d) ((close_existing p h).states b).clients
          → d < (close_existing p h).next_conn
      replaced-known none b u d i = sound.known b u d i
      replaced-known (some old) b u d i = sound.known b u d i

      still_known : (p : Option ℕ) (d : ℕ) → d < h.next_conn → d < (close_existing p h).next_conn
      still_known none d l = l
      still_known (some old) d l = l

      inserted-known :
          (b u d : ℕ)
          → In (u, d) ((insert_client a c h).1.states b).clients
          → d < (close_existing o h).next_conn
      inserted-known b u d i = elim (Bool-cases (a == b)) [
        | inl e ↦ elim (In-put (h.conns c).user c u d (h.states a).clients (rw e at i)) [
          | inl same ↦ still_known o d (subst (λ x. x < h.next_conn) (sym (ap (λ p. p.1) same)) new)
          | inr j ↦ still_known o d (sound.known a u d j)
        ]
        | inr e ↦ replaced-known o b u d (rw e at i)
      ]

  pub removed-IsSound : (a c : ℕ) → IsSound (remove_client a c h).1
  unfolding remove_client
  removed-IsSound a c =
      let user = (h.conns c).user in
      elim (Bool-cases (is_current c (lookup user (h.states a).clients))) [
        | inl e ↦ rw e (record {
          apart = record { distinct = sound.apart.distinct; allocated = sound.apart.allocated };
          filed = removed-FiledHub a user h sound.filed;
          known = λ b u d i. elim (Bool-cases (a == b)) [
            | inl f ↦ sound.known a u d (In-remove user u d (h.states a).clients (rw f at i))
            | inr f ↦ sound.known b u d (rw f at i)
          ];
        })
        | inr e ↦ rw e sound
      ]

  pub dropped-IsSound : (room : ℕ) → IsSound (drop_if_empty room h)
  unfolding drop_if_empty
  dropped-IsSound room = record {
    apart = drop-IsApart room h (room_for room h) refl sound.apart;
    filed = dropped-FiledHub room (room_for room h) h sound.filed;
    known = dropped-known (room_for room h);
  }
    where
      dropped-known :
          (o : Option ℕ) (b u c : ℕ)
          → In (u, c) ((dropped room o h).states b).clients
          → c < (dropped room o h).next_conn
      dropped-known none b u c i = sound.known b u c i
      dropped-known (some a) b u c i = elim (Bool-cases (no_clients (h.states a))) [
        | inl e ↦ rw e (sound.known b u c (rw e at i))
        | inr e ↦ rw e (sound.known b u c (rw e at i))
      ]

  pub flag-IsSound : (a user : ℕ) (active : Bool) → IsSound (flag a user active h).1
  unfolding flag
  flag-IsSound a user active =
      let has = is_some (lookup user (h.states a).emergencies) in
      elim (Bool-cases (active && not has)) [
        | inl e ↦ rw e (kept_clients a _ refl)
        | inr e ↦ elim (Bool-cases (not active && has)) [
          | inl f ↦ rw (e, f) (kept_clients a _ refl)
          | inr f ↦ rw (e, f) sound
        ]
      ]

pub enqueue-user : (b : Frame) (c : Client) → (enqueue b c).user ≡ c.user
unfolding enqueue
enqueue-user b c = elim (Bool-cases (ltb (length c.send) send_buffer)) [
  | inl e ↦ rw e refl
  | inr e ↦ rw e (close-user "send buffer full" c)
]
