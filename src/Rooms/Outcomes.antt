-- ===== src/Rooms/Outcomes.antt =====
-- What a method of internal/rooms/service.go leads to, from given tables and connections: one rule
-- for each step that the methods are made of.
use convoy_backend.Exec.Keeps.{Keeps-refuse}
use convoy_backend.Rooms.Store.Member.{active_membership}
use convoy_backend.Schema.Query.{Keeps-read, OnDb, read, Session}
use convoy_backend.Exec.Leads.{Leads-pure, Leads-map_err, Leads->>=, Leads-Keeps, Outcome, Leads}
use convoy_backend.Schema.{Db}
use convoy_backend.Rooms.Service.Core.{
  OnWorld, hidden, notify, World, assert_member, on_store, require_owner, Broadcaster, Service,
}
use convoy_backend.Base.{none, some, ap, ℕ, ◌≡◌}
use convoy_backend.Exec.{Exec, Result, ok, err}

-- The tables satisfy `P` and the connections are `live`.
pub record Stands {H : Type 0} (P : Db → Type 0) (live : H) (w : World H) : Type 0 where
  pub holds : P w.session.db
  pub same_live : w.live ≡ live

-- Nothing happened.
abbrev pub Unchanged : {H : Type 0} → Db → H → World H → Type 0
Unchanged db live = Stands (λ t. t ≡ db) live

-- what a call of the broadcaster makes of the connections
abbrev pub told : {H : Type 0} → Service H → (Broadcaster H → H → H) → H → H
told none f h = h
told (some b) f h = f b h

module _ {H A : Type 0} (Q : A → Db → Type 0) (E : Db → Type 0) where
  Outcome-Stands :
      (r : Result A) (s : Session) (h live : H)
      → h ≡ live
      → Outcome (λ a. OnDb (Q a)) (OnDb E) r s
      → Outcome (λ a. Stands (Q a) live) (Stands E live) r (record { session = s; live = h })
  Outcome-Stands (ok a) s h live e o = record { holds = o.holds; same_live = e }
  Outcome-Stands (err x) s h live e o = record { holds = o.holds; same_live = e }

module _ {H A : Type 0} {live : H} {P E : Db → Type 0} {Q : A → Db → Type 0} where
  pub Stands-on_store :
      (m : Exec Session A)
      → Leads (OnDb P) m (λ a. OnDb (Q a)) (OnDb E)
      → Leads (Stands P live) (on_store m) (λ a. Stands (Q a) live) (Stands E live)
  unfolding on_store
  Stands-on_store m k = record {
    at = λ w h.
        Outcome-Stands Q E (m w.session).0 (m w.session).1 w.live live h.same_live
          (k.at w.session (record { holds = h.holds }));
  }

module _ {H : Type 0} {P : Db → Type 0} {live : H} {E : World H → Type 0} where
  pub Leads-notify :
      (rt : Service H) (f : Broadcaster H → H → H)
      → Leads (Stands P live) (notify rt f) (λ _. Stands P (told rt f live)) E
  unfolding notify
  Leads-notify none f = record { at = λ w h. h }
  Leads-notify (some b) f = record {
    at = λ w h. record { holds = h.holds; same_live = ap (f b) h.same_live };
  }

module _ {H : Type 0} {P : Db → Type 0} {live : H} where
  Leads-read_kept :
      {A : Type 0} (f : Db → Result A)
      → Leads (Stands {H = H} P live) (on_store (read f)) (λ _. Stands P live) (Stands P live)
  Leads-read_kept f = Stands-on_store _ (Leads-Keeps _ (λ s h. h) (Keeps-read f))

  pub Leads-require_owner :
      (room actor : ℕ)
      → Leads
          (Stands {H = H} P live)
          (require_owner room actor)
          (λ _. Stands P live)
          (Stands P live)
  unfolding require_owner active_membership
  Leads-require_owner room actor =
      Leads->>= _ _ (Leads-map_err hidden _ (Leads-read_kept _))
        λ found. Leads-Keeps _ (λ w h. h) (Keeps-refuse _ _)

  pub Leads-assert_member :
      (room user : ℕ)
      → Leads (Stands {H = H} P live) (assert_member room user) (λ _. Stands P live) (Stands P live)
  unfolding assert_member active_membership
  Leads-assert_member room user =
      Leads->>= _ _ (Leads-map_err hidden _ (Leads-read_kept _)) λ found. Leads-pure _ (λ w h. h)

module _ {H : Type 0} {P : Db → Type 0} {E : World H → Type 0} where
  -- Telling the connections does not touch the tables.
  pub notify-Leads :
      (rt : Service H) (f : Broadcaster H → H → H)
      → Leads (OnWorld P) (notify rt f) (λ _. OnWorld P) E
  unfolding notify
  notify-Leads none f = record { at = λ w h. h }
  notify-Leads (some b) f = record { at = λ w h. record { holds = h.holds } }

module _ {H A : Type 0} (Q : A → Db → Type 0) (E : Db → Type 0) where
  Outcome-on_store :
      (r : Result A) (s : Session) (h : H)
      → Outcome (λ a. OnDb (Q a)) (OnDb E) r s
      → Outcome (λ a. OnWorld (Q a)) (OnWorld E) r (record { session = s; live = h })
  Outcome-on_store (ok a) s h o = record { holds = o.holds }
  Outcome-on_store (err e) s h o = record { holds = o.holds }

module _ {H A : Type 0} {P E : Db → Type 0} {Q : A → Db → Type 0} where
  pub Leads-on_store :
      (m : Exec Session A)
      → Leads (OnDb P) m (λ a. OnDb (Q a)) (OnDb E)
      → Leads (OnWorld {H = H} P) (on_store m) (λ a. OnWorld (Q a)) (OnWorld E)
  unfolding on_store
  Leads-on_store m k = record {
    at = λ w h.
        Outcome-on_store Q E (m w.session).0 (m w.session).1 w.live
          (k.at w.session (record { holds = h.holds }));
  }
