-- ===== src/Schema/Leads.antt =====
-- What a query leads to, from what it does to the tables when its connection holds.
use convoy_backend.Httpx.{connection_lost}
use convoy_backend.Base.{refl, ap, ◌⊎◌, ◌⊎◌, ◌≡◌, sym, subst, ℕ, Bool-cases, inl, inr}
use convoy_backend.Exec.{attempt, Result, ok, err, Exec}
use convoy_backend.Exec.Leads.{Leads, Outcome}
use convoy_backend.Schema.{Db}
use convoy_backend.Schema.Query.{
  Session, OnDb, counted, committed, read, write, transaction, Settled, rolled_back, committed_all,
  Settled-transaction,
}

-- A statement that succeeds reaches `Q`.
abbrev pub Reaches : {A : Type 0} → (A → Db → Type 0) → Result (A × Db) → Type 0
Reaches Q (ok (a, db)) = Q a db
Reaches Q (err e) = Unit

abbrev pub Shows : {A : Type 0} → (A → Db → Type 0) → Db → Result A → Type 0
Shows Q db (ok a) = Q a db
Shows Q db (err e) = Unit

abbrev pub Anything : Db → Type 0
Anything db = Unit

Outcome-committed :
    {A : Type 0} (Q : A → Db → Type 0) (E : Db → Type 0) (s : Session) (r : Result (A × Db))
    → E s.db
    → Reaches Q r
    → Outcome (λ a. OnDb (Q a)) (OnDb E) (committed s r).0 (committed s r).1
Outcome-committed Q E s (ok (a, db)) e q = record { holds = q }
Outcome-committed Q E s (err x) e q = record { holds = e }

Outcome-shown :
    {A : Type 0} (Q : A → Db → Type 0) (E : Db → Type 0) (s : Session) (r : Result A)
    → E s.db
    → Shows Q s.db r
    → Outcome (λ a. OnDb (Q a)) (OnDb E) r (counted s)
Outcome-shown Q E s (ok a) e q = record { holds = q }
Outcome-shown Q E s (err x) e q = record { holds = e }

Outcome-Settled :
    {A : Type 0} (P : Db → Type 0) (Q : A → Db → Type 0) (s : Session)
    (inside r : Result A × Session)
    → Settled s.db inside r
    → P s.db
    → Outcome (λ a. OnDb (Q a)) (OnDb Anything) inside.0 inside.1
    → Outcome (λ a. OnDb (Q a)) (OnDb P) r.0 r.1
Outcome-Settled P Q s inside r (rolled_back e er ed) h o =
    rw er (record { holds = subst P (sym ed) h })
Outcome-Settled P Q s inside r (committed_all a er ei ed) h o =
    let o' : OnDb (Q a) inside.1 = rw ei at o in
    rw er (record { holds = subst (Q a) (sym ed) o'.holds })

module _ {A : Type 0} {P E : Db → Type 0} {Q : A → Db → Type 0} where
  pub Leads-write :
      (f : ℕ → ℕ → Db → Result (A × Db))
      → ((db : Db) → P db → E db)
      → ((now id : ℕ) (db : Db) → P db → Reaches Q (f now id db))
      → Leads (OnDb P) (write f) (λ a. OnDb (Q a)) (OnDb E)
  unfolding write
  Leads-write f lost reach = record {
    at = λ s h. elim (Bool-cases (s.env.fails s.queries)) [
      | inl e ↦ rw e (record { holds = lost s.db h.holds })
      | inr e ↦ rw e (Outcome-committed Q E s _ (lost s.db h.holds) (reach _ _ s.db h.holds))
    ];
  }

  pub Leads-read :
      (f : Db → Result A)
      → ((db : Db) → P db → E db)
      → ((db : Db) → P db → Shows Q db (f db))
      → Leads (OnDb P) (read f) (λ a. OnDb (Q a)) (OnDb E)
  unfolding read
  Leads-read f lost show = record {
    at = λ s h. elim (Bool-cases (s.env.fails s.queries)) [
      | inl e ↦ rw e (record { holds = lost s.db h.holds })
      | inr e ↦ rw e (Outcome-shown Q E s _ (lost s.db h.holds) (show s.db h.holds))
    ];
  }

-- A transaction keeps what its statements lead back to, whatever they break on the way.
module _ {A : Type 0} {P : Db → Type 0} {Q : A → Db → Type 0} where
  pub Leads-transaction :
      (m : Exec Session A)
      → Leads (OnDb P) m (λ a. OnDb (Q a)) (OnDb Anything)
      → Leads (OnDb P) (transaction m) (λ a. OnDb (Q a)) (OnDb P)
  Leads-transaction m k = record {
    at = λ s h.
        Outcome-Settled P Q s (m (counted s)) (transaction m s) (Settled-transaction m s) h.holds
          (k.at (counted s) (record { holds = h.holds }));
  }

-- A fact that does not speak of the tables comes along.
pub Reaches-with :
    {A : Type 0} (Q : A → Db → Type 0) (X : Type 0) (r : Result (A × Db))
    → X
    → Reaches Q r
    → Reaches (λ a db. Q a db × X) r
Reaches-with Q X (ok (a, db)) x q = (q, x)
Reaches-with Q X (err e) x q = tt

-- A query whose error the code looks at: what it reads, or a lost connection.
pub Leads-attempted_read :
    {A : Type 0} {E : Session → Type 0} (f : Db → Result A) (before : Db)
    → Leads
        (OnDb (λ t. t ≡ before))
        (attempt (read f))
        (λ r. OnDb (λ t. (t ≡ before) × ((r ≡ f before) ⊎ (r ≡ err connection_lost))))
        E
unfolding attempt read
Leads-attempted_read f before = record {
  at = λ s h. elim (Bool-cases (s.env.fails s.queries)) [
    | inl e ↦ rw e (record { holds = (h.holds, inr refl) })
    | inr e ↦ rw e (record { holds = (h.holds, inl (ap f h.holds)) })
  ];
}
