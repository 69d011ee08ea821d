-- ===== src/Schema/Query.antt =====
-- How a query of pgxpool runs. Each query, a transaction's begin and commit included, may fail with
-- a lost connection, and then changes nothing; a statement that breaks a constraint changes nothing
-- either. Times, UUIDs and random draws are a parameter, read by the number of the query or draw.
use convoy_backend.Base.{refl, ◌≡◌, ℕ, ◌+◌, Bool, Option, if◌then◌else◌, Bool-cases, inl, inr}
use convoy_backend.Httpx.{Error, connection_lost}
use convoy_backend.Exec.{Result, ok, err, Exec}
use convoy_backend.Exec.Keeps.{Keeps}
use convoy_backend.Schema.{Db}

pub record Env : Type 0 where
  pub fails : ℕ → Bool  -- whether the n-th query loses its connection
  pub now : ℕ → ℕ  -- now() in the n-th query
  pub uuid : ℕ → ℕ  -- gen_random_uuid() in the n-th query
  pub random : ℕ → Option ℕ  -- the n-th draw of crypto/rand
  pub upper : ℕ → ℕ  -- unicode.ToUpper beyond ASCII

pub record Session : Type 0 where
  pub db : Db
  pub env : Env
  pub queries : ℕ
  pub draws : ℕ

abbrev pub counted : Session → Session
counted s = record s { queries = s.queries + 1 }

-- a SELECT
unfoldable pub read : {A : Type 0} → (Db → Result A) → Exec Session A
read f s = if s.env.fails s.queries then (err connection_lost, counted s) else (f s.db, counted s)

abbrev pub committed : {A : Type 0} → Session → Result (A × Db) → Result A × Session
committed s (ok (a, db)) = (ok a, record s { db = db; queries = s.queries + 1 })
committed s (err e) = (err e, counted s)

-- a statement that writes, given its now() and its new UUID
unfoldable pub write : {A : Type 0} → (ℕ → ℕ → Db → Result (A × Db)) → Exec Session A
write f s =
    if s.env.fails s.queries
    then (err connection_lost, counted s)
    else committed s (f (s.env.now s.queries) (s.env.uuid s.queries) s.db)

-- an UPDATE or DELETE, which breaks no constraint
abbrev pub change : (ℕ → Db → Db) → Exec Session (Unit {0})
change f = write (λ now _ db. ok (tt, f now db))

-- tx.Commit, or the deferred tx.Rollback after an error
abbrev commit : {A : Type 0} → Db → Result A × Session → Result A × Session
commit db (ok a, s) =
    if s.env.fails s.queries
    then (err connection_lost, record s { db = db; queries = s.queries + 1 })
    else (ok a, counted s)
commit db (err e, s) = (err e, record s { db = db })

-- pool.Begin, the statements, tx.Commit. A transaction that fails is rolled back as a whole.
unfoldable pub transaction : {A : Type 0} → Exec Session A → Exec Session A
transaction m s =
    if s.env.fails s.queries then (err connection_lost, counted s) else commit s.db (m (counted s))

-- An invariant of the tables, as one of the session.
pub record OnDb (P : Db → Type 0) (s : Session) : Type 0 where
  pub holds : P s.db

-- What a statement leaves behind, if it does not fail.
abbrev pub Sound : {A : Type 0} → (Db → Type 0) → Result (A × Db) → Type 0
Sound P (ok (a, db)) = P db
Sound P (err e) = Unit

Sound-committed :
    {A : Type 0} (P : Db → Type 0) (s : Session) (r : Result (A × Db))
    → P s.db
    → Sound P r
    → P (committed s r).1.db
Sound-committed P s (ok (a, db)) h k = k
Sound-committed P s (err e) h k = h

module _ {A : Type 0} {P : Db → Type 0} where
  pub Keeps-read : (f : Db → Result A) → Keeps (OnDb P) (read f)
  unfolding read
  Keeps-read f = record {
    at = λ s h. record {
      holds = elim (Bool-cases (s.env.fails s.queries)) [
        | inl e ↦ rw e h.holds
        | inr e ↦ rw e h.holds
      ];
    };
  }

  pub Keeps-write :
      (f : ℕ → ℕ → Db → Result (A × Db))
      → ((now id : ℕ) (db : Db) → P db → Sound P (f now id db))
      → Keeps (OnDb P) (write f)
  unfolding write
  Keeps-write f sound = record {
    at = λ s h. record {
      holds = elim (Bool-cases (s.env.fails s.queries)) [
        | inl e ↦ rw e h.holds
        | inr e ↦ rw e (Sound-committed P s _ h.holds (sound _ _ s.db h.holds))
      ];
    };
  }

module _ {P : Db → Type 0} where
  pub Keeps-change :
      (f : ℕ → Db → Db) → ((now : ℕ) (db : Db) → P db → P (f now db)) → Keeps (OnDb P) (change f)
  Keeps-change f sound = Keeps-write (λ now _ db. ok (tt, f now db)) (λ now _ db h. sound now db h)

-- What a transaction leaves: the tables as they were, or what its statements made of them.
pub data Settled {A : Type 0} (db : Db) (inside : Result A × Session) (r : Result A × Session)
    : Type 0 where
  rolled_back : (e : Error) → r.0 ≡ err e → r.1.db ≡ db → Settled db inside r
  committed_all :
      (a : A) → r.0 ≡ ok a → inside.0 ≡ ok a → r.1.db ≡ inside.1.db → Settled db inside r

Settled-commit : {A : Type 0} (db : Db) (r : Result A × Session) → Settled db r (commit db r)
Settled-commit db (ok a, s) = elim (Bool-cases (s.env.fails s.queries)) [
  | inl e ↦ rolled_back connection_lost (rw e) (rw e)
  | inr e ↦ committed_all a (rw e) refl (rw e)
]
Settled-commit db (err e, s) = rolled_back e refl refl

pub Settled-transaction :
    {A : Type 0} (m : Exec Session A) (s : Session) → Settled s.db (m (counted s)) (transaction m s)
unfolding transaction
Settled-transaction m s = elim (Bool-cases (s.env.fails s.queries)) [
  | inl e ↦ rolled_back connection_lost (rw e) (rw e)
  | inr e ↦ rw e (Settled-commit s.db (m (counted s)))
]
