-- ===== src/Auth/Identities.antt =====
-- The identity behind a sign-in: the transaction of upsertOAuthUser (internal/auth/auth.go) up to the user
-- that it finds or creates.
use convoy_backend.Httpx.{connection_lost, Error}
use convoy_backend.Rooms.Store.Rows.{user_exists}
use convoy_backend.Base.{
  false, true, sym, ◌∙◌, ◌∙◌, not, ap, ◌∷◌, ◌||◌, ◌||◌, [], inr, ◌++◌, ◌==◌, ◌∷◌, ◌==◌, ◌++◌, refl,
  ◌⊎◌, inl, ◌⊎◌, Bool-cases, none, some, ◌≡◌, Option, ℕ,
}
use convoy_backend.Base.Rows.{first_where-append_hit, first_where, exists_where}
use convoy_backend.Text.{same_text_refl, Text}
use convoy_backend.Text.Cut.{cut_over}
use convoy_backend.Exec.{err, Result, raise, attempt, ok, pure, ◌>>=◌, ◌>>◌}
use convoy_backend.Exec.Leads.{Leads, Leads->>=, Leads-pure}
use convoy_backend.Schema.{Db, IdentityRow}
use convoy_backend.Schema.Query.{Session, write, OnDb}
use convoy_backend.Schema.Leads.{Leads-write, Anything, Reaches}
use convoy_backend.Auth.Users.{Account}
use convoy_backend.Auth.Guest.{insert_user, insert_user_rows}
use convoy_backend.Auth.Providers.{Identity}
use convoy_backend.Auth.OAuth.{
  found_or_created, lookup_identity, is_no_rows, is_provider, is_identity, identity_user,
  email_rows, refresh_email, new_identity, optional, insert_identity_rows, create_account,
}
use convoy_backend.Auth.Naming.{Enrolled, insert_user-Enrolled}

abbrev pub identity_row : Identity → Db → Option IdentityRow
identity_row i db = first_where (is_identity i.provider i.subject) db.user_identities

-- the tables once the user is known: an old identity, whose email address at most is refreshed, or a
-- new user with a new identity
pub data Located (i : Identity) (wanted : Text) (before : Db) (user : ℕ) (db : Db) : Type 0 where
  known :
      (r : IdentityRow)
      → identity_row i before ≡ some r
      → r.user_id ≡ user
      → (db ≡ before) ⊎ (db ≡ email_rows user i.email before)
      → Located i wanted before user db
  created :
      (a : Account) (mid : Db) (now id : ℕ)
      → identity_row i before ≡ none
      → a.id ≡ user
      → Enrolled 40 wanted (optional i.avatar_url) (optional i.email) before a mid
      → db ≡ record mid { user_identities = mid.user_identities ++ new_identity user i now id ∷ [] }
      → Located i wanted before user db

not_lost : (e : Error) → is_no_rows e ≡ true → ◌≡◌ {A = Result ℕ} (err e) (err connection_lost) → ⊥
not_lost e y h =
    let same : e ≡ connection_lost = cc h in
    let y' : false ≡ true = ap is_no_rows (sym same) ∙ y in cc y'

raised :
    (e : Error) {P : Session → Type 0} {Q : ℕ → Session → Type 0}
    → Leads P (raise e) Q (OnDb Anything)
unfolding raise
raised e = record { at = λ s h. record { holds = tt } }

self :
    (i : Identity) (user now id : ℕ)
    → is_identity i.provider i.subject (new_identity user i now id) ≡ true
self i user now id = rw (same_text_refl i.provider, same_text_refl i.subject) refl

module _ (i : Identity) (wanted : Text) (before : Db) where
  refresh_email-Leads :
      (user : ℕ) (email : Text) (r : IdentityRow)
      → i.email ≡ email
      → identity_row i before ≡ some r
      → r.user_id ≡ user
      → Leads
          (OnDb (λ t. t ≡ before))
          (do refresh_email user email; pure user)
          (λ u. OnDb (Located i wanted before u))
          (OnDb Anything)
  unfolding refresh_email attempt pure raise ◌>>=◌ write
  refresh_email-Leads user [] r ee e f = record {
    at = λ s h. record { holds = known r e f (inl h.holds) };
  }
  refresh_email-Leads user (c ∷ email) r ee e f = record {
    at = λ s h. elim (Bool-cases (s.env.fails s.queries)) [
      | inl lost ↦ rw lost (record { holds = tt })
      | inr runs ↦ rw runs (record {
        holds = known r e f (
            inr (
              ap (email_rows user (c ∷ email)) h.holds
              ∙ ap (λ m. email_rows user m before) (sym ee)));
      })
    ];
  }

  insert_identity-Located :
      (a : Account) (now id : ℕ) (mid : Db)
      → identity_row i before ≡ none
      → Enrolled 40 wanted (optional i.avatar_url) (optional i.email) before a mid
      → Reaches (λ _. Located i wanted before a.id) (insert_identity_rows a.id i now id mid)
  unfolding insert_identity_rows
  insert_identity-Located a now id mid e enrolled =
      elim (Bool-cases (
        exists_where (λ (r : IdentityRow). r.id == id || is_identity i.provider i.subject r)
          mid.user_identities)) [
            | inl x ↦ rw x tt
            | inr x ↦ rw x (elim (Bool-cases (not (is_provider i.provider))) [
              | inl p ↦ rw p tt
              | inr p ↦ rw p (elim (Bool-cases (user_exists mid a.id)) [
                | inl u ↦ rw u (created a mid now id e refl enrolled refl)
                | inr u ↦ rw u tt
              ])
            ])
          ]

  create_account-Leads :
      identity_row i before ≡ none
      → Leads
          (OnDb (λ t. t ≡ before))
          (create_account i (cut_over 40 wanted))
          (λ user. OnDb (Located i wanted before user))
          (OnDb Anything)
  unfolding create_account insert_user
  create_account-Leads e =
      Leads->>= _ _
        (Leads-write {Q = Enrolled 40 wanted (optional i.avatar_url) (optional i.email) before}
          (insert_user_rows (cut_over 40 wanted) (optional i.avatar_url) (optional i.email))
          (λ db h. tt)
          (λ now id db h. rw h (
            insert_user-Enrolled 40 wanted (optional i.avatar_url) (optional i.email) now id
              before)))
        λ a.
          Leads->>= _ _
            (Leads-write {Q = λ _. Located i wanted before a.id}
              (λ now id db. insert_identity_rows a.id i now id db) (λ db h. tt)
              (λ now id db h. insert_identity-Located a now id db e h))
            λ _. Leads-pure a.id (λ s h. h)

  identity_user-ok :
      (o : Option IdentityRow) (user : ℕ)
      → ok user ≡ identity_user o
      → (r : IdentityRow) × (o ≡ some r) × (r.user_id ≡ user)
  identity_user-ok none user e = absurd (cc e)
  identity_user-ok (some r) user e = (r, refl, cc e)

  no_identity : (o : Option IdentityRow) (e : Error) → err e ≡ identity_user o → o ≡ none
  no_identity none e h = refl
  no_identity (some r) e h = absurd (cc h)

  -- each outcome of the lookup
  pub found_or_created-Leads :
      (found : Result ℕ)
      → Leads
          (OnDb (λ t.
            (t ≡ before) × ((found ≡ lookup_identity i before) ⊎ (found ≡ err connection_lost))))
          (found_or_created i (cut_over 40 wanted) found)
          (λ user. OnDb (Located i wanted before user))
          (OnDb Anything)
  found_or_created-Leads (ok user) = record {
    at = λ s h. elim h.holds.1 [
      | inr lost ↦ absurd (cc lost)
      | inl read' ↦
          let (r, e, f) = identity_user-ok (identity_row i before) user read' in
          (refresh_email-Leads user i.email r refl e f).at s (record { holds = h.holds.0 })
    ];
  }
  found_or_created-Leads (err e) = elim (Bool-cases (is_no_rows e)) [
    | inr n ↦ rw n (raised e)
    | inl y ↦ rw y (record {
      at = λ s h. elim h.holds.1 [
        | inr lost ↦ absurd (not_lost e y lost)
        | inl read' ↦
            (create_account-Leads (no_identity (identity_row i before) e read')).at s
              (record { holds = h.holds.0 })
      ];
    })
  ]

  pub Located-identified :
      (user : ℕ) (db : Db)
      → Located i wanted before user db
      → (r : IdentityRow) × (identity_row i db ≡ some r) × (r.user_id ≡ user)
  unfolding email_rows
  Located-identified user db (known r e f (inl same)) = (r, ap (identity_row i) same ∙ e, f)
  Located-identified user db (known r e f (inr same)) = (r, ap (identity_row i) same ∙ e, f)
  Located-identified user db (created a mid now id e f enrolled same) = (
    new_identity user i now id,
    ap (identity_row i) same
        ∙ first_where-append_hit (is_identity i.provider i.subject) mid.user_identities
            (new_identity user i now id) (ap (λ (t : Db). identity_row i t) enrolled.appended ∙ e)
            (self i user now id),
    refl,
  )
