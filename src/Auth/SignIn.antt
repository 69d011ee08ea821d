-- ===== src/Auth/SignIn.antt =====
-- Which account upsertOAuthUser (internal/auth/auth.go) signs into.
use convoy_backend.Auth.Identities.{
  created, Located-identified, known, Located, identity_row, found_or_created-Leads,
}
use convoy_backend.Base.{
  ◌&&◌, ◌&&◌, and-true, arith, ==→eq, List, subst, length, Bool, sym, ◌∙◌, ◌∙◌, not, ap, ◌∷◌, [],
  inr, ◌==◌, ◌∷◌, ◌==◌, refl, inl, none, some, ◌≡◌, Option, ℕ,
}
use convoy_backend.Base.Rows.{update_where, In-first_where, first_where}
use convoy_backend.Text.{Text}
use convoy_backend.Text.Cut.{cut_over}
use convoy_backend.Exec.Leads.{Leads-then, Leads, Leads->>=}
use convoy_backend.Schema.{Db, UserRow, IdentityRow}
use convoy_backend.Schema.Query.{OnDb}
use convoy_backend.Schema.Leads.{Leads-read, Leads-attempted_read, Leads-transaction, Shows}
use convoy_backend.Auth.Users.{Account, account_of, live_user}
use convoy_backend.Auth.Providers.{Identity}
use convoy_backend.Auth.OAuth.{
  has_email, scanned, lookup_identity, upsert_oauth_user, is_identity, email_rows,
}

-- The account is live and is that of the identity.
pub record SignedIn (i : Identity) (wanted : Text) (before : Db) (a : Account) (after : Db)
    : Type 0 where
  pub located : Located i wanted before a.id after
  pub live :
      (u : UserRow) × (first_where (live_user a.id) after.users ≡ some u) × (a ≡ account_of u)
  pub identified : (r : IdentityRow) × (identity_row i after ≡ some r) × (r.user_id ≡ a.id)

length-update_where :
    (p : UserRow → Bool) (f : UserRow → UserRow) (us : List UserRow)
    → length (update_where p f us) ≡ length us
length-update_where p f [] = refl
length-update_where p f (u ∷ us) = omega (arith, length-update_where p f us)

module _ (i : Identity) (wanted : Text) (before : Db) where
  scanned-SignedIn :
      (user : ℕ) (db : Db) (o : Option UserRow)
      → Located i wanted before user db
      → first_where (live_user user) db.users ≡ o
      → Shows (SignedIn i wanted before) db (scanned o)
  scanned-SignedIn user db none l e = tt
  scanned-SignedIn user db (some u) l e =
      let (m, p) = In-first_where (live_user user) db.users u e in
      let same : user ≡ u.id = sym (==→eq u.id user (and-true (u.id == user) _ p).0) in
      record {
        located = subst (λ k. Located i wanted before k db) same l;
        live = (u, subst (λ k. first_where (live_user k) db.users ≡ some u) same e, refl);
        identified =
            Located-identified i wanted before u.id db
              (subst (λ k. Located i wanted before k db) same l);
      }

-- A sign-in that succeeds leads to the live account of the provider's identity: the user whom an
-- earlier sign-in created, of whom at most the email address is refreshed, or, if the identity is
-- new, one new user with the chosen name, cut after 40 bytes, and with this identity. Nothing else
-- changes, and a sign-in that fails, such as that of a deleted account, changes nothing.
pub upsert_oauth_user-SignedIn :
    (i : Identity) (wanted : Text) (before : Db)
    → Leads
        (OnDb (λ t. t ≡ before))
        (upsert_oauth_user i (cut_over 40 wanted))
        (λ a. OnDb (SignedIn i wanted before a))
        (OnDb (λ t. t ≡ before))
unfolding upsert_oauth_user
upsert_oauth_user-SignedIn i wanted before = Leads-transaction _ (
    Leads->>= _ _ (Leads-attempted_read (lookup_identity i) before) λ found.
      Leads->>= _ _ (found_or_created-Leads i wanted before found) λ user.
        Leads-read (λ db. scanned (first_where (live_user user) db.users)) (λ db h. tt)
          (λ db l. scanned-SignedIn i wanted before user db _ l refl))

module _ (i j : Identity) (wanted again : Text) (before after : Db) (a b : Account)
    (first : SignedIn i wanted before a after) (p : i.provider ≡ j.provider)
    (q : i.subject ≡ j.subject) where
  identity_again : (r : IdentityRow) × (identity_row j after ≡ some r) × (r.user_id ≡ a.id)
  identity_again =
      let (r, e, f) = first.identified in
      (
        r,
        subst (λ t. first_where (is_identity t j.subject) after.user_identities ≡ some r) p
            (subst (λ t. first_where (is_identity i.provider t) after.user_identities ≡ some r) q
              e),
        f,
      )

  returned :
      (db : Db)
      → Located j again after b.id db
      → (b.id ≡ a.id) × (length db.users ≡ length after.users)
  unfolding email_rows
  returned db (known r e f (inl same)) =
      let (r', e', f') = identity_again in
      (let x : some r ≡ some r' = sym e ∙ e' in cc (f, f', x), ap (λ (t : Db). length t.users) same)
  returned db (known r e f (inr same)) =
      let (r', e', f') = identity_again in
      (
        let x : some r ≡ some r' = sym e ∙ e' in cc (f, f', x),
        ap (λ (t : Db). length t.users) same
            ∙ length-update_where (λ (u : UserRow). u.id == b.id && not (has_email j.email u.email))
                (λ u. record u { email = some j.email }) after.users,
      )
  returned db (created c mid now id e f enrolled same) =
      let (r', e', f') = identity_again in absurd (let x : none ≡ some r' = sym e ∙ e' in cc x)

-- Signing in again with the same identity, from the tables that a sign-in left, leads to the same
-- account and to no new user, whatever name and email address the provider sends now.
pub sign_in_again :
    (i j : Identity) (wanted again : Text) (before after : Db) (a : Account)
    → SignedIn i wanted before a after
    → i.provider ≡ j.provider
    → i.subject ≡ j.subject
    → Leads
        (OnDb (λ t. t ≡ after))
        (upsert_oauth_user j (cut_over 40 again))
        (λ b. OnDb (λ db. (b.id ≡ a.id) × (length db.users ≡ length after.users)))
        (OnDb (λ t. t ≡ after))
sign_in_again i j wanted again before after a h p q =
    Leads-then _
      (λ b s k. record {
        holds = returned i j wanted again before after a b h p q s.db k.holds.located;
      })
      (upsert_oauth_user-SignedIn j again after)
