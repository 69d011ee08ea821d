-- ===== src/Auth/Naming.antt =====
-- The names that HandleGuest and HandlePatchMe of internal/auth/auth.go store.
use convoy_backend.Httpx.{write_err}
use convoy_backend.Httpx.{err_internal}
use convoy_backend.Base.Rows.{In-first_where, update_where, first_where-update_where, first_where}
use convoy_backend.Web.{refusal, body, served}
use convoy_backend.Schema.Query.{Session, write, OnDb}
use convoy_backend.Exec.Leads.{
  Leads-map_err, Leads->>=, Leads-guard, Leads-pure, Leads-given, Leads,
}
use convoy_backend.Auth.Tokens.{issued, issue, Signer}
use convoy_backend.Auth.Profile.{stale, renamed_to, rename_user_rows, patch, max_runes}
use convoy_backend.Base.{
  true, arith, take-all, some, none, sym, Option-cases, ◌⊎◌, ltb, length, ◌⊎◌, ◌≤◌, ◌≤◌, take, refl,
  ◌∷◌, [], ◌∷◌, ◌∷◌, inr, ◌++◌, inl, ◌++◌, false, Bool-cases, ◌≡◌, ◌≡◌, Option, ℕ,
}
use convoy_backend.Text.{is_empty, trim_space, Text}
use convoy_backend.Text.Cut.{byte_len, cut, split_rune, IsCut, column, column-IsCut, cut_over}
use convoy_backend.Exec.{pure, attempt, ◌>>=◌, raise, Result, ok, err}
use convoy_backend.Schema.{UserRow, Db}
use convoy_backend.Schema.Leads.{Leads-write, Reaches}
use convoy_backend.Rooms.Store.Rows.{user_exists}
use convoy_backend.Auth.Users.{live_user, Account, account_of}
use convoy_backend.Auth.Guest.{
  insert_user, guest, TokenResponse, handle_guest, GuestRequest, insert_user_rows, insert_named,
  new_user,
}

-- One more user, with a new id, whose name is the wanted one or its first `limit` bytes.
pub record Enrolled (limit : ℕ) (wanted : Text) (avatar email : Option Text) (before : Db)
    (a : Account) (after : Db) : Type 0 where
  pub named : IsCut limit wanted a.display_name
  pub fresh : user_exists before a.id ≡ false
  pub created_at : ℕ
  pub appended : after ≡ record before {
    users = before.users ++ new_user a.display_name avatar email created_at a.id ∷ [];
  }
  pub same_account : a ≡ account_of (new_user a.display_name avatar email created_at a.id)

module _ (limit : ℕ) (wanted : Text) (avatar email : Option Text) (now id : ℕ) (before : Db) where
  insert_named-Enrolled :
      (r : Result Text)
      → column (cut_over limit wanted) ≡ r
      → Reaches
          (Enrolled limit wanted avatar email before)
          (insert_named avatar email now id before r)
  insert_named-Enrolled (err e) h = tt
  insert_named-Enrolled (ok name) h = elim (Bool-cases (user_exists before id)) [
    | inl e ↦ rw e tt
    | inr e ↦ rw e (record {
      named = column-IsCut limit wanted name h;
      fresh = e;
      created_at = now;
      appended = refl;
      same_account = refl;
    })
  ]

  pub insert_user-Enrolled :
      Reaches
        (Enrolled limit wanted avatar email before)
        (insert_user_rows (cut_over limit wanted) avatar email now id before)
  unfolding insert_user_rows
  insert_user-Enrolled = insert_named-Enrolled (column (cut_over limit wanted)) refl

blank : (t : Text) (c n : ℕ) (s : Text) → is_empty s ≡ true → cut_over 40 s ≡ split_rune t c n → ⊥
unfolding cut_over cut byte_len
blank t c n [] z e = cc e
blank t c n (x ∷ s) z e = cc z

abbrev pub Enrolment : GuestRequest → Db → Account → Db → Type 0
Enrolment r before = Enrolled 40 (trim_space r.display_name) r.avatar_url none before

-- what a failing HandleGuest leaves: nothing, or a user without a token
abbrev pub Unserved : Signer → ℕ → GuestRequest → Db → Db → Type 0
Unserved signer now r before db =
    (db ≡ before) ⊎ ((a : Account) × Enrolment r before a db × (issue signer now a.id ≡ none))

module _ (signer : Signer) (now : ℕ) (r : GuestRequest) (before : Db) where
  abbrev pub Served : TokenResponse → Db → Type 0
  Served res db =
      Enrolment r before res.user db
      × (is_empty (trim_space r.display_name) ≡ false)
      × (issue signer now res.user.id ≡ some res.token)

  issued-Leads :
      (a : Account) (o : Option Text)
      → is_empty (trim_space r.display_name) ≡ false
      → issue signer now a.id ≡ o
      → Leads
          (OnDb (Enrolment r before a))
          (do token ← issued o; pure (record { token = token; user = a }))
          (λ res. OnDb (Served res))
          (OnDb (Unserved signer now r before))
  unfolding raise ◌>>=◌
  issued-Leads a none filled e = record { at = λ s h. record { holds = inr (a, h.holds, e) } }
  issued-Leads a (some token) filled e =
      Leads-given token (λ t. pure (record { token = t; user = a }))
        (Leads-pure (record { token = token; user = a })
          (λ s h. record { holds = (h.holds, filled, e) }))

  -- HandleGuest, when it succeeds, adds one user, with a new id and without an email address, and
  -- answers with a token of that user. The name is the trimmed display name, which is not empty, if
  -- it has at most 40 bytes, and its first 40 bytes otherwise. When it fails, nothing is added, or the
  -- user is and the token could not be signed.
  pub guest-Enrolled :
      Leads
        (OnDb (λ t. t ≡ before))
        (guest signer now (body r))
        (λ res. OnDb (Served res))
        (OnDb (Unserved signer now r before))
  unfolding guest insert_user
  guest-Enrolled = Leads-given r _ (
      Leads-guard _ _ _ (λ s h. record { holds = inl h.holds })
        λ filled.
          Leads->>= _ _
            (Leads-write
              (insert_user_rows (cut_over 40 (trim_space r.display_name)) r.avatar_url none)
              (λ db e. inl e)
              λ n id db e.
                rw e (
                  insert_user-Enrolled 40 (trim_space r.display_name) r.avatar_url none n id
                    before))
            (λ a. issued-Leads a (issue signer now a.id) filled refl))

  -- A display name whose 40-byte cut falls within a character is never accepted, though the query
  -- runs: PostgreSQL refuses the broken text, and the answer is 500.
  pub guest-split_rune :
      (t : Text) (c n : ℕ) (s : Session)
      → cut_over 40 (trim_space r.display_name) ≡ split_rune t c n
      → s.env.fails s.queries ≡ false
      → (handle_guest signer now (body r) s).0 ≡ ok (refusal err_internal)
  unfolding handle_guest served guest insert_user insert_user_rows write attempt pure raise ◌>>=◌
      write_err
  guest-split_rune t c n s e f = elim (Bool-cases (is_empty (trim_space r.display_name))) [
    | inl z ↦ absurd (blank t c n (trim_space r.display_name) z e)
    | inr z ↦ rw (z, f, e) refl
  ]

-- the name has at least 2 characters, and is the trimmed one or its first 40 characters
pub record Renamed (u : Account) (text : Text) (before : Db) (a : Account) (after : Db)
    : Type 0 where
  pub long : 2 ≤ length (trim_space text)
  pub named : a.display_name ≡ take 40 (trim_space text)
  pub row :
      (r : UserRow) × (first_where (live_user u.id) before.users ≡ some r)
      × (a ≡ account_of (renamed_to (take 40 (trim_space text)) r))
  pub written : after ≡ record before {
    users = update_where (live_user u.id) (renamed_to (take 40 (trim_space text))) before.users;
  }

max_runes-take : (name : Text) → max_runes name ≡ take 40 name
max_runes-take name = elim (Bool-cases (ltb 40 (length name))) [
  | inl l ↦ rw l refl
  | inr l ↦ rw l (sym (take-all 40 name (ground (arith, l))))
]

module _ (u : Account) (text : Text) (before : Db) where
  abbrev given : Text
  given = take 40 (trim_space text)

  rename_user-Renamed :
      2 ≤ length (trim_space text)
      → Reaches (Renamed u text before) (rename_user_rows u.id given before)
  unfolding rename_user_rows
  rename_user-Renamed long = elim (Option-cases (first_where (live_user u.id) before.users)) [
    | inl e ↦
        rw
          (
            first_where-update_where (live_user u.id) (live_user u.id) (renamed_to given)
                before.users (λ x. refl),
            e,
          )
          tt
    | inr (r, e) ↦
        let (i, l) = In-first_where (live_user u.id) before.users r e in
        rw
          (
            first_where-update_where (live_user u.id) (live_user u.id) (renamed_to given)
                before.users (λ x. refl),
            e,
            l,
          )
          (record { long = long; named = refl; row = (r, e, refl); written = refl })
  ]

  -- HandlePatchMe, when it succeeds, gives the calling user, whose account is live, the trimmed name
  -- of the request, which has at least 2 characters, cut after 40 characters, and answers with that
  -- row; everything else stays. When it fails, nothing changes.
  pub patch-Renamed :
      Leads
        (OnDb (λ t. t ≡ before))
        (patch (some u) (body text))
        (λ a. OnDb (Renamed u text before a))
        (OnDb (λ t. t ≡ before))
  unfolding patch
  patch-Renamed = Leads-given u _ (
      Leads-given text _ (
        Leads-guard _ _ _ (λ s h. h)
          λ filled.
            Leads-guard _ _ _ (λ s h. h)
              λ long. Leads-map_err stale _ (
                Leads-write (λ now _ db. rename_user_rows u.id (max_runes (trim_space text)) db)
                  (λ db e. e)
                  λ now id db e.
                    rw (e, max_runes-take (trim_space text))
                      (rename_user-Renamed (ground (arith, long))))))
