-- ===== src/Push/Registration.antt =====
-- What Save (internal/push/handlers.go) leaves in the table of tokens.
use convoy_backend.Web.{body}
use convoy_backend.Schema.Query.{OnDb}
use convoy_backend.Exec.Leads.{Leads-guard, Leads-given, Leads}
use convoy_backend.Rooms.Store.Rows.{user_exists}
use convoy_backend.Schema.Leads.{Leads-write, Reaches}
use convoy_backend.Base.{
  not-false, some, In-append_left, ◌∷◌, [], ◌∷◌, In-append_right, ◌∷◌, In-append, ◌++◌, ◌++◌, false,
  refl, inr, ap, inl, ◌↔◌, ◌∙◌, ◌∙◌, Bool-cases, arith, true, if◌then◌else◌, ◌≢◌, ◌≡◌, ◌≡◌,
  if◌then◌else◌, ◌≢◌, In, ℕ, sym, subst,
}
use convoy_backend.Base.Rows.{
  exists_where-false, exists_where, update_where, In-update_where, In-update_where_of,
  In-exists_where,
}
use convoy_backend.Text.{to_lower, trim_space, same_text-false, Text, same_text→eq}
use convoy_backend.Schema.{Db, TokenRow}
use convoy_backend.Push.Store.{
  upsert, new_token, upsert_token_rows, known_platform, has_token, taken_over,
}
use convoy_backend.Push.Handlers.{RegisterReq, register, is_expo_token}

-- the primary key: a token stands in one row
abbrev pub TokenIsKey : Db → Type 0
TokenIsKey db =
    (r r' : TokenRow) → In r db.push_tokens → In r' db.push_tokens → r.token ≡ r'.token → r ≡ r'

-- The token belongs to the user, and to nobody else; every other token has its row as before.
pub record Registered (user : ℕ) (token platform : Text) (before after : Db) : Type 0 where
  pub valid : (is_expo_token token ≡ true) × (known_platform platform ≡ true)
  pub stored :
      (r : TokenRow) × In r after.push_tokens
      × (r.token ≡ token)
      × (r.user_id ≡ user)
      × (r.platform ≡ platform)
  pub key : TokenIsKey after
  pub kept : (r : TokenRow) → r.token ≢ token → In r before.push_tokens ↔ In r after.push_tokens

module _ (user : ℕ) (token platform : Text) (now : ℕ) (before : Db)
    (is_key : TokenIsKey before) where
  abbrev over : TokenRow → TokenRow
  over r = if has_token token r then taken_over user platform now r else r

  over-token : (r : TokenRow) → (over r).token ≡ r.token
  over-token r = ground arith

  over_other : (r : TokenRow) → r.token ≢ token → over r ≡ r
  over_other r n = elim (Bool-cases (has_token token r)) [
    | inl e ↦ absurd (n (same_text→eq _ _ e))
    | inr e ↦ rw e refl
  ]

  abbrev updated : Db
  updated = record before {
    push_tokens = update_where (has_token token) (taken_over user platform now) before.push_tokens;
  }

  updated-TokenIsKey : TokenIsKey updated
  updated-TokenIsKey r r' i i' e =
      let (x, ix, ex) = In-update_where (has_token token) _ before.push_tokens r i in
      let (y, iy, ey) = In-update_where (has_token token) _ before.push_tokens r' i' in
      let same : x ≡ y = is_key x y ix iy (
        sym (over-token x)
        ∙ ap (λ (z : TokenRow). z.token) (sym ex)
        ∙ e
        ∙ ap (λ (z : TokenRow). z.token) ey
        ∙ over-token y) in
      ex ∙ ap over same ∙ sym ey

  updated-Registered :
      is_expo_token token ≡ true
      → known_platform platform ≡ true
      → exists_where (has_token token) before.push_tokens ≡ true
      → Registered user token platform before updated
  updated-Registered v p e =
      let (x, i, h) = In-exists_where (has_token token) before.push_tokens e in
      record {
        valid = (v, p);
        stored =
            let i' = In-update_where_of (has_token token) (taken_over user platform now) _ x i in
            (
              taken_over user platform now x,
              subst (λ r. In r updated.push_tokens)
                  (ap (λ b. if b then taken_over user platform now x else x) h) i',
              same_text→eq _ _ h,
              refl,
              refl,
            );
        key = updated-TokenIsKey;
        kept = λ r n. (
          (λ i.
              subst (λ z. In z updated.push_tokens) (over_other r n)
                (In-update_where_of (has_token token) (taken_over user platform now) _ r i)),
          (λ i.
              let (y, iy, ey) = In-update_where (has_token token) _ before.push_tokens r i in
              let ny : y.token ≢ token =
                λ t. n (ap (λ (z : TokenRow). z.token) ey ∙ over-token y ∙ t) in
              subst (λ z. In z before.push_tokens) (sym (ey ∙ over_other y ny)) iy),
        );
      }

  abbrev row : TokenRow
  row = new_token token user platform now

  abbrev appended : Db
  appended = record before { push_tokens = before.push_tokens ++ row ∷ [] }

  module _ (fresh : exists_where (has_token token) before.push_tokens ≡ false) where
    not_row : (r : TokenRow) → In r before.push_tokens → r.token ≢ token
    not_row r i =
        same_text-false _ _ (exists_where-false (has_token token) before.push_tokens r fresh i)

    appended-TokenIsKey : TokenIsKey appended
    appended-TokenIsKey r r' i i' e = elim (In-append before.push_tokens (row ∷ []) r i) [
      | inl h ↦ elim (In-append before.push_tokens (row ∷ []) r' i') [
        | inl h' ↦ is_key r r' h h' e
        | inr (inl k') ↦ absurd (not_row r h (e ∙ ap (λ (z : TokenRow). z.token) k'))
        | inr (inr x) ↦ absurd x
      ]
      | inr (inr x) ↦ absurd x
      | inr (inl k) ↦ elim (In-append before.push_tokens (row ∷ []) r' i') [
        | inl h' ↦ absurd (not_row r' h' (sym e ∙ ap (λ (z : TokenRow). z.token) k))
        | inr (inl k') ↦ k ∙ sym k'
        | inr (inr x) ↦ absurd x
      ]
    ]

    appended-Registered :
        is_expo_token token ≡ true
        → known_platform platform ≡ true
        → Registered user token platform before appended
    appended-Registered v p = record {
      valid = (v, p);
      stored =
          (row, In-append_right before.push_tokens (row ∷ []) row (inl refl), refl, refl, refl);
      key = appended-TokenIsKey;
      kept = λ r n. (
        In-append_left before.push_tokens (row ∷ []) r,
        (λ i. elim (In-append before.push_tokens (row ∷ []) r i) [
          | inl h ↦ h
          | inr (inl k) ↦ absurd (n (ap (λ (z : TokenRow). z.token) k))
          | inr (inr x) ↦ absurd x
        ]),
      );
    }

  upsert-Registered :
      is_expo_token token ≡ true
      → known_platform platform ≡ true
      → Reaches
          (λ _. Registered user token platform before)
          (upsert_token_rows token user platform now before)
  unfolding upsert_token_rows
  upsert-Registered v p = elim (Bool-cases (user_exists before user)) [
    | inr u ↦ rw u tt
    | inl u ↦ elim (Bool-cases (exists_where (has_token token) before.push_tokens)) [
      | inl e ↦ rw (u, e) (updated-Registered v p e)
      | inr e ↦ rw (u, e) (appended-Registered e v p)
    ]
  ]

-- Where each token stands in one row, a registration that succeeds makes the trimmed token, an Expo
-- token for ios or android, belong to the calling user and to nobody else, whether it was new or
-- another user's, and leaves the row of every other token; one that fails changes nothing.
pub register-Registered :
    (table : ℕ → ℕ) (user : ℕ) (req : RegisterReq) (before : Db)
    → TokenIsKey before
    → Leads
        (OnDb (λ t. t ≡ before))
        (register table (some user) (body req))
        (λ _. OnDb (
          Registered user (trim_space req.token) (to_lower table (trim_space req.platform)) before))
        (OnDb (λ t. t ≡ before))
unfolding register upsert
register-Registered table user req before key = Leads-given user _ (
    Leads-given req _ (
      Leads-guard _ _ _ (λ s h. h)
        λ filled.
          Leads-guard _ _ _ (λ s h. h)
            λ expo.
              Leads-guard _ _ _ (λ s h. h)
                λ platform.
                  Leads-write
                    (λ now _ db.
                      upsert_token_rows (trim_space req.token) user
                        (to_lower table (trim_space req.platform)) now db)
                    (λ db e. e)
                    λ now id db e. rw e (
                      upsert-Registered user (trim_space req.token)
                        (to_lower table (trim_space req.platform)) now before key (not-false _ expo)
                        (not-false _ platform))))
