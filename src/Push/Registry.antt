-- ===== src/Push/Registry.antt =====
-- The table of tokens (internal/push/store.go) as a map from tokens to users.
use convoy_backend.Httpx.{foreign_key_violation}
use convoy_backend.Base.{
  subst, Option-cases, ◌∙◌, refl, sym, ◌∙◌, ◌∷◌, ◌||◌, inl, ◌||◌, ap, [], inr, ◌++◌, some, ◌++◌,
  true, ◌∷◌, fun_ext, Bool-cases, none, ◌≡◌, if◌then◌else◌, ◌≡◌, false, if◌then◌else◌, some, ℕ,
  Bool, Option, List,
}
use convoy_backend.Base.Rows.{
  first_where, exists_where, update_where, delete_where, first_where-update_where,
  first_where-append_hit, first_where-append_skip, In-first_where,
}
use convoy_backend.Text.{same_text_swap, Text, same_text, same_text→eq}
use convoy_backend.Exec.{Result, ok, err}
use convoy_backend.Schema.{Db, TokenRow}
use convoy_backend.Rooms.Store.Rows.{user_exists}
use convoy_backend.Push.Store.{
  has_token, any_of, new_token, taken_over, upsert_token_rows, delete_token_rows,
}

-- the abstract state: whose each token is
abbrev pub Registry : Type 0
Registry = Text → Option ℕ

abbrev pub owner_of : Option TokenRow → Option ℕ
owner_of none = none
owner_of (some r) = some r.user_id

-- the abstraction function
abbrev pub registry : Db → Registry
registry db t = owner_of (first_where (has_token t) db.push_tokens)

abbrev pub assigned : Text → ℕ → Registry → Registry
assigned token user m t = if same_text token t then some user else m t

abbrev pub listed : List Text → Text → Bool
listed [] t = false
listed (s ∷ ts) t = same_text t s || listed ts t

abbrev pub without : List Text → Registry → Registry
without ts m t = if listed ts t then none else m t

first_where-nothing :
    {A : Type 0} (p : A → Bool) (xs : List A) → exists_where p xs ≡ false → first_where p xs ≡ none
first_where-nothing p [] e = refl
first_where-nothing p (x ∷ xs) e = elim (Bool-cases (p x)) [
  | inl y ↦ absurd (let c : true ≡ false = rw y at e in cc c)
  | inr n ↦ rw n (first_where-nothing p xs (rw n at e))
]

first_where-something :
    {A : Type 0} (p : A → Bool) (xs : List A)
    → exists_where p xs ≡ true
    → (a : A) × (first_where p xs ≡ some a)
first_where-something p [] e = cc e
first_where-something p (x ∷ xs) e = elim (Bool-cases (p x)) [
  | inl y ↦ (x, rw y refl)
  | inr n ↦ let (a, f) = first_where-something p xs (rw n at e) in (a, rw n f)
]

pushed :
    (db after : Db) (rows : List TokenRow)
    → ◌≡◌ {A = Result (Unit {0} × Db)} (ok (tt, record db { push_tokens = rows })) (ok (tt, after))
    → rows ≡ after.push_tokens
pushed db after rows h =
    let p : ◌≡◌ {A = Unit {0} × Db} (tt, record db { push_tokens = rows }) (tt, after) = cc h in
    ap (λ (q : Unit {0} × Db). q.1.push_tokens) p

module _ (token : Text) (user : ℕ) (platform : Text) (now : ℕ) (db : Db) where
  abbrev row : TokenRow
  row = new_token token user platform now

  abbrev take_over : TokenRow → TokenRow
  take_over r = taken_over user platform now r

  updated-owner :
      (t : Text)
      → exists_where (has_token token) db.push_tokens ≡ true
      → owner_of
          (first_where (has_token t) (update_where (has_token token) take_over db.push_tokens))
        ≡ assigned token user (registry db) t
  updated-owner t e =
      ap owner_of (
        first_where-update_where (has_token t) (has_token token) take_over db.push_tokens
          (λ x. refl))
      ∙ elim (Bool-cases (same_text token t)) [
        | inl y ↦
            let same = same_text→eq token t y in
            let (r, f) = first_where-something (has_token token) db.push_tokens e in
            let (i, h) = In-first_where (has_token token) db.push_tokens r f in
            let f' = subst (λ s. first_where (has_token s) db.push_tokens ≡ some r) same f in
            rw (f', h, y) refl
        | inr n ↦ rw n (elim (Option-cases (first_where (has_token t) db.push_tokens)) [
          | inl f ↦ rw f refl
          | inr (r, f) ↦
              let (i, h) = In-first_where (has_token t) db.push_tokens r f in
              let keeps : has_token token r ≡ false =
                ap (λ s. same_text s token) (same_text→eq r.token t h) ∙ same_text_swap token t n in
              rw (f, keeps) refl
        ])
      ]

  appended-owner :
      (t : Text)
      → exists_where (has_token token) db.push_tokens ≡ false
      → owner_of (first_where (has_token t) (db.push_tokens ++ row ∷ []))
        ≡ assigned token user (registry db) t
  appended-owner t e = elim (Bool-cases (same_text token t)) [
    | inl y ↦
        let same = same_text→eq token t y in
        rw
          (
            y,
            first_where-append_hit (has_token t) db.push_tokens row
                (ap (λ s. first_where (has_token s) db.push_tokens) (sym same)
                  ∙ first_where-nothing (has_token token) db.push_tokens e)
                y,
          )
          refl
    | inr n ↦ rw (n, first_where-append_skip (has_token t) db.push_tokens row n) refl
  ]

  -- Upsert, where it succeeds, assigns the token to the user.
  pub upsert-assigned :
      (after : Db)
      → upsert_token_rows token user platform now db ≡ ok (tt, after)
      → registry after ≡ assigned token user (registry db)
  unfolding upsert_token_rows
  upsert-assigned after h = elim (Bool-cases (user_exists db user)) [
    | inr u ↦ absurd (
        let x : ◌≡◌ {A = Result (Unit {0} × Db)} (err foreign_key_violation) (ok (tt, after)) =
          rw u at h in
        cc x)
    | inl u ↦ fun_ext (elim (Bool-cases (exists_where (has_token token) db.push_tokens)) [
      | inl e ↦ λ t.
          let rows =
            pushed db after (update_where (has_token token) take_over db.push_tokens)
              (rw (u, e) at h) in
          ap (λ l. owner_of (first_where (has_token t) l)) (sym rows) ∙ updated-owner t e
      | inr e ↦ λ t.
          let rows = pushed db after (db.push_tokens ++ row ∷ []) (rw (u, e) at h) in
          ap (λ l. owner_of (first_where (has_token t) l)) (sym rows) ∙ appended-owner t e
    ])
  ]

any_of-listed : (ts : List Text) (r : TokenRow) → any_of ts r ≡ listed ts r.token
any_of-listed [] r = refl
any_of-listed (t ∷ ts) r = ap (λ b. has_token t r || b) (any_of-listed ts r)

deleted-owner :
    (ts : List Text) (t : Text) (rows : List TokenRow)
    → owner_of (first_where (has_token t) (delete_where (any_of ts) rows))
      ≡ (if listed ts t then none else owner_of (first_where (has_token t) rows))
deleted-owner ts t [] = elim (Bool-cases (listed ts t)) [ inl e ↦ rw e refl | inr e ↦ rw e refl ]
deleted-owner ts t (r ∷ rows) =
    let ih = deleted-owner ts t rows in
    elim (Bool-cases (has_token t r)) [
      | inl h ↦
          let same : any_of ts r ≡ listed ts t =
            any_of-listed ts r ∙ ap (listed ts) (same_text→eq r.token t h) in
          elim (Bool-cases (listed ts t)) [
            | inl e ↦ rw (same ∙ e, e) (ih ∙ rw e refl)
            | inr e ↦ rw (same ∙ e, e, h) refl
          ]
      | inr h ↦ elim (Bool-cases (any_of ts r)) [ inl e ↦ rw (e, h) ih | inr e ↦ rw (e, h) ih ]
    ]

-- The table of tokens implements a map from tokens to users: an upsert that succeeds assigns the one
-- token to the user, whether it was registered or not, a deletion removes exactly the tokens it is
-- given, and what is read of every other token stays.
pub store-Registry :
    (db : Db)
    → ((token : Text) (user : ℕ) (platform : Text) (now : ℕ) (after : Db)
        → upsert_token_rows token user platform now db ≡ ok (tt, after)
        → registry after ≡ assigned token user (registry db))
      × ((ts : List Text) → registry (delete_token_rows ts db) ≡ without ts (registry db))
unfolding delete_token_rows
store-Registry db = (
  (λ token user platform now after h. upsert-assigned token user platform now db after h),
  (λ ts. fun_ext (λ t. deleted-owner ts t db.push_tokens)),
)
