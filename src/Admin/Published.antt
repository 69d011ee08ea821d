-- ===== src/Admin/Published.antt =====
-- What the settings page (internal/admin/settings.go) publishes to the apps.
use convoy_backend.Admin.Versions.{floor_of-semver}
use convoy_backend.Schema.Leads.{Leads-write}
use convoy_backend.Schema.Query.{OnDb}
use convoy_backend.Exec.Leads.{Leads-tried, Leads->>=, Leads-pure, Outcome, Leads}
use convoy_backend.Admin.Settings.{
  save_version, settings_submit, saved_or, to_settings, is_semver, SettingsPage,
}
use convoy_backend.Base.{
  sym, ◌∙◌, Option-cases, ◌∙◌, ◌⊎◌, ◌⊎◌, ap, ◌∷◌, refl, [], ◌∷◌, inr, some, none, inl, false, true,
  Bool-cases, ◌≡◌, ◌≡◌, List, ℕ, Bool,
}
use convoy_backend.Base.Rows.{
  In-first_where, first_where-append_skip, first_where, exists_where, first_where-update_where,
  first_where-append_hit,
}
use convoy_backend.Text.{
  same_text_swap, same_text→eq, runes, trim_space, same_text, Text, same_text_refl,
}
use convoy_backend.Exec.{err, pure, Result, ok}
use convoy_backend.Schema.{Db}
use convoy_backend.Config.AppConfig.{
  set, has_key, value_of, new_setting, set_rows, key_min_client_version, floor_of,
}

-- what MinClientVersion reads
abbrev pub floor_in : Db → Text
floor_in db = floor_of (value_of (first_where (has_key key_min_client_version) db.app_config))

first_where-none_of :
    {A : Type 0} (p : A → Bool) (xs : List A) → exists_where p xs ≡ false → first_where p xs ≡ none
first_where-none_of p [] e = refl
first_where-none_of p (x ∷ xs) e = elim (Bool-cases (p x)) [
  | inl y ↦ absurd (let c : true ≡ false = rw y at e in cc c)
  | inr n ↦ rw n (first_where-none_of p xs (rw n at e))
]

first_where-some_of :
    {A : Type 0} (p : A → Bool) (xs : List A)
    → exists_where p xs ≡ true
    → (a : A) × (first_where p xs ≡ some a) × (p a ≡ true)
first_where-some_of p [] e = cc e
first_where-some_of p (x ∷ xs) e = elim (Bool-cases (p x)) [
  | inl y ↦ (x, rw y refl, y)
  | inr n ↦ let (a, f, h) = first_where-some_of p xs (rw n at e) in (a, rw n f, h)
]

-- A setting that was written is read back.
value-set :
    (key value : Text) (now : ℕ) (db : Db)
    → value_of (first_where (has_key key) (set_rows key value now db).app_config) ≡ ok value
unfolding set_rows
value-set key value now db = elim (Bool-cases (exists_where (has_key key) db.app_config)) [
  | inl e ↦
      let (r, f, h) = first_where-some_of (has_key key) db.app_config e in
      rw
        (
          e,
          first_where-update_where (has_key key) (has_key key)
              (λ x. record x { value = value; updated_at = now }) db.app_config (λ x. refl),
          f,
          h,
        )
        refl
  | inr e ↦
      rw
        (
          e,
          first_where-append_hit (has_key key) db.app_config (new_setting key value now)
              (first_where-none_of (has_key key) db.app_config e) (same_text_refl key),
        )
        refl
]

-- every other setting is read as before
other_settings :
    (key value : Text) (now : ℕ) (db : Db) (k : Text)
    → same_text k key ≡ false
    → first_where (has_key k) (set_rows key value now db).app_config
      ≡ first_where (has_key k) db.app_config
unfolding set_rows
other_settings key value now db k n = elim (Bool-cases (exists_where (has_key key) db.app_config)) [
  | inr e ↦ rw e (
      first_where-append_skip (has_key k) db.app_config (new_setting key value now)
        (same_text_swap k key n))
  | inl e ↦
      rw
        (
          e,
          first_where-update_where (has_key k) (has_key key)
              (λ x. record x { value = value; updated_at = now }) db.app_config (λ x. refl),
        )
        (elim (Option-cases (first_where (has_key k) db.app_config)) [
          | inl f ↦ rw f refl
          | inr (r, f) ↦
              let (i, h) = In-first_where (has_key k) db.app_config r f in
              let not_key : has_key key r ≡ false =
                ap (λ t. same_text t key) (same_text→eq r.key k h) ∙ n in
              rw (f, not_key) refl
        ])
]

-- what the administrator's page says of the tables
abbrev pub Published : Text → Db → SettingsPage → Db → Type 0
Published version before page after =
    ((page ≡ to_settings (runes "flash=saved"))
      × (is_semver version ≡ true)
      × (floor_in after ≡ version)
      × ((k : Text)
          → same_text k key_min_client_version ≡ false
          → first_where (has_key k) after.app_config ≡ first_where (has_key k) before.app_config)
      × (after ≡ record before { app_config = after.app_config }))
    ⊎ (((page ≡ to_settings (runes "err=bad_version")) × (is_semver version ≡ false)
          ⊎ (page ≡ to_settings (runes "err=db")))
        × (after ≡ before))

stored :
    (version : Text) (before after : Db) (now : ℕ)
    → after ≡ set_rows key_min_client_version version now before
    → is_semver version ≡ true
    → Published version before (to_settings (runes "flash=saved")) after
unfolding set_rows
stored version before after now e h = inl (
  refl,
  h,
  ap floor_in e
      ∙ ap floor_of (value-set key_min_client_version version now before)
      ∙ floor_of-semver version h,
  (λ k n.
      ap (λ (t : Db). first_where (has_key k) t.app_config) e
      ∙ other_settings key_min_client_version version now before k n),
  e ∙ ap (λ c. record before { app_config = c }) (sym (ap (λ (t : Db). t.app_config) e)),
)

saved_or-Leads :
    (version : Text) (before : Db) (r : Result (Unit {0}))
    → is_semver version ≡ true
    → Leads
        (Outcome
          (λ u.
            OnDb
              (λ after. (now : ℕ) × (after ≡ set_rows key_min_client_version version now before)))
          (OnDb (λ t. t ≡ before))
          r)
        (pure (saved_or r))
        (λ page. OnDb (Published version before page))
        (λ s. ⊥)
saved_or-Leads version before (err e) h =
    Leads-pure _ (λ s o. record { holds = inr (inr refl, o.holds) })
saved_or-Leads version before (ok u) h =
    Leads-pure _ (λ s o. record { holds = stored version before s.db o.holds.0 o.holds.1 h })

save_version-Leads :
    (version : Text) (before : Db)
    → Leads
        (OnDb (λ t. t ≡ before))
        (save_version version)
        (λ page. OnDb (Published version before page))
        (λ s. ⊥)
unfolding set
save_version-Leads version before = elim (Bool-cases (is_semver version)) [
  | inr n ↦ rw n (Leads-pure _ (λ s h. record { holds = inr (inl (refl, n), h.holds) }))
  | inl y ↦ rw y (
      Leads->>= _ _
        (Leads-tried _ (
          Leads-write
            {Q = λ _ after.
              (now : ℕ) × (after ≡ set_rows key_min_client_version version now before)}
            (λ now _ db. ok (tt, set_rows key_min_client_version version now db)) (λ db e. e)
            (λ now id db e. (now, ap (set_rows key_min_client_version version now) e))))
        λ r. saved_or-Leads version before r y)
]

-- The settings form answers `saved` only for a trimmed version of three numbers between dots; then
-- the endpoint /config reads exactly this version as the lowest one accepted, every other setting is
-- read as before, and no other table changes. It answers `bad_version` for any other text and `db`
-- when the write fails, and then nothing changes. It never ends in an error of its own.
pub settings_submit-Published :
    (version : Text) (before : Db)
    → Leads
        (OnDb (λ t. t ≡ before))
        (settings_submit true (some version))
        (λ page. OnDb (Published (trim_space version) before page))
        (λ s. ⊥)
unfolding settings_submit
settings_submit-Published version before = save_version-Leads (trim_space version) before
