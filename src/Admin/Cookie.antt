-- ===== src/Admin/Cookie.antt =====
-- Which cookies open the dashboard of internal/admin/admin.go.
use mathlib.Core.List.{append_assoc}
use convoy_backend.Base.{
  leb, ◌*◌, ◌*◌, subst, ◌⊎◌, ==→eq, ◌⊎◌, and-true, Option, true, sym, ◌%◌, ◌+◌, some, ◌+◌, none,
  ◌-◌, ◌-◌, ◌/◌, if◌then◌else◌, inr, if◌then◌else◌, arith, some, ◌∙◌, ◌∙◌, inl, refl, ◌<◌, false,
  ltb, ap, ◌<◌, ◌==◌, ◌∷◌, Bool, Bool-cases, ◌==◌, [], ◌≡◌, ◌++◌, ◌≡◌, ◌∷◌, ℕ, List, zero, suc,
}
use convoy_backend.Text.{runes, Text, same_text, same_text_refl, same_text→eq}
use convoy_backend.Admin.Decimal.{digits, sprint, sscan, sscan-sprint}
use convoy_backend.Admin.Session.{
  second, unix_limit, unauthorized, redirect, Admin, Page, signed_in, session_version,
  session_lifetime, dot, payload_of, sign_session, cons_part, split_dots, in_time, parts_verified,
  verify_session, require_auth, login_submit,
}

abbrev pub NoDot : Text → Type 0
NoDot [] = Unit {0}
NoDot (c ∷ s) = ((c == b'.') ≡ false) × NoDot s

digits-NoDot : (fuel n : ℕ) (out : Text) → NoDot out → NoDot (digits fuel n out)
unfolding digits
digits-NoDot zero n out h = h
digits-NoDot (suc fuel) n out h = elim (Bool-cases (ltb n 10)) [
  | inl l ↦ rw l (ground arith, h)
  | inr l ↦ rw l (digits-NoDot fuel (n / 10) ((b'0' + n % 10) ∷ out) (ground arith, h))
]

split_dots-NoDot : (s : Text) → NoDot s → split_dots s ≡ s ∷ []
unfolding split_dots
split_dots-NoDot [] h = refl
split_dots-NoDot (c ∷ s) (h, hs) = rw (h, split_dots-NoDot s hs) refl

split_dots-part : (s rest : Text) → NoDot s → split_dots (s ++ dot ++ rest) ≡ s ∷ split_dots rest
unfolding split_dots
split_dots-part [] rest h = refl
split_dots-part (c ∷ s) rest (h, hs) = rw (h, split_dots-part s rest hs) refl

-- The three parts of a signed cookie.
split-sign :
    (m : Admin) (t : ℕ)
    → ((secret payload : Text) → NoDot (m.mac secret payload))
    → split_dots (sign_session m t)
      ≡ session_version
        ∷ sprint t
        ∷ m.mac m.cookie_secret (payload_of session_version (sprint t))
        ∷ []
unfolding sign_session sprint
split-sign m t plain =
    let sig = m.mac m.cookie_secret (payload_of session_version (sprint t)) in
    split_dots-part session_version (sprint t ++ dot ++ sig) (refl, (refl, tt))
    ∙ ap (λ ps. session_version ∷ ps)
        (split_dots-part (sprint t) sig (digits-NoDot 20 t [] tt)
          ∙ ap (λ ps. sprint t ∷ ps) (split_dots-NoDot sig (plain _ _)))

beyond : (n t : ℕ) → t < n → leb n t ≡ false
beyond n t l = ground arith

-- the age of a cookie that was issued at the second `t`, beyond the lifetime
abbrev pub outlived : ℕ → ℕ → Bool
outlived now t = ltb session_lifetime (now - t * second)

opened :
    {A : Type 0} (page : Page → A) (m : Admin) (t now : ℕ) (cookie : Text) (is_htmx : Bool)
    (next : A)
    → ((secret payload : Text) → NoDot (m.mac secret payload))
    → t < unix_limit
    → cookie ≡ sign_session m t
    → require_auth page m now (some cookie) is_htmx next
      ≡ (if outlived now t then require_auth page m now none is_htmx next else next)
unfolding require_auth verify_session
opened page m t now cookie is_htmx next plain small same =
    rw
      (
        same,
        split-sign m t plain,
        same_text_refl (m.mac m.cookie_secret (payload_of session_version (sprint t))),
        sscan-sprint t (omega (arith, small)),
        beyond unix_limit t small,
      )
      (elim (Bool-cases (outlived now t)) [ inl l ↦ rw l refl | inr l ↦ rw l refl ])

-- A cookie that a login sets opens the dashboard until more than seven days have passed since the
-- second of the login; from then on the request is sent to the login page. Base64 text has no dot, and
-- the login is not in the remote future, where the count of seconds overflows.
pub require_auth-login :
    {A : Type 0} (page : Page → A) (m : Admin) (t now : ℕ) (pw cookie : Text) (is_htmx : Bool)
    (next : A)
    → ((secret payload : Text) → NoDot (m.mac secret payload))
    → t / second < unix_limit
    → login_submit m t (some pw) ≡ signed_in cookie
    → (pw ≡ m.password)
      × (require_auth page m now (some cookie) is_htmx next
          ≡ (if outlived now (t / second) then require_auth page m now none is_htmx next else next))
unfolding login_submit require_auth verify_session
require_auth-login page m t now pw cookie is_htmx next plain small logged =
    elim (Bool-cases (same_text pw m.password)) [
      | inr wrong ↦ absurd (
          let e : redirect (runes "/admin/login?err=invalid") ≡ signed_in cookie =
            rw wrong at logged in
          cc e)
      | inl right ↦
          let e : signed_in (sign_session m (t / second)) ≡ signed_in cookie = rw right at logged in
          let same : cookie ≡ sign_session m (t / second) = cc e in
          (
            same_text→eq pw m.password right,
            opened page m (t / second) now cookie is_htmx next plain small same,
          )
    ]

abbrev joined : Text → List Text → Text
joined p [] = p
joined p (q ∷ ps) = p ++ b'.' ∷ joined q ps

abbrev join_dots : List Text → Text
join_dots [] = []
join_dots (p ∷ ps) = joined p ps

join-cons_part : (c : ℕ) (ps : List Text) → join_dots (cons_part c ps) ≡ c ∷ join_dots ps
join-cons_part c [] = refl
join-cons_part c (p ∷ []) = refl
join-cons_part c (p ∷ q ∷ ps) = refl

split_dots-cons : (s : Text) → (p : Text) × (ps : List Text) × (split_dots s ≡ p ∷ ps)
unfolding split_dots
split_dots-cons [] = ([], [], refl)
split_dots-cons (c ∷ s) =
    let (p, ps, e) = split_dots-cons s in
    elim (Bool-cases (c == b'.')) [
      | inl d ↦ ([], split_dots s, rw d refl)
      | inr d ↦ (c ∷ p, ps, rw (d, e) refl)
    ]

join-split : (s : Text) → join_dots (split_dots s) ≡ s
unfolding split_dots
join-split [] = refl
join-split (c ∷ s) = elim (Bool-cases (c == b'.')) [
  | inr d ↦ rw d (join-cons_part c (split_dots s) ∙ ap (λ r. c ∷ r) (join-split s))
  | inl d ↦
      let (p, ps, e) = split_dots-cons s in
      let j = join-split s in
      rw (d, e)
        (let k : joined p ps ≡ s = rw e at j in
          ap (λ r. b'.' ∷ r) k ∙ ap (λ x. x ∷ s) (sym (==→eq c b'.' d)))
]

-- The cookie is a time and the signature of it, and the time is not too long ago.
pub record Signed (m : Admin) (now : ℕ) (cookie : Text) : Type 0 where
  pub issued : Text
  pub text :
      cookie
      ≡ payload_of session_version issued
        ++ dot
        ++ m.mac m.cookie_secret (payload_of session_version issued)
  pub recent : in_time now (sscan issued) ≡ true

parts-Signed :
    (m : Admin) (now : ℕ) (cookie : Text) (parts : List Text)
    → join_dots parts ≡ cookie
    → parts_verified m now parts ≡ true
    → Signed m now cookie
parts-Signed m now cookie [] j h = cc h
parts-Signed m now cookie (v ∷ []) j h = cc h
parts-Signed m now cookie (v ∷ i ∷ []) j h = cc h
parts-Signed m now cookie (v ∷ i ∷ s ∷ x ∷ ps) j h = cc h
parts-Signed m now cookie (v ∷ i ∷ s ∷ []) j h =
    let (front, recent) = and-true _ (in_time now (sscan i)) h in
    let (version, sig) = and-true (same_text v session_version) _ front in
    let ev = same_text→eq v session_version version in
    let es : m.mac m.cookie_secret (payload_of session_version i) ≡ s =
      subst (λ u. m.mac m.cookie_secret (payload_of u i) ≡ s) ev (same_text→eq _ s sig) in
    record {
      issued = i;
      text =
          sym j
          ∙ ap (λ u. u ++ b'.' ∷ (i ++ b'.' ∷ s)) ev
          ∙ ap (λ u. session_version ++ b'.' ∷ (i ++ b'.' ∷ u)) (sym es)
          ∙ ap (λ u. session_version ++ b'.' ∷ u) (sym (append_assoc i dot _));
      recent = recent;
    }

verify-Signed :
    (m : Admin) (now : ℕ) (text : Text) → verify_session m now text ≡ true → Signed m now text
unfolding verify_session
verify-Signed m now text v = parts-Signed m now text (split_dots text) (join-split text) v

-- Nothing else opens the dashboard: a request reaches the handler behind requireAuth only if its
-- cookie is v1, a time that is not more than seven days ago, and the HMAC of both under the secret,
-- joined by dots; any other request gets a redirect to the login page, or 401 under HTMX.
pub require_auth-Signed :
    (m : Admin) (now : ℕ) (cookie : Option Text) (is_htmx : Bool)
    → ((text : Text) × (cookie ≡ some text) × Signed m now text)
      ⊎ (require_auth {A = Option Page} some m now cookie is_htmx none
          ≡ some (if is_htmx then unauthorized else redirect (runes "/admin/login")))
unfolding require_auth
require_auth-Signed m now none true = inr refl
require_auth-Signed m now none false = inr refl
require_auth-Signed m now (some text) is_htmx = elim (Bool-cases (verify_session m now text)) [
  | inl v ↦ inl (text, refl, verify-Signed m now text v)
  | inr v ↦ inr (rw v (elim (Bool-cases is_htmx) [ inl h ↦ rw h refl | inr h ↦ rw h refl ]))
]
