-- ===== src/Auth/Providers.antt =====
-- internal/auth/providers: Verify of the Google and of the Apple verifier. The JWT library, which
-- checks the signature against the provider's keys, is a parameter.
use convoy_backend.Base.{
  ◌∙◌, ◌∙◌, ap, sym, and-true, inr, inl, refl, ◌||◌, ◌||◌, Bool-cases, ltb, In, if◌then◌else◌, ◌≡◌,
  ◌&&◌, false, ◌&&◌, ◌≡◌, not, if◌then◌else◌, true, ℕ, Bool, [], Option, some, ◌∷◌, none, List,
}
use convoy_backend.Text.{same_text→eq, Text, runes, trim_space, is_empty, same_text}

-- Identity of providers.go; a missing field is empty
pub record Identity : Type 0 where
  pub provider : Text
  pub subject : Text
  pub email : Text
  pub display_name : Text
  pub avatar_url : Text

-- the claim email_verified, by its JSON type
pub data Flag : Type 0 where
  no_flag other_flag : Flag
  bool_flag : Bool → Flag
  text_flag : Text → Flag

-- the claims that are read; none where one is missing or no string
pub record IdClaims : Type 0 where
  pub iss : Option Text
  pub aud : Option Text
  pub sub : Option Text
  pub exp : Option ℕ
  pub email : Option Text
  pub email_verified : Flag
  pub name : Option Text
  pub picture : Option Text

-- jwt.ParseWithClaims with the keys of the provider, for the one signing method given, at a time:
-- whether the token is valid, and its claims
abbrev pub IdParser : Type 0
IdParser = Text → ℕ → Text → Option (Bool × IdClaims)

-- claims["..."].(string), with "" for a failed assertion
abbrev pub text_of : Option Text → Text
text_of none = []
text_of (some t) = t

abbrev pub contains : List Text → Text → Bool
contains [] needle = false
contains (s ∷ haystack) needle = same_text s needle || contains haystack needle

-- exp != nil && time.Now().After(exp)
abbrev pub expired : ℕ → Option ℕ → Bool
expired now none = false
expired now (some t) = ltb t now

abbrev pub is_true : Text → Bool
is_true t = same_text t (runes "true")

abbrev pub google_verified : Flag → Bool
google_verified (bool_flag b) = b
google_verified (text_flag t) = is_true t
google_verified no_flag = false
google_verified other_flag = false

-- Apple's switch: any other type counts as verified
abbrev pub apple_verified : Flag → Bool
apple_verified (bool_flag b) = b
apple_verified (text_flag t) = is_true t
apple_verified no_flag = true
apple_verified other_flag = true

abbrev pub trusted_email : (Flag → Bool) → IdClaims → Text
trusted_email verified c = if verified c.email_verified then text_of c.email else []

-- issuer, audience, subject and expiry
abbrev pub acceptable : List Text → List Text → ℕ → IdClaims → Bool
acceptable issuers audiences now c =
    contains issuers (text_of c.iss)
    && contains audiences (text_of c.aud)
    && not (is_empty (text_of c.sub))
    && not (expired now c.exp)

abbrev pub google_identity : IdClaims → Identity
google_identity c = record {
  provider = runes "google";
  subject = text_of c.sub;
  email = trusted_email google_verified c;
  display_name = text_of c.name;
  avatar_url = text_of c.picture;
}

abbrev pub apple_identity : IdClaims → Identity
apple_identity c = record {
  provider = runes "apple";
  subject = text_of c.sub;
  email = trusted_email apple_verified c;
  display_name = [];
  avatar_url = [];
}

abbrev pub checked :
    List Text → List Text → (IdClaims → Identity) → ℕ → Option (Bool × IdClaims) → Option Identity
checked issuers audiences make now none = none
checked issuers audiences make now (some (valid, c)) =
    if valid && acceptable issuers audiences now c then some (make c) else none

abbrev pub google_issuers : List Text
google_issuers = runes "https://accounts.google.com" ∷ runes "accounts.google.com" ∷ []

abbrev pub apple_issuer : Text
apple_issuer = runes "https://appleid.apple.com"

module _ (parse : IdParser) (audiences : List Text) (now : ℕ) (token : Text) where
  unfoldable pub google_verify : Option Identity
  google_verify =
      let id_token = trim_space token in
      if is_empty id_token
      then none
      else checked google_issuers audiences google_identity now (parse (runes "RS256") now id_token)

  unfoldable pub apple_verify : Option Identity
  apple_verify =
      let id_token = trim_space token in
      if is_empty id_token
      then none
      else checked (apple_issuer ∷ []) audiences apple_identity now
          (parse (runes "ES256") now id_token)

-- NewGoogleVerifier and NewAppleVerifier, where the keys were fetched
unfoldable pub new_verifier : Bool → List Text → Option (List Text)
new_verifier fetched [] = none
new_verifier fetched (a ∷ audiences) = if fetched then some (a ∷ audiences) else none

no_identity : (i : Identity) → ¬ (none ≡ some i)
no_identity i h = cc h

not-true : (b : Bool) → not b ≡ true → b ≡ false
not-true true h = cc h
not-true false h = refl

In-contains :
    (haystack : List Text) (needle : Text) → contains haystack needle ≡ true → In needle haystack
In-contains [] needle h = cc
In-contains (s ∷ haystack) needle h = elim (Bool-cases (same_text s needle)) [
  | inl e ↦ inl (sym (same_text→eq s needle e))
  | inr e ↦ inr (In-contains haystack needle (rw e at h))
]

-- The claims of a token that the library finds valid carry the identity.
pub record Vetted (issuers audiences : List Text) (now : ℕ) (verified : Flag → Bool)
    (parsed : Option (Bool × IdClaims)) (i : Identity) : Type 0 where
  pub claims : IdClaims
  pub valid : parsed ≡ some (true, claims)
  pub issuer : In (text_of claims.iss) issuers
  pub audience : In (text_of claims.aud) audiences
  pub subject : (i.subject ≡ text_of claims.sub) × (is_empty i.subject ≡ false)
  pub fresh : expired now claims.exp ≡ false
  pub email : verified claims.email_verified ≡ false → i.email ≡ []

checked-Vetted :
    (issuers audiences : List Text) (verified : Flag → Bool) (make : IdClaims → Identity) (now : ℕ)
    (parsed : Option (Bool × IdClaims)) (i : Identity)
    → ((c : IdClaims) → (make c).subject ≡ text_of c.sub)
    → ((c : IdClaims) → (make c).email ≡ trusted_email verified c)
    → checked issuers audiences make now parsed ≡ some i
    → Vetted issuers audiences now verified parsed i
checked-Vetted issuers audiences verified make now none i sub mail h = cc
checked-Vetted issuers audiences verified make now (some (valid, c)) i sub mail h =
    elim (Bool-cases (valid && acceptable issuers audiences now c)) [
      | inr e ↦ absurd (let h' : ◌≡◌ {A = Option Identity} none (some i) = rw e at h in cc h')
      | inl e ↦
          let (v, a) = and-true valid _ e in
          let (a2, x) = and-true _ (not (expired now c.exp)) a in
          let (a3, s) = and-true _ (not (is_empty (text_of c.sub))) a2 in
          let (iss, aud) = and-true (contains issuers (text_of c.iss)) _ a3 in
          let h' : ◌≡◌ {A = Option Identity} (some (make c)) (some i) = rw e at h in
          let same : make c ≡ i = cc h' in
          let se = ap (λ (j : Identity). j.subject) (sym same) ∙ sub c in
          record {
            claims = c;
            valid = ap (λ b. some (b, c)) v;
            issuer = In-contains issuers _ iss;
            audience = In-contains audiences _ aud;
            subject = (se, rw se (not-true _ s));
            fresh = not-true _ x;
            email = λ u. ap (λ (j : Identity). j.email) (sym same) ∙ mail c ∙ rw u refl;
          }
    ]

-- An identity comes only out of a token that the provider's keys verify with the provider's own
-- signing method, whose issuer is the provider's, whose audience is one of the configured client ids,
-- which has a subject and is not expired; its subject is the token's, and an email address that the
-- provider says is not verified is left out.
pub verify-Vetted :
    (parse : IdParser) (audiences : List Text) (now : ℕ) (token : Text) (i : Identity)
    → (google_verify parse audiences now token ≡ some i
        → Vetted google_issuers audiences now google_verified
            (parse (runes "RS256") now (trim_space token))
            i)
      × (apple_verify parse audiences now token ≡ some i
          → Vetted
              (apple_issuer ∷ [])
              audiences
              now
              apple_verified
              (parse (runes "ES256") now (trim_space token))
              i)
unfolding google_verify apple_verify
verify-Vetted parse audiences now token i = elim (Bool-cases (is_empty (trim_space token))) [
  | inl e ↦ ((λ h. absurd (no_identity i (rw e at h))), (λ h. absurd (no_identity i (rw e at h))))
  | inr e ↦ (
    (λ h.
        checked-Vetted google_issuers audiences google_verified google_identity now
          (parse (runes "RS256") now (trim_space token)) i (λ c. refl) (λ c. refl) (rw e at h)),
    (λ h.
        checked-Vetted (apple_issuer ∷ []) audiences apple_verified apple_identity now
          (parse (runes "ES256") now (trim_space token)) i (λ c. refl) (λ c. refl) (rw e at h)),
  )
]
