-- ===== src/Auth/Session.antt =====
-- Which session tokens of internal/auth/auth.go open a session, and until when.
use convoy_backend.Base.{
  refl, arith, ltb→lt, inr, inl, some, none, Bool-cases, ◌≤◌, ◌+◌, ◌≤◌, ◌+◌, ltb, true, ◌++◌, ◌<◌,
  if◌then◌else◌, ◌++◌, ◌<◌, if◌then◌else◌, some, ◌≡◌, ◌≡◌, Option, ℕ,
}
use convoy_backend.Text.{Text}
use convoy_backend.Httpx.{err_unauthorized}
use convoy_backend.Exec.{err, raise, pure, ◌>>=◌}
use convoy_backend.Schema.Query.{Session}
use convoy_backend.Auth.Tokens.{Jwt, Claims, Method, hmac, Signer, issue, verify, key_for}
use convoy_backend.Auth.Users.{authenticate, bearer, load_user}

-- What golang-jwt and google/uuid document: a token that was signed parses with the same HMAC secret
-- and has its claims before it expires, and does not parse afterwards; a UUID is read back.
pub record Documented (jwt : Jwt) : Type 0 where
  pub parses :
      (secret token : Text) (c : Claims) (key : Method → Option Text) (now : ℕ)
      → jwt.signed secret c ≡ some token
      → key hmac ≡ some secret
      → now < c.exp
      → jwt.parse key now token ≡ some (record { valid = true; sub = some c.sub })
  pub expires :
      (secret token : Text) (c : Claims) (key : Method → Option Text) (now : ℕ)
      → jwt.signed secret c ≡ some token
      → key hmac ≡ some secret
      → c.exp ≤ now
      → jwt.parse key now token ≡ none
  pub reads : (id : ℕ) → jwt.uuid_parse (jwt.uuid_text id) ≡ some id

module _ (signer : Signer) (documented : Documented signer.jwt) (user at_time : ℕ) (token : Text)
    (is_issued : issue signer at_time user ≡ some token) where
  verify-issue :
      (now : ℕ)
      → verify signer now token ≡ (if ltb now (at_time + signer.ttl) then some user else none)
  unfolding verify issue
  verify-issue now = elim (Bool-cases (ltb now (at_time + signer.ttl))) [
    | inl early ↦
        rw
          (
            early,
            documented.parses signer.secret token _ (key_for signer.secret) now is_issued refl
                (ltb→lt _ _ early),
          )
          (documented.reads user)
    | inr late ↦
        rw
          (
            late,
            documented.expires signer.secret token _ (key_for signer.secret) now is_issued refl
                (ground (arith, late)),
          )
          refl
  ]

  -- A token of Issue, sent as a bearer token, loads its own user, and only while less than the
  -- lifetime has passed since it was issued; from then on it is refused without a query.
  pub authenticate-issue :
      (now : ℕ) (s : Session)
      → authenticate signer now (bearer ++ token) s
        ≡ (if ltb now (at_time + signer.ttl) then load_user user s else (err err_unauthorized, s))
  unfolding authenticate raise pure ◌>>=◌
  authenticate-issue now s = elim (Bool-cases (ltb now (at_time + signer.ttl))) [
    | inl early ↦ rw (verify-issue now, early) refl
    | inr late ↦ rw (verify-issue now, late) refl
  ]
