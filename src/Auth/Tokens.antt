-- ===== src/Auth/Tokens.antt =====
-- Issue and Verify of internal/auth/auth.go.
use convoy_backend.Base.{
  not, some, if◌then◌else◌, none, if◌then◌else◌, ◌+◌, some, [], ◌+◌, Bool, Option, ℕ,
}
use convoy_backend.Text.{Text}
use convoy_backend.Httpx.{other}
use convoy_backend.Exec.{Exec, pure, raise}

-- the signing method that a token names
pub data Method : Type 0 where
  hmac other_method : Method

pub record Claims : Type 0 where
  pub sub : Text
  pub exp : ℕ
  pub iat : ℕ

-- a parsed token; `sub` is none where the claim is missing or no string
pub record Parsed : Type 0 where
  pub valid : Bool
  pub sub : Option Text

-- golang-jwt and google/uuid: SignedString with HS256, Parse with the function that gives the key for
-- a method, at a time, and UUIDs as text
pub record Jwt : Type 0 where
  pub signed : Text → Claims → Option Text
  pub parse : (Method → Option Text) → ℕ → Text → Option Parsed
  pub uuid_text : ℕ → Text
  pub uuid_parse : Text → Option ℕ

-- Service, as far as tokens go: the secret and the lifetime in seconds
pub record Signer : Type 0 where
  pub jwt : Jwt
  pub secret : Text
  pub ttl : ℕ

unfoldable pub issue : Signer → ℕ → ℕ → Option Text
issue s now user =
    s.jwt.signed s.secret (record { sub = s.jwt.uuid_text user; exp = now + s.ttl; iat = now })

-- the function given to jwt.Parse: only HMAC methods get the secret
abbrev pub key_for : Text → Method → Option Text
key_for secret hmac = some secret
key_for secret other_method = none

-- claims["sub"].(string), with "" for a failed assertion
abbrev pub sub_text : Option Text → Text
sub_text none = []
sub_text (some t) = t

abbrev pub subject_of : Jwt → Option Parsed → Option ℕ
subject_of jwt none = none
subject_of jwt (some p) = if not p.valid then none else jwt.uuid_parse (sub_text p.sub)

unfoldable pub verify : Signer → ℕ → Text → Option ℕ
verify s now token = subject_of s.jwt (s.jwt.parse (key_for s.secret) now token)

-- `if err != nil { return err }` after Issue
abbrev pub issued : {S : Type 0} → Option Text → Exec S Text
issued none = raise (other "token signing failed")
issued (some t) = pure t
