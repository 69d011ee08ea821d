-- ===== src/Server/Cors.antt =====
-- corsMiddleware of cmd/server/main.go
use convoy_backend.Base.{
  [], ◌∷◌, true, some, none, ◌∷◌, some, false, if◌then◌else◌, Bool, if◌then◌else◌, List, Option,
}
use convoy_backend.Text.{Text, runes, same_text}

pub record CorsHeaders : Type 0 where
  pub allow_origin : Option Text
  pub allow_methods : Text
  pub allow_headers : Text
  pub max_age : Text

-- len(allowed) == 1 && allowed[0] == "*"
abbrev pub allows_all : List Text → Bool
allows_all [] = false
allows_all (a ∷ []) = same_text a (runes "*")
allows_all (a ∷ b ∷ rest) = false

abbrev pub has_origin : List Text → Text → Bool
has_origin [] origin = false
has_origin (a ∷ allowed) origin = if same_text a origin then true else has_origin allowed origin

unfoldable pub allowed_origin : List Text → Text → Option Text
allowed_origin allowed origin =
    if allows_all allowed
    then some (runes "*")
    else if has_origin allowed origin
    then some origin
    else none

unfoldable pub cors_headers : List Text → Text → CorsHeaders
unfolding allowed_origin
cors_headers allowed origin = record {
  allow_origin = allowed_origin allowed origin;
  allow_methods = runes "GET, POST, PUT, PATCH, DELETE, OPTIONS";
  allow_headers = runes "Authorization, Content-Type";
  max_age = runes "300";
}

-- a preflight request is answered with 204 here, any other goes to the next handler
unfoldable pub cors : {A : Type 0} → List Text → Text → Text → A → (CorsHeaders → A) → A
unfolding cors_headers
cors allowed origin method answered next =
    if same_text method (runes "OPTIONS") then answered else next (cors_headers allowed origin)
