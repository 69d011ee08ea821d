-- ===== src/Web.antt =====
-- What the HTTP handlers outside the rooms share: the request, decoded, the user in its context, and
-- the answer. The body of a handler is an action that fails where the handler calls WriteErr.
use convoy_backend.Base.{some, none, String, some, Option, ℕ}
use convoy_backend.Httpx.{ApiError, api_err, err_unauthorized, write_err}
use convoy_backend.Exec.{Result, ok, err, Exec, pure, raise, attempt, ◌>>=◌}

-- httpx.Decode: the body, or the text of the decoder's error
pub data Decoded (A : Type 0) : Type 0 where
  body : A → Decoded A
  undecodable : String → Decoded A

-- httpx.Decode where its error is dropped: what it has filled in, and the error. The decoder fills in the
-- fields that it has read before an error, so that an unknown field does not undo the known ones.
pub record Filled (A : Type 0) : Type 0 where
  pub target : A
  pub problem : Option String

-- what a handler writes: a status with a JSON body, a status alone, or an API error
pub data Answer (A : Type 0) : Type 0 where
  reply : ℕ → A → Answer A
  no_body : ℕ → Answer A
  refusal : ApiError → Answer A

abbrev pub answered : {A B : Type 0} → (A → Answer B) → Result A → Answer B
answered f (ok a) = f a
answered f (err e) = refusal (write_err e)

module _ {S A B : Type 0} where
  -- the body of a handler, then its last line
  unfoldable pub served : Exec S A → (A → Answer B) → Exec S (Answer B)
  served m f = do r ← attempt m; pure (answered f r)

module _ {S A : Type 0} where
  abbrev pub decoded : Decoded A → Exec S A
  decoded (body a) = pure a
  decoded (undecodable msg) = raise (api_err 400 "invalid_body" msg)

  -- auth.FromContext, or 401
  abbrev pub in_context : Option A → Exec S A
  in_context (some a) = pure a
  in_context none = raise err_unauthorized
