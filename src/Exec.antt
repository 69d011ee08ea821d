-- ===== src/Exec.antt =====
-- Go functions that return `(value, error)` and change state: what was written before an error
-- stays written, so the state comes back beside the error.
pub mod Keeps
pub mod Leads
use convoy_backend.Base.{◌≡◌, refl, Bool, true, false}
use convoy_backend.Httpx.{Error}

pub data Result (A : Type 0) : Type 0 where
  ok : A → Result A
  err : Error → Result A

abbrev pub Exec : Type 0 → Type 0 → Type 0
Exec S A = S → Result A × S

-- `return nil, other(err)`
abbrev pub translate : {A : Type 0} → (Error → Error) → Result A → Result A
translate f (ok a) = ok a
translate f (err e) = err (f e)

module _ {S A : Type 0} where
  unfoldable pub pure : A → Exec S A
  pure a s = (ok a, s)

  unfoldable pub raise : Error → Exec S A
  raise e s = (err e, s)

  unfoldable pub gets : (S → A) → Exec S A
  gets f s = (ok (f s), s)

  -- the error as a value, for `if err == nil` and for results that the source drops
  unfoldable pub attempt : Exec S A → Exec S (Result A)
  attempt m s = let (r, s') = m s in (ok r, s')

  unfoldable pub map_err : (Error → Error) → Exec S A → Exec S A
  map_err f m s = let (r, s') = m s in (translate f r, s')

-- what follows a result: the rest of the function, or its early return
abbrev pub continue : {W V N : Type 0} → Result V → (V → Exec W N) → Exec W N
continue (err e) next w = (err e, w)
continue (ok v) next w = next v w

module _ {W V N : Type 0} where
  infixl 10 ◌>>=◌ ◌>>◌
  unfoldable pub ◌>>=◌ : Exec W V → (V → Exec W N) → Exec W N
  unfolding raise pure attempt map_err gets
  ◌>>=◌ act next w = continue (act w).0 next (act w).1

  abbrev pub ◌>>◌ : Exec W V → Exec W N → Exec W N
  first >> second = first >>= λ v. second

module _ {S : Type 0} where
  unfoldable pub modify : (S → S) → Exec S (Unit {0})
  modify f s = (ok tt, f s)

  -- `if bad { return e }`
  abbrev pub refuse : Bool → Error → Exec S (Unit {0})
  refuse true e = raise e
  refuse false e = pure tt
