-- ===== src/Exec/Leads.antt =====
-- What holds after an action succeeds and what after it fails, from what holds before.
use convoy_backend.Base.{Bool, true, false, refl, ◌≡◌}
use convoy_backend.Exec.{
  attempt, refuse, ◌>>◌, translate, map_err, Error, raise, pure, Result, ok, err, Exec, continue,
  ◌>>=◌,
}
use convoy_backend.Exec.Keeps.{Keeps}

abbrev pub Outcome : {S A : Type 0} → (A → S → Type 0) → (S → Type 0) → Result A → S → Type 0
Outcome Q E (ok a) s = Q a s
Outcome Q E (err e) s = E s

-- From `P` the action leads to `Q` of its value, or fails in `E`.
pub record Leads {S A : Type 0} (P : S → Type 0) (m : Exec S A) (Q : A → S → Type 0)
    (E : S → Type 0) : Type 0 where
  pub at : (s : S) → P s → Outcome Q E (m s).0 (m s).1

Outcome-both :
    {S A : Type 0} (Q F : S → Type 0) (r : Result A) (s : S)
    → ((t : S) → Q t → F t)
    → Q s
    → Outcome (λ a. Q) F r s
Outcome-both Q F (ok a) s f h = h
Outcome-both Q F (err e) s f h = f s h

Outcome-state :
    {S A : Type 0} (P : S → Type 0) (r : Result A) (s : S) → Outcome (λ a. P) P r s → P s
Outcome-state P (ok a) s h = h
Outcome-state P (err e) s h = h

Outcome-continue :
    {S A B : Type 0} (Q : A → S → Type 0) (R : B → S → Type 0) (E : S → Type 0) (r : Result A)
    (f : A → Exec S B) (s : S)
    → Outcome Q E r s
    → ((a : A) → Leads (Q a) (f a) R E)
    → Outcome R E (continue r f s).0 (continue r f s).1
Outcome-continue Q R E (ok a) f s h k = (k a).at s h
Outcome-continue Q R E (err e) f s h k = h

module _ {S A : Type 0} {P : S → Type 0} where
  -- An action that keeps `P` leads from it to it.
  pub Leads-Keeps :
      {E : S → Type 0} (m : Exec S A) → ((s : S) → P s → E s) → Keeps P m → Leads P m (λ a. P) E
  Leads-Keeps {E} m f k = record { at = λ s h. Outcome-both P E (m s).0 (m s).1 f (k.at s h) }

  pub Keeps-Leads : (m : Exec S A) → Leads P m (λ a. P) P → Keeps P m
  Keeps-Leads m k = record { at = λ s h. Outcome-state P (m s).0 (m s).1 (k.at s h) }

module _ {S A B : Type 0} {P : S → Type 0} {Q : A → S → Type 0} {R : B → S → Type 0}
    {E : S → Type 0} where
  pub Leads->>= :
      (m : Exec S A) (f : A → Exec S B)
      → Leads P m Q E
      → ((a : A) → Leads (Q a) (f a) R E)
      → Leads P (m >>= f) R E
  unfolding ◌>>=◌
  Leads->>= m f km kf = record {
    at = λ s h. Outcome-continue Q R E (m s).0 f (m s).1 (km.at s h) kf;
  }

Outcome-weaken :
    {S A : Type 0} (Q : A → S → Type 0) (E F : S → Type 0) (r : Result A) (s : S)
    → ((t : S) → E t → F t)
    → Outcome Q E r s
    → Outcome Q F r s
Outcome-weaken Q E F (ok a) s f h = h
Outcome-weaken Q E F (err e) s f h = f s h

module _ {S A : Type 0} {P : S → Type 0} {Q : A → S → Type 0} {E F : S → Type 0} where
  pub Leads-weaken : (m : Exec S A) → ((s : S) → E s → F s) → Leads P m Q E → Leads P m Q F
  Leads-weaken m f k = record { at = λ s h. Outcome-weaken Q E F (m s).0 (m s).1 f (k.at s h) }

Outcome-translate :
    {S A : Type 0} (Q : A → S → Type 0) (E : S → Type 0) (f : Error → Error) (r : Result A) (s : S)
    → Outcome Q E r s
    → Outcome Q E (translate f r) s
Outcome-translate Q E f (ok a) s h = h
Outcome-translate Q E f (err e) s h = h

module _ {S A : Type 0} {P E : S → Type 0} {Q : A → S → Type 0} where
  pub Leads-map_err : (f : Error → Error) (m : Exec S A) → Leads P m Q E → Leads P (map_err f m) Q E
  unfolding map_err
  Leads-map_err f m k = record { at = λ s h. Outcome-translate Q E f (m s).0 (m s).1 (k.at s h) }

  pub Leads-pure : (a : A) → ((s : S) → P s → Q a s) → Leads P (pure a) Q E
  unfolding pure
  Leads-pure a f = record { at = f }

  -- What stands behind a guard runs when the guard is false.
  pub Leads-guard :
      (b : Bool) (e : Error) (m : Exec S A)
      → ((s : S) → P s → E s)
      → (b ≡ false → Leads P m Q E)
      → Leads P (do refuse b e; m) Q E
  unfolding raise pure ◌>>=◌
  Leads-guard true e m lost k = record { at = lost }
  Leads-guard false e m lost k = record { at = (k refl).at }

module _ {S A : Type 0} {P E : S → Type 0} where
  -- An action whose error is dropped does not fail.
  pub Leads-attempt : (m : Exec S A) → Keeps P m → Leads P (attempt m) (λ _. P) E
  unfolding attempt
  Leads-attempt m k = record { at = k.at }

module _ {S A : Type 0} {P E F : S → Type 0} {Q : A → S → Type 0} where
  pub Leads-tried : (m : Exec S A) → Leads P m Q E → Leads P (attempt m) (λ r. Outcome Q E r) F
  unfolding attempt
  Leads-tried m k = record { at = k.at }

module _ {S A B : Type 0} {P : S → Type 0} {Q : B → S → Type 0} {E : S → Type 0} where
  -- What follows a value that is at hand.
  pub Leads-given : (a : A) (f : A → Exec S B) → Leads P (f a) Q E → Leads P (pure a >>= f) Q E
  unfolding ◌>>=◌ pure
  Leads-given a f k = record { at = k.at }

Outcome-then :
    {S A : Type 0} (Q R : A → S → Type 0) (E : S → Type 0) (r : Result A) (s : S)
    → ((a : A) (t : S) → Q a t → R a t)
    → Outcome Q E r s
    → Outcome R E r s
Outcome-then Q R E (ok a) s f h = f a s h
Outcome-then Q R E (err e) s f h = h

module _ {S A : Type 0} {P : S → Type 0} {Q R : A → S → Type 0} {E : S → Type 0} where
  -- A weaker claim on success.
  pub Leads-then :
      (m : Exec S A) → ((a : A) (t : S) → Q a t → R a t) → Leads P m Q E → Leads P m R E
  Leads-then m f k = record { at = λ s h. Outcome-then Q R E (m s).0 (m s).1 f (k.at s h) }
