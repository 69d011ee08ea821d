-- ===== src/Base/Rows.antt =====
-- What the SQL statements do to a table, which is a list of rows: `WHERE` is a Boolean test,
-- `UPDATE` maps the rows that pass it, `INSERT` appends, `LIMIT` is `take`.
use mathlib.Core.Bool.{Bool, true, false}
use mathlib.Core.Logic.{inl, inr, ◌↔◌}
use mathlib.Core.Path.{◌≡◌, refl, sym, subst, ap, ◌∙◌}
use mathlib.Core.Option.{Option, none, some}
use mathlib.Core.List.{List, [], ◌∷◌, ◌++◌}
use Prim.Native.Nat.{ℕ, ◌+◌, ◌<◌}
use native.Mathlib.Omega.{arith}
use convoy_backend.Base.Tests.{if◌then◌else◌, leb, Bool-cases, leb-false, leb→le}
use convoy_backend.Base.Lists.{In}

module _ {A : Type 0} where
  -- SELECT ... WHERE p
  abbrev pub where_rows : (A → Bool) → List A → List A
  where_rows p [] = []
  where_rows p (x ∷ xs) = let rest = where_rows p xs in if p x then x ∷ rest else rest

  -- the one row of SELECT ... WHERE p, if there is one
  abbrev pub first_where : (A → Bool) → List A → Option A
  first_where p [] = none
  first_where p (x ∷ xs) = if p x then some x else first_where p xs

  -- EXISTS (SELECT 1 ... WHERE p)
  abbrev pub exists_where : (A → Bool) → List A → Bool
  exists_where p [] = false
  exists_where p (x ∷ xs) = if p x then true else exists_where p xs

  -- UPDATE ... SET f WHERE p
  abbrev pub update_where : (A → Bool) → (A → A) → List A → List A
  update_where p f [] = []
  update_where p f (x ∷ xs) = (if p x then f x else x) ∷ update_where p f xs

  -- DELETE ... WHERE p
  abbrev pub delete_where : (A → Bool) → List A → List A
  delete_where p [] = []
  delete_where p (x ∷ xs) = let rest = delete_where p xs in if p x then rest else x ∷ rest

  -- ORDER BY a key, ascending; equal keys stay in table order
  abbrev pub insert_by : (A → A → Bool) → A → List A → List A
  insert_by le a [] = a ∷ []
  insert_by le a (x ∷ xs) = if le a x then a ∷ x ∷ xs else x ∷ insert_by le a xs

  abbrev pub order_by : (A → A → Bool) → List A → List A
  order_by le [] = []
  order_by le (x ∷ xs) = insert_by le x (order_by le xs)

  -- SELECT MAX(key) + 1, or 0 on no rows
  abbrev pub next_above : (A → ℕ) → List A → ℕ
  next_above key [] = 0
  next_above key (x ∷ xs) =
      let rest = next_above key xs in if leb rest (key x) then key x + 1 else rest

  pub In-first_where :
      (p : A → Bool) (xs : List A) (a : A) → first_where p xs ≡ some a → In a xs × (p a ≡ true)
  In-first_where p [] a h = ground arith
  In-first_where p (x ∷ xs) a h = elim (Bool-cases (p x)) [
    | inl yes' ↦ (inl (ground arith), ground arith)
    | inr no' ↦ let (m, e) = In-first_where p xs a (rw no' at h) in (inr m, e)
  ]

  pub first_where-none :
      (p : A → Bool) (xs : List A) (a : A) → first_where p xs ≡ none → In a xs → p a ≡ false
  first_where-none p [] a h m = absurd m
  first_where-none p (x ∷ xs) a h (inl e) = ground arith
  first_where-none p (x ∷ xs) a h (inr m) = elim (Bool-cases (p x)) [
    | inl yes' ↦ ground arith
    | inr no' ↦ first_where-none p xs a (rw no' at h) m
  ]

  pub In-exists_where :
      (p : A → Bool) (xs : List A) → exists_where p xs ≡ true → (a : A) × In a xs × (p a ≡ true)
  In-exists_where p [] h = ground arith
  In-exists_where p (x ∷ xs) h = elim (Bool-cases (p x)) [
    | inl yes' ↦ (x, inl refl, yes')
    | inr no' ↦ let (a, m, e) = In-exists_where p xs (rw no' at h) in (a, inr m, e)
  ]

  pub exists_where-false :
      (p : A → Bool) (xs : List A) (a : A) → exists_where p xs ≡ false → In a xs → p a ≡ false
  exists_where-false p [] a h m = absurd m
  exists_where-false p (x ∷ xs) a h (inl e) = ground arith
  exists_where-false p (x ∷ xs) a h (inr m) = elim (Bool-cases (p x)) [
    | inl yes' ↦ ground arith
    | inr no' ↦ exists_where-false p xs a (rw no' at h) m
  ]

  -- A row of the updated table comes from a row of the old one.
  pub In-update_where :
      (p : A → Bool) (f : A → A) (xs : List A) (a : A)
      → In a (update_where p f xs)
      → (x : A) × In x xs × (a ≡ (if p x then f x else x))
  In-update_where p f [] a m = absurd m
  In-update_where p f (x ∷ xs) a (inl e) = (x, inl refl, e)
  In-update_where p f (x ∷ xs) a (inr m) =
      let (y, my, e) = In-update_where p f xs a m in (y, inr my, e)

  pub In-update_where_of :
      (p : A → Bool) (f : A → A) (xs : List A) (x : A)
      → In x xs
      → In (if p x then f x else x) (update_where p f xs)
  In-update_where_of p f [] x m = absurd m
  In-update_where_of p f (y ∷ xs) x (inl e) = inl (ap (λ z. if p z then f z else z) e)
  In-update_where_of p f (y ∷ xs) x (inr m) = inr (In-update_where_of p f xs x m)

  In-delete_where :
      (p : A → Bool) (xs : List A) (a : A) → In a (delete_where p xs) → In a xs × (p a ≡ false)
  In-delete_where p [] a m = absurd m
  In-delete_where p (x ∷ xs) a m = elim (Bool-cases (p x)) [
    | inl yes' ↦ let (i, e) = In-delete_where p xs a (rw yes' at m) in (inr i, e)
    | inr no' ↦ elim (let m' : In a (x ∷ delete_where p xs) = rw no' at m in m') [
      | inl e ↦ (inl e, rw e no')
      | inr r ↦ let (i, f) = In-delete_where p xs a r in (inr i, f)
    ]
  ]

  In-delete_where_of :
      (p : A → Bool) (xs : List A) (a : A) → In a xs → p a ≡ false → In a (delete_where p xs)
  In-delete_where_of p [] a i h = absurd i
  In-delete_where_of p (x ∷ xs) a (inl e) h = rw (ap p (sym e) ∙ h) (inl e)
  In-delete_where_of p (x ∷ xs) a (inr i) h = elim (Bool-cases (p x)) [
    | inl y ↦ rw y (In-delete_where_of p xs a i h)
    | inr n ↦ rw n (inr (In-delete_where_of p xs a i h))
  ]

  pub In-where_rows :
      (p : A → Bool) (xs : List A) (a : A) → In a (where_rows p xs) → In a xs × (p a ≡ true)
  In-where_rows p [] a m = absurd m
  In-where_rows p (x ∷ xs) a m = elim (Bool-cases (p x)) [
    | inl yes' ↦ elim (let m' : In a (x ∷ where_rows p xs) = rw yes' at m in m') [
      | inl e ↦ (inl e, rw e yes')
      | inr r ↦ let (i, f) = In-where_rows p xs a r in (inr i, f)
    ]
    | inr no' ↦ let (i, e) = In-where_rows p xs a (rw no' at m) in (inr i, e)
  ]

  -- A lookup after an update that keeps the test: the row found, updated if it passes.
  pub first_where-update_where :
      (q p : A → Bool) (f : A → A) (xs : List A)
      → ((x : A) → q (f x) ≡ q x)
      → first_where q (update_where p f xs)
        ≡ elim (first_where q xs) [ none ↦ none | some x ↦ some (if p x then f x else x) ]
  first_where-update_where q p f [] keeps = refl
  first_where-update_where q p f (x ∷ xs) keeps =
      ground (arith, keeps x, first_where-update_where q p f xs keeps)

  first_where-append :
      (q : A → Bool) (xs : List A) (a : A)
      → first_where q (xs ++ a ∷ [])
        ≡ elim (first_where q xs) [ none ↦ (if q a then some a else none) | some x ↦ some x ]
  first_where-append q [] a = refl
  first_where-append q (x ∷ xs) a = ground (arith, first_where-append q xs a)

  first_where-delete_where : (q : A → Bool) (xs : List A) → first_where q (delete_where q xs) ≡ none
  first_where-delete_where q [] = refl
  first_where-delete_where q (x ∷ xs) = ground (arith, first_where-delete_where q xs)

  pub where_rows-append :
      (p : A → Bool) (xs : List A) (a : A)
      → where_rows p (xs ++ a ∷ []) ≡ (if p a then where_rows p xs ++ a ∷ [] else where_rows p xs)
  where_rows-append p [] a = ground arith
  where_rows-append p (x ∷ xs) a = ground (arith, where_rows-append p xs a)

  insert_by-append :
      (le : A → A → Bool) (a z : A) (ys : List A)
      → le a z ≡ true
      → insert_by le a (ys ++ z ∷ []) ≡ insert_by le a ys ++ z ∷ []
  insert_by-append le a z [] h = ground arith
  insert_by-append le a z (y ∷ ys) h = ground (arith, insert_by-append le a z ys h)

  -- A row that is above all others comes last.
  pub order_by-append :
      (le : A → A → Bool) (z : A) (xs : List A)
      → ((x : A) → In x xs → le x z ≡ true)
      → order_by le (xs ++ z ∷ []) ≡ order_by le xs ++ z ∷ []
  order_by-append le z [] above = refl
  order_by-append le z (x ∷ xs) above =
      ap (insert_by le x) (order_by-append le z xs (λ y i. above y (inr i)))
      ∙ insert_by-append le x z (order_by le xs) (above x (inl refl))

  pub next_above-lt : (key : A → ℕ) (xs : List A) (x : A) → In x xs → key x < next_above key xs
  next_above-lt key [] x i = absurd i
  next_above-lt key (y ∷ ys) x (inl e) = elim (Bool-cases (leb (next_above key ys) (key y))) [
    | inl b ↦ rw (b, e) (omega arith)
    | inr b ↦ rw (b, e) (leb-false _ _ b)
  ]
  next_above-lt key (y ∷ ys) x (inr i) = elim (Bool-cases (leb (next_above key ys) (key y))) [
    | inl b ↦ let l = leb→le _ _ b in let r = next_above-lt key ys x i in rw b (omega arith)
    | inr b ↦ rw b (next_above-lt key ys x i)
  ]

  pub first_where-append_skip :
      (q : A → Bool) (xs : List A) (a : A)
      → q a ≡ false
      → first_where q (xs ++ a ∷ []) ≡ first_where q xs
  first_where-append_skip q [] a e = ground (arith, e)
  first_where-append_skip q (x ∷ xs) a e = ground (arith, first_where-append_skip q xs a e)

  pub first_where-append_hit :
      (q : A → Bool) (xs : List A) (a : A)
      → first_where q xs ≡ none
      → q a ≡ true
      → first_where q (xs ++ a ∷ []) ≡ some a
  first_where-append_hit q [] a n e = ground (arith, e)
  first_where-append_hit q (x ∷ xs) a n e = elim (Bool-cases (q x)) [
    | inl y ↦ ground (arith, y)
    | inr y ↦ rw y (first_where-append_hit q xs a (rw y at n) e)
  ]

  -- An update after which its own test fails leaves no row that passes.
  pub update_where-clears :
      (p : A → Bool) (f : A → A) (xs : List A) (a : A)
      → ((x : A) → p (f x) ≡ false)
      → In a (update_where p f xs)
      → p a ≡ false
  update_where-clears p f xs a off m =
      let (x, i, e) = In-update_where p f xs a m in
      elim (Bool-cases (p x)) [
        | inl y ↦ ap p (e ∙ ap (λ b. if b then f x else x) y) ∙ off x
        | inr n ↦ ap p (e ∙ ap (λ b. if b then f x else x) n) ∙ n
      ]

  -- The rows that an update does not concern are the same before and after it.
  pub update_where-kept :
      (q p : A → Bool) (f : A → A) (xs : List A) (a : A)
      → ((x : A) → p x ≡ true → q x ≡ true)
      → ((x : A) → q (f x) ≡ q x)
      → q a ≡ false
      → In a xs ↔ In a (update_where p f xs)
  update_where-kept q p f xs a concerns stays other = (
    (λ i.
        subst (λ z. In z (update_where p f xs))
          (elim (Bool-cases (p a)) [
            | inl y ↦ absurd (let e : true ≡ false = sym (concerns a y) ∙ other in cc e)
            | inr n ↦ ap (λ b. if b then f a else a) n
          ])
          (In-update_where_of p f xs a i)),
    (λ m.
        let (x, i, e) = In-update_where p f xs a m in
        elim (Bool-cases (p x)) [
          | inl y ↦
              let moved : a ≡ f x = e ∙ ap (λ b. if b then f x else x) y in
              absurd (
                let e' : true ≡ false =
                  sym (concerns x y) ∙ sym (stays x) ∙ ap q (sym moved) ∙ other in
                cc e')
          | inr n ↦
              let same : a ≡ x = e ∙ ap (λ b. if b then f x else x) n in
              subst (λ z. In z xs) (sym same) i
        ]),
  )

  -- What a deletion keeps.
  pub delete_where-kept :
      (p : A → Bool) (xs : List A) (a : A) → In a (delete_where p xs) ↔ (In a xs × (p a ≡ false))
  delete_where-kept p xs a = (In-delete_where p xs a, (λ h. In-delete_where_of p xs a h.0 h.1))

  pub exists_where-In :
      (p : A → Bool) (xs : List A) (a : A) → In a xs → p a ≡ true → exists_where p xs ≡ true
  exists_where-In p [] a i h = absurd i
  exists_where-In p (x ∷ xs) a (inl e) h = rw (ap p (sym e) ∙ h) refl
  exists_where-In p (x ∷ xs) a (inr i) h = elim (Bool-cases (p x)) [
    | inl y ↦ rw y refl
    | inr n ↦ rw n (exists_where-In p xs a i h)
  ]
