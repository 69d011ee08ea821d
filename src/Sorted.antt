-- ===== src/Sorted.antt =====
-- ORDER BY as insertion sort: the result is in order, and selecting commutes with ordering.
use convoy_backend.Base.Rows.{In-where_rows, where_rows, insert_by, order_by}
use convoy_backend.Base.{
  In-append_right, ◌++◌, ap, ◌∙◌, sym, refl, ◌∷◌, [], inr, if◌then◌else◌, ◌⊎◌, Bool-cases, inl, In,
  false, true, ◌≡◌, List, Bool,
}

module _ {A : Type 0} (le : A → A → Bool) where
  -- each row comes before all that follow it
  abbrev pub Ordered : List A → Type 0
  Ordered [] = Unit
  Ordered (x ∷ xs) = ((y : A) → In y xs → le x y ≡ true) × Ordered xs

  abbrev pub Transitive : Type 0
  Transitive = (x y z : A) → le x y ≡ true → le y z ≡ true → le x z ≡ true

  abbrev pub Total : Type 0
  Total = (x y : A) → le x y ≡ false → le y x ≡ true

  In-insert_by : (a b : A) (ys : List A) → In b (insert_by le a ys) → (b ≡ a) ⊎ In b ys
  In-insert_by a b [] (inl e) = inl e
  In-insert_by a b [] (inr i) = absurd i
  In-insert_by a b (y ∷ ys) i = elim (Bool-cases (le a y)) [
    | inl f ↦ elim (let j : In b (a ∷ y ∷ ys) = rw f at i in j) [ inl e ↦ inl e | inr k ↦ inr k ]
    | inr f ↦ elim (let j : In b (y ∷ insert_by le a ys) = rw f at i in j) [
      | inl e ↦ inr (inl e)
      | inr k ↦ elim (In-insert_by a b ys k) [ inl e ↦ inl e | inr m ↦ inr (inr m) ]
    ]
  ]

  In-order_by : (b : A) (xs : List A) → In b (order_by le xs) → In b xs
  In-order_by b [] i = absurd i
  In-order_by b (x ∷ xs) i = elim (In-insert_by x b (order_by le xs) i) [
    | inl e ↦ inl e
    | inr j ↦ inr (In-order_by b xs j)
  ]

  module _ (trans : Transitive) (total : Total) where
    insert_by-Ordered : (a : A) (ys : List A) → Ordered ys → Ordered (insert_by le a ys)
    insert_by-Ordered a [] o = ((λ y i. absurd i), tt)
    insert_by-Ordered a (y ∷ ys) (below, o) = elim (Bool-cases (le a y)) [
      | inl f ↦
          rw f ((λ z i. elim i [ inl e ↦ rw e f | inr j ↦ trans a y z f (below z j) ]), (below, o))
      | inr f ↦ rw f (
        (λ z i. elim (In-insert_by a z ys i) [ inl e ↦ rw e (total a y f) | inr j ↦ below z j ]),
        insert_by-Ordered a ys o,
      )
    ]

    pub order_by-Ordered : (xs : List A) → Ordered (order_by le xs)
    order_by-Ordered [] = tt
    order_by-Ordered (x ∷ xs) = insert_by-Ordered x (order_by le xs) (order_by-Ordered xs)

    -- a row that is below all rows is put first
    insert_by-first :
        (a : A) (ys : List A) → ((y : A) → In y ys → le a y ≡ true) → insert_by le a ys ≡ a ∷ ys
    insert_by-first a [] h = refl
    insert_by-first a (y ∷ ys) h = rw (h y (inl refl)) refl

    module _ (p : A → Bool) where
      after_a :
          (a y : A) (ys : List A)
          → le a y ≡ true
          → ((z : A) → In z ys → le y z ≡ true)
          → (z : A) → In z (where_rows p (y ∷ ys))
          → le a z ≡ true
      after_a a y ys f below z i = elim (In-where_rows p (y ∷ ys) z i).0 [
        | inl e ↦ rw e f
        | inr j ↦ trans a y z f (below z j)
      ]

      where_rows-insert :
          (a : A) (ys : List A)
          → Ordered ys
          → where_rows p (insert_by le a ys)
            ≡ (if p a then insert_by le a (where_rows p ys) else where_rows p ys)
      where_rows-insert a [] o = refl
      where_rows-insert a (y ∷ ys) (below, o) = elim (Bool-cases (le a y)) [
        | inl f ↦ elim (Bool-cases (p a)) [
          | inl pa ↦
              rw (f, pa) (sym (insert_by-first a (where_rows p (y ∷ ys)) (after_a a y ys f below)))
          | inr pa ↦ rw (f, pa) refl
        ]
        | inr f ↦ elim (Bool-cases (p y)) [
          | inl py ↦
              rw (f, py, where_rows-insert a ys o)
                (elim (Bool-cases (p a)) [ inl pa ↦ rw (pa, f) refl | inr pa ↦ rw pa refl ])
          | inr py ↦ rw (f, py, where_rows-insert a ys o) refl
        ]
      ]

      -- WHERE before ORDER BY, or after it
      pub where_rows-order_by :
          (xs : List A) → where_rows p (order_by le xs) ≡ order_by le (where_rows p xs)
      where_rows-order_by [] = refl
      where_rows-order_by (x ∷ xs) =
          where_rows-insert x (order_by le xs) (order_by-Ordered xs)
          ∙ ap (λ ys. if p x then insert_by le x ys else ys) (where_rows-order_by xs)
          ∙ elim (Bool-cases (p x)) [ inl e ↦ rw e refl | inr e ↦ rw e refl ]

module _ {A : Type 0} (q : A → Bool) where
  pub where_rows-all : (ys : List A) → ((y : A) → In y ys → q y ≡ true) → where_rows q ys ≡ ys
  where_rows-all [] h = refl
  where_rows-all (y ∷ ys) h =
      rw (h y (inl refl)) (ap (λ zs. y ∷ zs) (where_rows-all ys (λ z i. h z (inr i))))

-- What follows a row in order is what the order puts after it.
module _ {A : Type 0} (le : A → A → Bool) (q : A → Bool) where
  pub where_rows-after :
      (xs : List A) (c : A) (ys : List A)
      → Ordered le (xs ++ c ∷ ys)
      → ((x : A) → le x c ≡ true → q x ≡ false)
      → q c ≡ false
      → ((y : A) → In y ys → le c y ≡ true → q y ≡ true)
      → where_rows q (xs ++ c ∷ ys) ≡ ys
  where_rows-after [] c ys (below, o) newer self older =
      rw self (where_rows-all q ys (λ y i. older y i (below y i)))
  where_rows-after (x ∷ xs) c ys (below, o) newer self older =
      rw (newer x (below c (In-append_right xs (c ∷ ys) c (inl refl))))
        (where_rows-after xs c ys o newer self older)
