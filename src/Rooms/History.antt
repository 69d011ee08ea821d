-- ===== src/Rooms/History.antt =====
-- Paging backwards through the messages of a room: `ListMessages` of internal/rooms/store.go and its
-- page sizes in internal/rooms/service.go.
use convoy_backend.Base.{lt→ltb, ◌<◌, ◌⊎◌, ltb, zero, suc}
use convoy_backend.Rooms.Service.Chat.{max_message_page, page_size}
use convoy_backend.Base.{subst, ◌≢◌, sym, ◌≤◌, ◌++◌, ==_refl, zero, suc}
use convoy_backend.Base.Int.{ℤ, pos, negsuc}
use convoy_backend.Base.Rows.{order_by, In-first_where, first_where-none, first_where, where_rows}
use convoy_backend.Rooms.Store.Chat.{before_row, older, history, newer_first}
use convoy_backend.Schema.{Db, MessageRow}
use convoy_backend.Sorted.{
  where_rows-after, Ordered, order_by-Ordered, where_rows-order_by, where_rows-all, Total,
  Transitive,
}
use convoy_backend.Base.{
  ==→eq, ap, ◌∙◌, Option-cases, ◌==◌, Bool-cases, ◌&&◌, In, arith, List, Bool, ℕ, ◌≡◌, refl, true,
  none, some, inl, inr, [], ◌∷◌, zero, suc,
}
use convoy_backend.Base.Int.{ℤ, pos, negsuc}

newer_first-Transitive : Transitive newer_first
newer_first-Transitive x y z a b = ground arith

newer_first-Total : Total newer_first
newer_first-Total x y e = ground arith

-- a conjunction in WHERE
where_rows-and :
    {A : Type 0} (p q : A → Bool) (xs : List A)
    → where_rows (λ x. p x && q x) xs ≡ where_rows q (where_rows p xs)
where_rows-and p q [] = refl
where_rows-and p q (x ∷ xs) = elim (Bool-cases (p x)) [
  | inl e ↦ elim (Bool-cases (q x)) [
    | inl f ↦ rw (e, f, where_rows-and p q xs) refl
    | inr f ↦ rw (e, f, where_rows-and p q xs) refl
  ]
  | inr e ↦ rw (e, where_rows-and p q xs) refl
]

-- the primary key
abbrev pub IdIsKey : MessageRow → Db → Type 0
IdIsKey c db = (m : MessageRow) → In m db.messages → m.id ≡ c.id → m ≡ c

found_by_id :
    (c : MessageRow) (db : Db)
    → In c db.messages
    → IdIsKey c db
    → first_where (λ (m : MessageRow). m.id == c.id) db.messages ≡ some c
found_by_id c db i key =
    elim (Option-cases (first_where (λ (m : MessageRow). m.id == c.id) db.messages)) [
      | inl n ↦
          let f = first_where-none (λ (m : MessageRow). m.id == c.id) db.messages c n i in
          let t = ==_refl c.id in ground arith
      | inr (m, e) ↦
          let (j, a) = In-first_where (λ (m : MessageRow). m.id == c.id) db.messages m e in
          e ∙ ap some (key m j (==→eq _ _ a))
    ]

module _ (db : Db) (room : ℕ) where
  in_this_room : MessageRow → Bool
  in_this_room m = m.room_id == room

  history-of : history db room none ≡ order_by newer_first (where_rows in_this_room db.messages)
  unfolding in_this_room
  history-of = ap (order_by newer_first) (
      where_rows-and in_this_room (λ m. true) db.messages
      ∙ where_rows-all (λ m. true) (where_rows in_this_room db.messages) (λ m i. refl))

  history-before :
      (c : MessageRow)
      → In c db.messages
      → IdIsKey c db
      → history db room (some c.id) ≡ where_rows (λ m. older m c) (history db room none)
  unfolding in_this_room
  history-before c i key =
      ap
        (λ o. order_by newer_first (where_rows (λ m. in_this_room m && before_row o m) db.messages))
        (found_by_id c db i key)
      ∙ ap (order_by newer_first) (where_rows-and in_this_room (λ m. older m c) db.messages)
      ∙ sym (
          where_rows-order_by newer_first newer_first-Transitive newer_first-Total (λ m. older m c)
            (where_rows in_this_room db.messages))
      ∙ ap (where_rows (λ m. older m c)) (sym history-of)

  -- The page before a message is what follows that message in the room's whole history, newest
  -- first: paging neither skips nor repeats a message, also where times are equal, as long as the id
  -- is a key and the message stands once in the history.
  pub history-resumes :
      (xs : List MessageRow) (c : MessageRow) (ys : List MessageRow)
      → history db room none ≡ xs ++ c ∷ ys
      → In c db.messages
      → IdIsKey c db
      → ((y : MessageRow) → In y ys → y.id ≢ c.id)
      → history db room (some c.id) ≡ ys
  history-resumes xs c ys e i key once =
      let ordered =
        order_by-Ordered newer_first newer_first-Transitive newer_first-Total
          (where_rows in_this_room db.messages) in
      let o : Ordered newer_first (xs ++ c ∷ ys) =
        subst (Ordered newer_first) (sym history-of ∙ e) ordered in
      history-before c i key
      ∙ ap (where_rows (λ m. older m c)) e
      ∙ where_rows-after newer_first (λ m. older m c) xs c ys o (λ x l. ground arith) (ground arith)
          (λ y j l. let d : y.id ≢ c.id = once y j in ground arith)

page_size-range : (limit : ℤ) → (1 ≤ page_size limit) × (page_size limit ≤ 100)
unfolding page_size
page_size-range (negsuc n) = (omega arith, omega arith)
page_size-range (pos zero) = (omega arith, omega arith)
page_size-range (pos (suc n)) = elim (Bool-cases (ltb max_message_page (suc n))) [
  | inl e ↦ rw e (omega arith, omega arith)
  | inr e ↦ rw e (omega arith, ground arith)
]

page_size-asked : (n : ℕ) → 1 ≤ n → n ≤ 100 → page_size (pos n) ≡ n
unfolding page_size
page_size-asked zero l u = ground arith
page_size-asked (suc n) l u = elim (Bool-cases (ltb max_message_page (suc n))) [
  | inl e ↦ ground arith
  | inr e ↦ rw e refl
]

page_size-other : (n : ℕ) → (n ≡ 0) ⊎ (100 < n) → page_size (pos n) ≡ 50
unfolding page_size
page_size-other zero h = refl
page_size-other (suc n) (inl e) = ground arith
page_size-other (suc n) (inr l) = rw (lt→ltb 100 (suc n) l) refl

-- A page has between 1 and 100 messages: as many as were asked for where that is in this range, and
-- 50 for none, a negative number or more.
pub page_size-bounds :
    ((limit : ℤ) → (1 ≤ page_size limit) × (page_size limit ≤ 100))
    × ((n : ℕ) → 1 ≤ n → n ≤ 100 → page_size (pos n) ≡ n)
    × ((n : ℕ) → (n ≡ 0) ⊎ (100 < n) → page_size (pos n) ≡ 50)
    × ((n : ℕ) → page_size (negsuc n) ≡ 50)
unfolding page_size
page_size-bounds = (page_size-range, page_size-asked, page_size-other, λ n. refl)
