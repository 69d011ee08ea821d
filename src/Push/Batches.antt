-- ===== src/Push/Batches.antt =====
-- The loop of Send (internal/push/expo.go) against the list of its batches.
use convoy_backend.Base.{
  suc, zero, leb-false, leb→le, refl, true, leb, ◌∙◌, ◌∙◌, ◌-◌, ap, ◌-◌, ltb→lt, sym, inl, inr,
  ◌==◌, ◌==◌, suc, ltb, ◌∷◌, ◌⊎◌, [], arith, Bool-cases, ◌⊎◌, ◌≤◌, ◌++◌, ◌+◌, ◌++◌, ◌+◌, ◌≤◌, take,
  drop, some, ◌≡◌, ◌<◌, ◌∷◌, ◌≡◌, length, ◌<◌, List, ℕ, drop-drop, length-drop, take-drop, take-all,
  drop-all, length-take,
}
use convoy_backend.Text.{Text}
use convoy_backend.Text.Cut.{Cut}
use convoy_backend.Push.Expo.{
  empty_result, Network, SendResult, send_loop, send_round, send, slice, batch_end,
}

abbrev pub concat : List (List Text) → List Text
concat [] = []
concat (b ∷ bs) = b ++ concat bs

-- Batches of a hundred, and a last one of 1 to 100.
abbrev pub Sized : List (List Text) → Type 0
Sized [] = Unit
Sized (b ∷ bs) = (1 ≤ length b) × (length b ≤ 100) × ((length b ≡ 100) ⊎ (bs ≡ [])) × Sized bs

module _ (net : Network) (title body : Cut) (kind : Text) where
  -- what the rounds on the given batches make of a result
  abbrev pub rounds : ℕ → List (List Text) → SendResult → SendResult
  rounds n [] res = res
  rounds n (b ∷ bs) res = rounds (n + 1) bs (send_round net title body kind n b res)

slice-take :
    (start : ℕ) (tokens : List Text)
    → slice start (batch_end start tokens) tokens ≡ take 100 (drop start tokens)
slice-take start tokens = elim (Bool-cases (ltb (length tokens) (start + 100))) [
  | inl l ↦
      let k = length-drop start tokens in
      let h = ltb→lt _ _ l in
      rw l (
        take-all (length tokens - start) (drop start tokens) (omega arith)
        ∙ sym (take-all 100 (drop start tokens) (omega arith)))
  | inr l ↦
      rw l
        (let e : start + 100 - start ≡ 100 = omega arith in ap (λ k. take k (drop start tokens)) e)
]

no_batches : (bs : List (List Text)) → Sized bs → concat bs ≡ [] → bs ≡ []
no_batches [] z e = refl
no_batches ([] ∷ bs) (low, high, full, z) e = absurd (omega arith)
no_batches ((x ∷ b) ∷ bs) z e = cc

-- A batch of less than a hundred is the last.
last_batch :
    (start : ℕ) (tokens : List Text) (bs : List (List Text))
    → concat bs ≡ drop (start + 100) tokens
    → Sized bs
    → (length (take 100 (drop start tokens)) ≡ 100) ⊎ (bs ≡ [])
last_batch start tokens bs j z =
    let k = length-take 100 (drop start tokens) in
    let m = length-drop start tokens in
    elim (Bool-cases (leb (start + 100) (length tokens))) [
      | inl l ↦ let h = leb→le _ _ l in inl (omega arith)
      | inr l ↦
          let h = leb-false _ _ l in
          inr (no_batches bs z (j ∙ drop-all (start + 100) tokens (omega arith)))
    ]

no_tokens : (tokens : List Text) → (length tokens == 0) ≡ true → [] ≡ tokens
no_tokens [] e = refl
no_tokens (t ∷ tokens) e = ground (arith, e)

module _ (start : ℕ) (tokens : List Text) (bs : List (List Text)) (more : start < length tokens)
    (joins : concat bs ≡ drop (start + 100) tokens) (sized : Sized bs) where
  -- the batch of the round that starts there, before the batches of the rounds to come
  first_batch :
      (concat (slice start (batch_end start tokens) tokens ∷ bs) ≡ drop start tokens)
      × Sized (slice start (batch_end start tokens) tokens ∷ bs)
  first_batch =
      let k = length-take 100 (drop start tokens) in
      let m = length-drop start tokens in
      rw (slice-take start tokens) (
        ap (λ r. take 100 (drop start tokens) ++ r) (joins ∙ sym (drop-drop 100 start tokens))
            ∙ take-drop 100 (drop start tokens),
        (omega arith, omega arith, last_batch start tokens bs joins sized, sized),
      )

-- Each round of the loop takes one batch, and the fuel is enough.
send_loop-rounds :
    (net : Network) (title body : Cut) (kind : Text) (tokens : List Text) (fuel n start : ℕ)
    (res : SendResult)
    → length tokens - start < fuel
    → (bs : List (List Text)) × (concat bs ≡ drop start tokens)
      × Sized bs
      × (send_loop net title body kind tokens fuel n start res
          ≡ some (rounds net title body kind n bs res))
unfolding send_loop
send_loop-rounds net title body kind tokens zero n start res h = absurd (omega arith)
send_loop-rounds net title body kind tokens (suc fuel) n start res h =
    elim (Bool-cases (ltb start (length tokens))) [
      | inr l ↦ ([], sym (drop-all start tokens (ground (arith, l))), tt, rw l refl)
      | inl l ↦
          let b = slice start (batch_end start tokens) tokens in
          let (bs, j, z, e) =
            send_loop-rounds net title body kind tokens fuel (n + 1) (start + 100)
              (send_round net title body kind n b res) (let h' = ltb→lt _ _ l in omega arith) in
          let (joined, sized) = first_batch start tokens bs (ltb→lt _ _ l) j z in
          (b ∷ bs, joined, sized, rw l e)
    ]

-- Send returns for every list of tokens and every network, and makes one request for each batch of
-- the tokens, in their order: the batches are together the tokens, all of a hundred but the last,
-- which has 1 to 100, and the result is what these rounds make of an empty one.
pub send-rounds :
    (net : Network) (title body : Cut) (kind : Text) (tokens : List Text)
    → (bs : List (List Text)) × (concat bs ≡ tokens)
      × Sized bs
      × (send net title body kind tokens ≡ some (rounds net title body kind 0 bs empty_result))
unfolding send
send-rounds net title body kind tokens = elim (Bool-cases (length tokens == 0)) [
  | inl z ↦ ([], no_tokens tokens z, tt, rw z refl)
  | inr z ↦
      rw z (send_loop-rounds net title body kind tokens (length tokens + 1) 0 0 _ (omega arith))
]
