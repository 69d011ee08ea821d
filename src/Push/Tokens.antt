-- ===== src/Push/Tokens.antt =====
-- What the counts and the invalid tokens of Send (internal/push/expo.go) are.
use mathlib.Core.List.{append-nil, append_assoc}
use convoy_backend.Push.Expo.{empty_result}
use convoy_backend.Base.{
  ◌⊎◌, subst, length-append, ◌⊎◌, ◌∙◌, In, map, ◌∙◌, refl, ap, inr, none, some, inl, arith, sym,
  ◌++◌, if◌then◌else◌, length, get_elem?, ◌++◌, if◌then◌else◌, some, Bool-cases, ◌≡◌, ◌+◌, ◌∷◌,
  drop, [], ◌≡◌, ◌+◌, List, ℕ, Option, zero, suc, In-append, In-append_left, In-append_right,
}
use convoy_backend.Text.{Text}
use convoy_backend.Text.Cut.{Cut}
use convoy_backend.Push.Expo.{
  failed_ticket, Network, SendResult, Message, Ticket, message_to, send_batch, send_round, tally,
  count_ticket, settle, send, is_ok, is_unregistered,
}
use convoy_backend.Push.Batches.{concat, rounds, send-rounds}

-- the tokens at whose place the tickets say DeviceNotRegistered
abbrev pub unregistered : List Message → List Ticket → List Text
unregistered [] tks = []
unregistered (m ∷ ms) [] = []
unregistered (m ∷ ms) (tk ∷ tks) =
    let rest = unregistered ms tks in
    if is_ok tk then rest else if is_unregistered tk then m.to ∷ rest else rest

abbrev marked : Option Message → Ticket → List Text
marked none tk = []
marked (some m) tk = if is_ok tk then [] else if is_unregistered tk then m.to ∷ [] else []

unregistered-drop :
    (i : ℕ) (batch : List Message) (tk : Ticket) (tks : List Ticket)
    → unregistered (drop i batch) (tk ∷ tks)
      ≡ marked (get_elem? batch i) tk ++ unregistered (drop (suc i) batch) tks
unregistered-drop zero [] tk tks = refl
unregistered-drop zero (m ∷ batch) tk tks = elim (Bool-cases (is_ok tk)) [
  | inl e ↦ rw e refl
  | inr e ↦ rw e (elim (Bool-cases (is_unregistered tk)) [ inl f ↦ rw f refl | inr f ↦ rw f refl ])
]
unregistered-drop (suc i) [] tk tks = refl
unregistered-drop (suc i) (m ∷ batch) tk tks = unregistered-drop i batch tk tks

count_ticket-marked :
    (m : Option Message) (tk : Ticket) (res : SendResult)
    → (count_ticket m tk res).invalid_tokens ≡ res.invalid_tokens ++ marked m tk
count_ticket-marked none tk res = elim (Bool-cases (is_ok tk)) [
  | inl e ↦ rw e (sym (append-nil _))
  | inr e ↦ rw e (elim (Bool-cases (is_unregistered tk)) [
    | inl f ↦ rw f (sym (append-nil _))
    | inr f ↦ rw f (sym (append-nil _))
  ])
]
count_ticket-marked (some m) tk res = elim (Bool-cases (is_ok tk)) [
  | inl e ↦ rw e (sym (append-nil _))
  | inr e ↦ rw e (elim (Bool-cases (is_unregistered tk)) [
    | inl f ↦ rw f refl
    | inr f ↦ rw f (sym (append-nil _))
  ])
]

unregistered_none : (batch : List Message) → unregistered batch [] ≡ []
unregistered_none [] = refl
unregistered_none (m ∷ batch) = refl

-- The loop over the tickets reports those tokens.
tally-unregistered :
    (i : ℕ) (batch : List Message) (tks : List Ticket) (res : SendResult)
    → (tally i batch tks res).invalid_tokens ≡ res.invalid_tokens ++ unregistered (drop i batch) tks
unfolding tally
tally-unregistered i batch [] res =
    sym (ap (λ l. res.invalid_tokens ++ l) (unregistered_none (drop i batch)) ∙ append-nil _)
tally-unregistered i batch (tk ∷ tks) res =
    tally-unregistered (i + 1) batch tks (count_ticket (get_elem? batch i) tk res)
    ∙ ap (λ l. l ++ unregistered (drop (i + 1) batch) tks)
        (count_ticket-marked (get_elem? batch i) tk res)
    ∙ append_assoc res.invalid_tokens (marked (get_elem? batch i) tk) _
    ∙ ap (λ l. res.invalid_tokens ++ l)
        (ap (λ k. marked (get_elem? batch i) tk ++ unregistered (drop k batch) tks)
            (let e : i + 1 ≡ suc i = omega arith in e)
          ∙ sym (unregistered-drop i batch tk tks))

failed_ticket-counts :
    (m : Option Message) (tk : Ticket) (res : SendResult)
    → (failed_ticket m tk res).delivered + (failed_ticket m tk res).failed
      ≡ res.delivered + res.failed + 1
failed_ticket-counts none tk res = elim (Bool-cases (is_unregistered tk)) [
  | inl e ↦ rw e (omega arith)
  | inr e ↦ rw e (omega arith)
]
failed_ticket-counts (some m) tk res = elim (Bool-cases (is_unregistered tk)) [
  | inl e ↦ rw e (omega arith)
  | inr e ↦ rw e (omega arith)
]

count_ticket-counts :
    (m : Option Message) (tk : Ticket) (res : SendResult)
    → (count_ticket m tk res).delivered + (count_ticket m tk res).failed
      ≡ res.delivered + res.failed + 1
count_ticket-counts m tk res = elim (Bool-cases (is_ok tk)) [
  | inl e ↦ rw e (omega arith)
  | inr e ↦ rw e (failed_ticket-counts m tk res)
]

tally-counts :
    (i : ℕ) (batch : List Message) (tks : List Ticket) (res : SendResult)
    → (tally i batch tks res).delivered + (tally i batch tks res).failed
      ≡ res.delivered + res.failed + length tks
unfolding tally
tally-counts i batch [] res = omega arith
tally-counts i batch (tk ∷ tks) res = omega (
  arith,
  tally-counts (i + 1) batch tks (count_ticket (get_elem? batch i) tk res),
  count_ticket-counts (get_elem? batch i) tk res,
)

unregistered-In :
    (f : Text → Message) (batch : List Text) (tks : List Ticket) (t : Text)
    → ((u : Text) → (f u).to ≡ u)
    → In t (unregistered (map f batch) tks)
    → In t batch
unregistered-In f [] tks t to i = absurd i
unregistered-In f (b ∷ batch) [] t to i = absurd i
unregistered-In f (b ∷ batch) (tk ∷ tks) t to i = elim (Bool-cases (is_ok tk)) [
  | inl e ↦ inr (unregistered-In f batch tks t to (rw e at i))
  | inr e ↦ elim (Bool-cases (is_unregistered tk)) [
    | inr g ↦ inr (unregistered-In f batch tks t to (rw (e, g) at i))
    | inl g ↦
        let i' : In t ((f b).to ∷ unregistered (map f batch) tks) = rw (e, g) at i in
        elim i' [ inl h ↦ inl (h ∙ to b) | inr h ↦ inr (unregistered-In f batch tks t to h) ]
  ]
]

length-map : {A B : Type 0} (f : A → B) (xs : List A) → length (map f xs) ≡ length xs
length-map f [] = refl
length-map f (x ∷ xs) = omega (arith, length-map f xs)

-- Expo's answers: a request that is accepted has one ticket for each message.
abbrev pub TicketEach : Network → Type 0
TicketEach net =
    (n : ℕ) (msgs : List Message) (tks : List Ticket)
    → send_batch net n msgs ≡ some tks
    → length tks ≡ length msgs

module _ (net : Network) (title body : Cut) (kind : Text) where
  abbrev to_message : Text → Message
  to_message = message_to title body kind

  settle-counts :
      (batch : List Message) (r : Option (List Ticket)) (res : SendResult)
      → ((tks : List Ticket) → r ≡ some tks → length tks ≡ length batch)
      → (settle batch r res).delivered + (settle batch r res).failed
        ≡ res.delivered + res.failed + length batch
  settle-counts batch none res each = omega arith
  settle-counts batch (some tks) res each =
      omega (arith, tally-counts 0 batch tks res, each tks refl)

  settle-In :
      (batch : List Text) (r : Option (List Ticket)) (res : SendResult) (t : Text)
      → In t (settle (map to_message batch) r res).invalid_tokens
      → In t res.invalid_tokens ⊎ In t batch
  settle-In batch none res t i = inl i
  settle-In batch (some tks) res t i =
      elim (In-append res.invalid_tokens _ t
        (subst (In t) (tally-unregistered 0 (map to_message batch) tks res) i)) [
          | inl h ↦ inl h
          | inr h ↦ inr (unregistered-In to_message batch tks t (λ u. refl) h)
        ]

  rounds-counts :
      TicketEach net
      → (n : ℕ) (bs : List (List Text)) (res : SendResult)
      → (rounds net title body kind n bs res).delivered
          + (rounds net title body kind n bs res).failed
        ≡ res.delivered + res.failed + length (concat bs)
  unfolding send_round
  rounds-counts each n [] res = omega arith
  rounds-counts each n (b ∷ bs) res =
      let batch = map to_message b in
      omega (
        arith,
        rounds-counts each (n + 1) bs (send_round net title body kind n b res),
        settle-counts batch (send_batch net n batch) res (λ tks e. each n batch tks e),
        length-map to_message b,
        length-append b (concat bs),
      )

  rounds-In :
      (n : ℕ) (bs : List (List Text)) (res : SendResult) (t : Text)
      → In t (rounds net title body kind n bs res).invalid_tokens
      → In t res.invalid_tokens ⊎ In t (concat bs)
  unfolding send_round
  rounds-In n [] res t i = inl i
  rounds-In n (b ∷ bs) res t i =
      elim (rounds-In (n + 1) bs (send_round net title body kind n b res) t i) [
        | inr h ↦ inr (In-append_right b (concat bs) t h)
        | inl h ↦ elim (settle-In b (send_batch net n (map to_message b)) res t h) [
          | inl k ↦ inl k
          | inr k ↦ inr (In-append_left b (concat bs) t k)
        ]
      ]

-- every token counted, and only tokens that were sent reported
pub record Accounted (tokens : List Text) (res : SendResult) : Type 0 where
  pub counted : res.delivered + res.failed ≡ length tokens
  pub reported : (t : Text) → In t res.invalid_tokens → In t tokens

-- Where each accepted request has one ticket for each message, Send counts each token once, as
-- delivered or as failed, also where requests fail, and reports as invalid only tokens it was given.
pub send-Accounted :
    (net : Network) (title body : Cut) (kind : Text) (tokens : List Text)
    → TicketEach net
    → (res : SendResult) × (send net title body kind tokens ≡ some res) × Accounted tokens res
send-Accounted net title body kind tokens each =
    let (bs, j, z, e) = send-rounds net title body kind tokens in
    (
      rounds net title body kind 0 bs empty_result,
      e,
      record {
        counted =
            omega (arith, rounds-counts net title body kind each 0 bs empty_result, ap length j);
        reported = λ t i. elim (rounds-In net title body kind 0 bs empty_result t i) [
          | inl h ↦ absurd h
          | inr h ↦ subst (In t) j h
        ];
      },
    )
