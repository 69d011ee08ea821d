-- ===== src/Admin/Delivery.antt =====
-- What a broadcast (internal/admin/broadcasts.go) sends, prunes and records.
use convoy_backend.Admin.Recording.{
  cut_body, record_sent-Leads, unpruned, Pruned, Shown, Sent, cut_title, tokens_of,
}
use convoy_backend.Httpx.{connection_lost}
use convoy_backend.Base.{
  ◌||◌, ◌||◌, sym, ◌⊎◌, ◌⊎◌, some, subst, inr, refl, ap, inl, ◌∷◌, [], ◌∷◌, ◌∷◌, Bool-cases, length,
  ◌≡◌, List,
}
use convoy_backend.Text.{Text, runes, trim_space, is_empty}
use convoy_backend.Text.Cut.{cut_over}
use convoy_backend.Exec.{Result, ok, err, pure}
use convoy_backend.Exec.Leads.{Leads, Leads->>=, Leads-pure}
use convoy_backend.Schema.{Db}
use convoy_backend.Schema.Query.{OnDb}
use convoy_backend.Schema.Leads.{Leads-attempted_read}
use convoy_backend.Push.Expo.{Network, send}
use convoy_backend.Push.Tokens.{TicketEach, send-Accounted}
use convoy_backend.Push.Store
use convoy_backend.Push.Store.{any_of, delete_token_rows, has_token}
use convoy_backend.Admin.Broadcasts.{
  BroadcastPage, result_error, http_error, record_sent, sent_result, deliver, broadcast_send,
}

module _ (net : Network) (each : TicketEach net) (title body : Text) (before : Db) where
  abbrev Read : Result (List Text) → Db → Type 0
  Read r db = (db ≡ before) × ((r ≡ ok (tokens_of before)) ⊎ (r ≡ err connection_lost))

  silent_page :
      (page : BroadcastPage) (r : Result (List Text))
      → Shown title body before page before
      → Leads (OnDb (Read r)) (pure page) (λ p. OnDb (Sent title body before p)) (λ s. ⊥)
  silent_page page r h = Leads-pure page (λ s o. record {
    holds =
        subst (Sent title body before page) (sym o.holds.0)
          (record { pruned = unpruned before; shown = h });
  })

  abbrev Delivers : List Text → Type 0
  Delivers tokens =
      Leads (OnDb (λ after. Pruned before after × (after.broadcasts ≡ before.broadcasts)))
        (record_sent (cut_over 80 (trim_space title)) (cut_over 240 (trim_space body))
          (length tokens)
          (sent_result (
            send net (cut_over 80 (trim_space title)) (cut_over 240 (trim_space body))
              (runes "broadcast") tokens)))
        (λ p. OnDb (Sent title body before p)) (λ s. ⊥)

  delivered_all : Delivers (tokens_of before)
  delivered_all =
      let (res, e, acc) =
        send-Accounted net (cut_over 80 (trim_space title)) (cut_over 240 (trim_space body))
          (runes "broadcast") (tokens_of before) each in
      rw e (record_sent-Leads title body before res acc.counted)

  delivered : (tokens : List Text) → tokens ≡ tokens_of before → Delivers tokens
  delivered tokens same = subst Delivers (sym same) delivered_all

  deliver-Leads :
      (r : Result (List Text))
      → Leads
          (OnDb (Read r))
          (deliver net (cut_title title body before) (cut_body title body before) r)
          (λ p. OnDb (Sent title body before p))
          (λ s. ⊥)
  deliver-Leads (err e) = silent_page (http_error 500) (err e) refl
  deliver-Leads (ok []) =
      silent_page (result_error (runes "No devices registered yet.")) (ok []) refl
  deliver-Leads (ok (t ∷ tokens)) = record {
    at = λ s h. elim h.holds.1 [
      | inr lost ↦ absurd (cc lost)
      | inl read' ↦ (delivered (t ∷ tokens) (cc read')).at s (record {
        holds = (
          subst (Pruned before) (sym h.holds.0) (unpruned before),
          ap (λ (d : Db). d.broadcasts) h.holds.0,
        );
      })
    ];
  }

  -- A broadcast that is reported as sent is recorded once, with its title and body, cut after 80 and
  -- 240 bytes, with the number of registered tokens as its recipients and with counts that add up to
  -- it, which are the ones the page shows. Any other answer records none. Registrations are at most
  -- removed, nothing else changes, and the handler never ends in an error of its own.
  pub broadcast_send-Sent :
      Leads
        (OnDb (λ t. t ≡ before))
        (broadcast_send net (some (title, body)))
        (λ page. OnDb (Sent title body before page))
        (λ s. ⊥)
  unfolding broadcast_send Store.all_tokens
  broadcast_send-Sent =
      elim (Bool-cases (is_empty (trim_space title) || is_empty (trim_space body))) [
        | inl blank ↦ rw blank (
            Leads-pure _ (λ s h. record {
              holds =
                  subst (Sent title body before _) (sym h.holds)
                    (record { pruned = unpruned before; shown = refl });
            }))
        | inr filled ↦
            rw filled
              (Leads->>= _ _ (Leads-attempted_read (λ db. ok (tokens_of db)) before) deliver-Leads)
      ]
