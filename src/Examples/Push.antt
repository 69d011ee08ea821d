-- ===== src/Examples/Push.antt =====
-- Push tokens and sending on small inputs.
use convoy_backend.Base.{inl, inr}
use convoy_backend.Push.Store.{upsert, upsert_token_rows}
use convoy_backend.Base.{
  ◌∙◌, ◌∙◌, sym, some, refl, ap, arith, none, ◌≡◌, length, ◌≡◌, if◌then◌else◌, List, ◌∷◌, map,
}
use convoy_backend.Examples.{◌∷◌, some, [], convoy, session_of}
use convoy_backend.Text.{same_text, to_lower, trim_space, Text, runes}
use convoy_backend.Text.Cut.{whole}
use convoy_backend.Exec.{raise, pure, ◌>>=◌}
use convoy_backend.Schema.{Db, TokenRow}
use convoy_backend.Schema.Query.{write}
use convoy_backend.Web.{body}
use convoy_backend.Push.Expo.{empty_result, Network, Message, Ticket, SendResult, send, send_batch}
use convoy_backend.Push.Batches.{concat, Sized, rounds, send-rounds}
use convoy_backend.Push.Tokens.{TicketEach, Accounted, send-Accounted}
use convoy_backend.Push.Registration.{TokenIsKey, Registered, register-Registered}
use convoy_backend.Push.Registry.{registry, without, store-Registry}
use convoy_backend.Push.Handlers.{RegisterReq, register}
use convoy_backend.Push.Store.{delete_token_rows}

-- every message is accepted but those to the token x, which is not registered
abbrev ticket_for : Message → Ticket
ticket_for m =
    if same_text m.to (runes "x")
    then record { status = runes "error"; code = some (runes "DeviceNotRegistered") }
    else record { status = runes "ok"; code = none }

abbrev network : Network
network n msgs =
    some (record {
      status = 200;
      content = some (record { items = map ticket_for msgs; errors = [] });
    })

length-tickets : (msgs : List Message) → length (map ticket_for msgs) ≡ length msgs
length-tickets [] = refl
length-tickets (m ∷ msgs) = omega (arith, length-tickets msgs)

network-TicketEach : TicketEach network
unfolding send_batch
network-TicketEach n msgs tks e =
    let same : map ticket_for msgs ≡ tks = cc e in ap length (sym same) ∙ length-tickets msgs

abbrev three : List Text
three = runes "a" ∷ runes "x" ∷ runes "b" ∷ []

send-rounds_example :
    (bs : List (List Text)) × (concat bs ≡ three)
    × Sized bs
    × (send network (whole []) (whole []) [] three
        ≡ some (rounds network (whole []) (whole []) [] 0 bs empty_result))
send-rounds_example = send-rounds network (whole []) (whole []) [] three

send-Accounted_example :
    (res : SendResult) × (send network (whole []) (whole []) [] three ≡ some res)
    × Accounted three res
send-Accounted_example = send-Accounted network (whole []) (whole []) [] three network-TicketEach

-- two deliveries and one failure
send_three :
    send network (whole []) (whole []) [] three
    ≡ some (record { delivered = 2; failed = 1; invalid_tokens = runes "x" ∷ [] })
unfolding send
send_three = refl

abbrev registration : RegisterReq
registration = record { token = runes " ExpoPushToken[a]"; platform = runes "IOS" }

abbrev row : TokenRow
row = record {
  token = runes "ExpoPushToken[a]";
  user_id = 8;
  platform = runes "android";
  updated_at = 100;
}

-- the token was registered by user 8
abbrev with_token : Db
with_token = record convoy { push_tokens = row ∷ [] }

one_token : TokenIsKey with_token
one_token r r' (inl e) (inl e') same = e ∙ sym e'
one_token r r' (inl e) (inr i) same = absurd i
one_token r r' (inr i) j same = absurd i

register-Registered_example :
    Registered 7
      (runes "ExpoPushToken[a]")
      (runes "ios")
      with_token
      (register (λ c. c) (some 7) (body registration) (session_of with_token)).1.db
unfolding register write ◌>>=◌ pure raise trim_space to_lower upsert upsert_token_rows
register-Registered_example =
    ((register-Registered (λ c. c) 7 registration with_token one_token).at (session_of with_token)
      (record { holds = refl })).holds

store-Registry_example :
    registry (delete_token_rows (runes "ExpoPushToken[a]" ∷ []) with_token)
    ≡ without (runes "ExpoPushToken[a]" ∷ []) (registry with_token)
store-Registry_example = (store-Registry with_token).1 (runes "ExpoPushToken[a]" ∷ [])
