-- ===== src/Push/Expo.antt =====
-- internal/push/expo.go. The network, with the service behind it, is a parameter: the answer to the
-- n-th request of a Send call. The log lines are left out.
use convoy_backend.Base.{
  drop, ◌==◌, ◌==◌, ◌++◌, ◌-◌, ◌++◌, leb, ◌-◌, length, suc, ltb, if◌then◌else◌, ◌+◌, some, false,
  map, ◌+◌, none, if◌then◌else◌, take, List, Bool, [], Option, ℕ, ◌∷◌,
}
use convoy_backend.Base.{zero, suc, get_elem?, drop}
use convoy_backend.Text.{Text, runes, same_text}
use convoy_backend.Text.Cut.{Cut}

abbrev pub expo_batch_size : ℕ
expo_batch_size = 100

-- Message; the map `data` has one entry, its type
pub record Message : Type 0 where
  pub to : Text
  pub title : Cut
  pub body : Cut
  pub kind : Text
  pub sound : Text
  pub priority : Text
  pub channel_id : Text

-- Ticket; `code` is `Details["error"]`, if that is a string
pub record Ticket : Type 0 where
  pub status : Text
  pub code : Option Text

pub record Tickets : Type 0 where
  pub items : List Ticket
  pub errors : List Text

-- a response: its status and its body, read and unmarshalled, if that succeeds
pub record HttpReply : Type 0 where
  pub status : ℕ
  pub content : Option Tickets

abbrev pub Network : Type 0
Network = ℕ → List Message → Option HttpReply

pub record SendResult : Type 0 where
  pub delivered : ℕ
  pub failed : ℕ
  pub invalid_tokens : List Text

abbrev pub empty_result : SendResult
empty_result = record { delivered = 0; failed = 0; invalid_tokens = [] }

abbrev checked_errors : Tickets → Option (List Ticket)
checked_errors t = elim t.errors [ [] ↦ some t.items | ◌∷◌ e es ↦ none ]

abbrev unmarshalled : Option Tickets → Option (List Ticket)
unmarshalled none = none
unmarshalled (some t) = checked_errors t

abbrev accepted : Option HttpReply → Option (List Ticket)
accepted none = none
accepted (some r) = if leb 400 r.status then none else unmarshalled r.content

-- send: the tickets of one request, or an error
unfoldable pub send_batch : Network → ℕ → List Message → Option (List Ticket)
send_batch net n msgs = accepted (net n msgs)

abbrev pub is_ok : Ticket → Bool
is_ok tk = same_text tk.status (runes "ok")

abbrev has_code : Text → Option Text → Bool
has_code want none = false
has_code want (some c) = same_text c want

abbrev pub is_unregistered : Ticket → Bool
is_unregistered tk = has_code (runes "DeviceNotRegistered") tk.code

-- batch[i], of the ticket at the place i
abbrev reported : Option Message → SendResult → SendResult
reported none res = res
reported (some m) res = record res { invalid_tokens = res.invalid_tokens ++ m.to ∷ [] }

abbrev pub failed_ticket : Option Message → Ticket → SendResult → SendResult
failed_ticket m tk res =
    let counted = record res { failed = res.failed + 1 } in
    if is_unregistered tk then reported m counted else counted

abbrev pub count_ticket : Option Message → Ticket → SendResult → SendResult
count_ticket m tk res =
    if is_ok tk then record res { delivered = res.delivered + 1 } else failed_ticket m tk res

-- `for i, tk := range tickets.Data`
unfoldable pub tally : ℕ → List Message → List Ticket → SendResult → SendResult
tally i batch [] res = res
tally i batch (tk ∷ tks) res = tally (i + 1) batch tks (count_ticket (get_elem? batch i) tk res)

abbrev pub settle : List Message → Option (List Ticket) → SendResult → SendResult
settle batch none res = record res { failed = res.failed + length batch }
settle batch (some tks) res = tally 0 batch tks res

abbrev pub message_to : Cut → Cut → Text → Text → Message
message_to title body kind t = record {
  to = t;
  title = title;
  body = body;
  kind = kind;
  sound = runes "default";
  priority = runes "high";
  channel_id = runes "default";
}

-- one round of the loop, on the tokens of the batch
unfoldable pub send_round : Network → Cut → Cut → Text → ℕ → List Text → SendResult → SendResult
unfolding tally send_batch
send_round net title body kind n tokens res =
    let batch = map (message_to title body kind) tokens in settle batch (send_batch net n batch) res

-- tokens[start:end]
abbrev pub slice : ℕ → ℕ → List Text → List Text
slice start end' tokens = take (end' - start) (drop start tokens)

abbrev pub batch_end : ℕ → List Text → ℕ
batch_end start tokens =
    let end' = start + expo_batch_size in if ltb (length tokens) end' then length tokens else end'

module _ (net : Network) (title body : Cut) (kind : Text) (tokens : List Text) where
  -- `for start := 0; start < len(tokens); start += expoBatchSize`, with fuel; `none` is no fuel left
  unfoldable pub send_loop : ℕ → ℕ → ℕ → SendResult → Option SendResult
  send_loop zero n start res = none
  send_loop (suc fuel) n start res =
      let batch = slice start (batch_end start tokens) tokens in
      let rest =
        send_loop fuel (n + 1) (start + expo_batch_size)
          (send_round net title body kind n batch res) in
      if ltb start (length tokens) then rest else some res

  -- Send: one round for each hundred tokens, and one that ends the loop
  unfoldable pub send : Option SendResult
  unfolding send_loop send_round
  send =
      if length tokens == 0
      then some empty_result
      else send_loop (length tokens + 1) 0 0 empty_result
