-- ===== src/Rooms/Posting.antt =====
-- What PostMessage (internal/rooms/service.go) stores and tells, on every branch.
use convoy_backend.Rooms.Store.Rows.{room_exists, user_of}
use convoy_backend.Schema.Leads.{Leads-write, Reaches}
use convoy_backend.Rooms.Outcomes.{
  Leads-notify, Stands-on_store, Leads-assert_member, Unchanged, told, Stands,
}
use convoy_backend.Base.Rows.{exists_where}
use convoy_backend.Exec.Leads.{Leads-pure, Leads-guard, Leads->>=, Outcome}
use convoy_backend.Rooms.Types.{Message}
use convoy_backend.Rooms.Store.Chat.{new_message, inserted, create_message_rows, create_message}
use convoy_backend.Schema.{UserRow, MessageRow, Db}
use convoy_backend.Text.{trim_space, is_empty, Text}
use convoy_backend.Rooms.Service.Core.{World, Service}
use convoy_backend.Base.{
  ◌++◌, ◌==◌, Bool-cases, Option, arith, length, ltb, ◌≤◌, ℕ, ◌≡◌, refl, false, none, some, inl,
  inr, [], ◌∷◌,
}
use convoy_backend.Rooms.Service.Chat

-- one more message, tidied and of an allowed length, under the author's current name
pub record Posted (room user : ℕ) (text : Text) (before : Db) (msg : Message) (after : Db)
    : Type 0 where
  pub tidy : (msg.body ≡ trim_space text) × (1 ≤ length msg.body) × (length msg.body ≤ 2000)
  pub fresh : exists_where (λ (m : MessageRow). m.id == msg.id) before.messages ≡ false
  pub author :
      (u : UserRow) × (user_of before user ≡ some u)
      × (msg.user_id ≡ user)
      × (msg.display_name ≡ u.display_name)
  pub appended : after ≡ record before {
    messages = before.messages ++ new_message room user msg.body msg.created_at msg.id ∷ [];
  }

nonempty : (v : Text) → is_empty v ≡ false → 1 ≤ length v
nonempty [] e = ground arith
nonempty (c ∷ v) e = omega arith

module _ (room user : ℕ) (text : Text) (before : Db)
    (some_text : is_empty (trim_space text) ≡ false)
    (not_long : ltb 2000 (length (trim_space text)) ≡ false) where
  inserted-Posted :
      (now id : ℕ) (u : Option UserRow)
      → exists_where (λ (m : MessageRow). m.id == id) before.messages ≡ false
      → user_of before user ≡ u
      → Reaches
          (Posted room user text before)
          (inserted before (new_message room user (trim_space text) now id) u)
  inserted-Posted now id none fresh e = tt
  inserted-Posted now id (some u) fresh e = record {
    tidy = (refl, nonempty (trim_space text) some_text, ground arith);
    fresh = fresh;
    author = (u, e, refl, refl);
    appended = refl;
  }

  create_message-Posted :
      (now id : ℕ) (db : Db)
      → db ≡ before
      → Reaches
          (Posted room user text before)
          (create_message_rows room user (trim_space text) now id db)
  unfolding create_message_rows
  create_message-Posted now id db same =
      rw same (elim (Bool-cases (exists_where (λ (m : MessageRow). m.id == id) before.messages)) [
        | inl e ↦ rw e tt
        | inr e ↦ rw e (elim (Bool-cases (room_exists before room)) [
          | inl f ↦ rw f (inserted-Posted now id (user_of before user) e refl)
          | inr f ↦ rw f tt
        ])
      ])

module _ {H : Type 0} (rt : Service H) where
  -- PostMessage leads to one more message with the text trimmed, of 1 to 2000 code points, under the
  -- author's name, with a new id, all else in the tables as it was, and tells the others once. When it
  -- fails, on a blank or too long text, without access or on a failed query, nothing changes and nobody
  -- is told.
  pub post_message-Posted :
      (room user : ℕ) (text : Text) (w : World H)
      → Outcome
          (λ msg.
            Stands
              (Posted room user text w.session.db msg)
              (told rt (λ b. b.broadcast_chat_message room msg) w.live))
          (Unchanged w.session.db w.live)
          (Chat.post_message rt room user text w).0
          (Chat.post_message rt room user text w).1
  unfolding Chat.post_message create_message
  post_message-Posted room user text w =
      let before = w.session.db in
      let k = Leads->>= _ _ (Leads-assert_member room user) λ _.
        Leads-guard (is_empty (trim_space text)) _ _ (λ v h. h)
          λ e.
            Leads-guard (ltb 2000 (length (trim_space text))) _ _ (λ v h. h)
              λ l.
                Leads->>= _ _
                  (Stands-on_store _ (
                    Leads-write {P = λ t. t ≡ before} {Q = Posted room user text before} _
                      (λ db h. h)
                      (λ now id db h. create_message-Posted room user text before e l now id db h)))
                  λ msg. Leads->>= _ _ (Leads-notify rt _) λ _. Leads-pure msg (λ v h. h) in
      k.at w (record { holds = refl; same_live = refl })
