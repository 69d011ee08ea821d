-- ===== src/Rooms/Ownership/Aside.antt =====
-- The methods of the store that touch neither `rooms` nor `room_members` keep whatever holds of them.
use convoy_backend.Base.{ℕ, ◌&&◌, Option, none, some, ◌==◌, List, Bool-cases, inl, inr}
use convoy_backend.Base.Rows.{exists_where, first_where}
use convoy_backend.Text.{Text}
use convoy_backend.Float64.{Float64}
use convoy_backend.Exec.Keeps.{Keeps}
use convoy_backend.Schema.{Db, RoomRow, MemberRow, StopRow, MessageRow, UserRow}
use convoy_backend.Schema.Query.{OnDb, Sound, Keeps-write, Keeps-change}
use convoy_backend.Rooms.Store.Rows.{user_exists, room_exists, user_of}
use convoy_backend.Rooms.Store.Marker.{
  is_marker_of, upsert_marker_rows, upsert_personal_marker, delete_marker_rows,
  delete_personal_marker,
}
use convoy_backend.Rooms.Store.Stop.{
  is_stop, add_stop_rows, add_stop, clear_stop_rows, clear_stops, remove_stop_rows, remove_stop,
  label_found, label_rows, update_stop_label,
}
use convoy_backend.Rooms.Store.Chat.{inserted, new_message, create_message_rows, create_message}

module _ (Q : List RoomRow → List MemberRow → Type 0) where
  abbrev pub Aside : Db → Type 0
  Aside db = Q db.rooms db.room_members

  module _ (room user : ℕ) (lat lng : Float64) (label : Option Text) where
    upsert_marker_rows-Aside :
        (now : ℕ) (db : Db)
        → Aside db
        → Sound Aside (upsert_marker_rows room user lat lng label now db)
    unfolding upsert_marker_rows
    upsert_marker_rows-Aside now db h =
        elim (Bool-cases (exists_where (is_marker_of room user) db.personal_markers)) [
          | inl e ↦ rw e h
          | inr e ↦ rw e (elim (Bool-cases (room_exists db room && user_exists db user)) [
            | inl f ↦ rw f h
            | inr f ↦ rw f tt
          ])
        ]

    pub Keeps-upsert_personal_marker :
        Keeps (OnDb Aside) (upsert_personal_marker room user lat lng label)
    unfolding upsert_personal_marker
    Keeps-upsert_personal_marker = Keeps-write _ (λ now id db h. upsert_marker_rows-Aside now db h)

    add_stop_rows-Aside :
        (now id : ℕ) (db : Db)
        → Aside db
        → Sound Aside (add_stop_rows room user lat lng label now id db)
    unfolding add_stop_rows
    add_stop_rows-Aside now id db h =
        elim (Bool-cases (exists_where (λ (t : StopRow). t.id == id) db.room_stops)) [
          | inl e ↦ rw e tt
          | inr e ↦ rw e (elim (Bool-cases (room_exists db room && user_exists db user)) [
            | inl f ↦ rw f h
            | inr f ↦ rw f tt
          ])
        ]

    pub Keeps-add_stop : Keeps (OnDb Aside) (add_stop room user lat lng label)
    unfolding add_stop
    Keeps-add_stop = Keeps-write _ (λ now id db h. add_stop_rows-Aside now id db h)

  pub Keeps-delete_personal_marker :
      (room user : ℕ) → Keeps (OnDb Aside) (delete_personal_marker room user)
  unfolding delete_personal_marker delete_marker_rows
  Keeps-delete_personal_marker room user = Keeps-change _ (λ now db h. h)

  pub Keeps-clear_stops : (room : ℕ) → Keeps (OnDb Aside) (clear_stops room)
  unfolding clear_stops clear_stop_rows
  Keeps-clear_stops room = Keeps-change _ (λ now db h. h)

  remove_stop_rows-Aside :
      (room id : ℕ) (db : Db) → Aside db → Sound Aside (remove_stop_rows room id db)
  unfolding remove_stop_rows
  remove_stop_rows-Aside room id db h =
      elim (Bool-cases (exists_where (is_stop room id) db.room_stops)) [
        | inl e ↦ rw e h
        | inr e ↦ rw e tt
      ]

  pub Keeps-remove_stop : (room id : ℕ) → Keeps (OnDb Aside) (remove_stop room id)
  unfolding remove_stop
  Keeps-remove_stop room id = Keeps-write _ (λ now _ db h. remove_stop_rows-Aside room id db h)

  label_found-Aside :
      (room id : ℕ) (label : Option Text) (db : Db) (found : Option StopRow)
      → Aside db
      → Sound Aside (label_found room id label db found)
  label_found-Aside room id label db none h = tt
  label_found-Aside room id label db (some s) h = h

  pub Keeps-update_stop_label :
      (room id : ℕ) (label : Option Text) → Keeps (OnDb Aside) (update_stop_label room id label)
  unfolding update_stop_label label_rows
  Keeps-update_stop_label room id label = Keeps-write _ λ now _ db h.
      label_found-Aside room id label db (first_where (is_stop room id) db.room_stops) h

  inserted-Aside :
      (db : Db) (m : MessageRow) (u : Option UserRow) → Aside db → Sound Aside (inserted db m u)
  inserted-Aside db m none h = tt
  inserted-Aside db m (some u) h = h

  create_message_rows-Aside :
      (room user : ℕ) (body : Text) (now id : ℕ) (db : Db)
      → Aside db
      → Sound Aside (create_message_rows room user body now id db)
  unfolding create_message_rows
  create_message_rows-Aside room user body now id db h =
      elim (Bool-cases (exists_where (λ (m : MessageRow). m.id == id) db.messages)) [
        | inl e ↦ rw e tt
        | inr e ↦ rw e (elim (Bool-cases (room_exists db room)) [
          | inl f ↦ rw f (inserted-Aside db (new_message room user body now id) (user_of db user) h)
          | inr f ↦ rw f tt
        ])
      ]

  pub Keeps-create_message :
      (room user : ℕ) (body : Text) → Keeps (OnDb Aside) (create_message room user body)
  unfolding create_message
  Keeps-create_message room user body =
      Keeps-write _ (λ now id db h. create_message_rows-Aside room user body now id db h)
