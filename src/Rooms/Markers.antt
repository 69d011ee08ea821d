-- ===== src/Rooms/Markers.antt =====
-- Private pins: what SetPersonalMarker (internal/rooms/service.go) does to the markers that each user
-- sees.
use convoy_backend.Rooms.Outcomes.{Leads-on_store}
use convoy_backend.Rooms.Store.Rows.{user_exists, room_exists}
use convoy_backend.Exec.Leads.{Leads-guard, Leads-Keeps, Leads->>=, Outcome}
use convoy_backend.Rooms.Service.Core.{OnWorld, World}
use convoy_backend.Schema.Leads.{Leads-write, Reaches}
use convoy_backend.Rooms.Service.Route
use convoy_backend.Rooms.Ownership.Service.{Keeps-assert_member}
use convoy_backend.Base.{
  ◌&&◌, ==_refl, [], ◌∷◌, ◌++◌, sym, ◌∙◌, Option-cases, if◌then◌else◌, Bool, none, some, refl, true,
  false, ◌≡◌,
}
use convoy_backend.Rooms.Service.Labels.{bad_coords, trim_label}
use convoy_backend.Base.Rows.{
  first_where-append_hit, first_where-append_skip, exists_where-false, first_where-none,
  In-exists_where, In-first_where, first_where-update_where, update_where, exists_where,
  first_where,
}
use convoy_backend.Rooms.Types.{PersonalMarker}
use convoy_backend.Rooms.Store.Marker.{
  upsert_marker_rows, upsert_personal_marker, moved, marker_of, is_marker_of, new_marker,
}
use convoy_backend.Text.{Text}
use convoy_backend.Float64.{Float64}
use convoy_backend.Schema.{MarkerRow, Db}
use convoy_backend.Base.{arith, Bool-cases, Option, ℕ, ◌≡◌, true, false, some, inl, inr}

-- what GetPersonalMarker finds
abbrev pub marker_seen : ℕ → ℕ → Db → Option MarkerRow
marker_seen room user db = first_where (is_marker_of room user) db.personal_markers

-- The user's pin in the room is `pm`, every other pin is as it was.
pub record Pinned (room user : ℕ) (lat lng : Float64) (label : Option Text) (before : Db)
    (pm : PersonalMarker) (after : Db) : Type 0 where
  pub seen : (m : MarkerRow) × (marker_seen room user after ≡ some m) × (marker_of m ≡ pm)
  pub given : (pm.lat ≡ lat) × (pm.lng ≡ lng) × (pm.label ≡ trim_label label)
  pub in_range : bad_coords lat lng ≡ false
  pub others :
      (r u : ℕ) → ((r ≡ room) × (u ≡ user) → ⊥) → marker_seen r u after ≡ marker_seen r u before
  pub markers_only : after ≡ record before { personal_markers = after.personal_markers }

differ : true ≡ false → ⊥
differ e = ground arith

-- A test for another key fails on every row of this key.
key-apart :
    (room user r u : ℕ) (m : MarkerRow)
    → ((r ≡ room) × (u ≡ user) → ⊥)
    → is_marker_of r u m ≡ true
    → is_marker_of room user m ≡ false
key-apart room user r u m apart e = elim (Bool-cases (is_marker_of room user m)) [
  | inr f ↦ f
  | inl f ↦ absurd (apart (ground arith, ground arith))
]

module _ (room user : ℕ) (lat lng : Float64) (label : Option Text) (now : ℕ) (before : Db) where
  p : MarkerRow → Bool
  p = is_marker_of room user

  move : MarkerRow → MarkerRow
  move = moved lat lng label now

  found-moved :
      (r u : ℕ) (x : Option MarkerRow)
      → marker_seen r u before ≡ x
      → ((r ≡ room) × (u ≡ user) → ⊥)
      → elim x [ none ↦ none | some m ↦ some (if p m then move m else m) ] ≡ x
  unfolding p
  found-moved r u none e apart = refl
  found-moved r u (some m) e apart =
      let (i, a) = In-first_where (is_marker_of r u) before.personal_markers m e in
      rw (key-apart room user r u m apart a) refl

  others-moved :
      (r u : ℕ)
      → ((r ≡ room) × (u ≡ user) → ⊥)
      → first_where (is_marker_of r u) (update_where p move before.personal_markers)
        ≡ marker_seen r u before
  unfolding move
  others-moved r u apart =
      first_where-update_where (is_marker_of r u) p move before.personal_markers (λ x. refl)
      ∙ found-moved r u (marker_seen r u before) refl apart

  seen-moved :
      exists_where p before.personal_markers ≡ true
      → (m : MarkerRow) × (first_where p (update_where p move before.personal_markers) ≡ some m)
        × (marker_of m ≡ marker_of (new_marker room user lat lng label now))
  unfolding p move
  seen-moved e = elim (Option-cases (first_where p before.personal_markers)) [
    | inl n ↦
        let (m, i, a) = In-exists_where p before.personal_markers e in
        let f : p m ≡ false = first_where-none p before.personal_markers m n i in
        absurd (differ (sym a ∙ f))
    | inr (m, f) ↦
        let (i, a) = In-first_where p before.personal_markers m f in
        let u = first_where-update_where p p move before.personal_markers (λ x. refl) in
        (move m, rw (f, a) at u, refl)
  ]

  q : MarkerRow
  q = new_marker room user lat lng label now

  others-added :
      (r u : ℕ)
      → ((r ≡ room) × (u ≡ user) → ⊥)
      → first_where (is_marker_of r u) (before.personal_markers ++ q ∷ []) ≡ marker_seen r u before
  unfolding q
  others-added r u apart =
      let away : is_marker_of r u q ≡ false =
        key-apart r u room user q (λ e. apart (sym e.0, sym e.1))
          (rw (==_refl room, ==_refl user) refl) in
      first_where-append_skip (is_marker_of r u) before.personal_markers q away

  seen-added :
      exists_where p before.personal_markers ≡ false
      → first_where p (before.personal_markers ++ q ∷ []) ≡ some q
  unfolding p q
  seen-added e =
      let here : p q ≡ true = rw (==_refl room, ==_refl user) refl in
      let n : first_where p before.personal_markers ≡ none =
        elim (Option-cases (first_where p before.personal_markers)) [
          | inl n ↦ n
          | inr (m, f) ↦
              let (i, a) = In-first_where p before.personal_markers m f in
              let b = exists_where-false p before.personal_markers m e i in
              absurd (differ (sym a ∙ b))
        ] in
      first_where-append_hit p before.personal_markers q n here

upsert_rows-Pinned :
    (room user : ℕ) (lat lng : Float64) (label : Option Text) (now : ℕ) (before db : Db)
    → bad_coords lat lng ≡ false
    → db ≡ before
    → Reaches
        (Pinned room user lat lng label before)
        (upsert_marker_rows room user lat lng (trim_label label) now db)
unfolding upsert_marker_rows p move q
upsert_rows-Pinned room user lat lng label now before db range same =
    let tidy = trim_label label in
    rw same (elim (Bool-cases (exists_where (is_marker_of room user) before.personal_markers)) [
      | inl e ↦ rw e (record {
        seen = seen-moved room user lat lng tidy now before e;
        given = (refl, refl, refl);
        in_range = range;
        others = others-moved room user lat lng tidy now before;
        markers_only = refl;
      })
      | inr e ↦ rw e (elim (Bool-cases (room_exists before room && user_exists before user)) [
        | inl f ↦ rw f (record {
          seen = (
            new_marker room user lat lng tidy now,
            seen-added room user lat lng tidy now before e,
            refl,
          );
          given = (refl, refl, refl);
          in_range = range;
          others = others-added room user lat lng tidy now before;
          markers_only = refl;
        })
        | inr f ↦ rw f tt
      ])
    ])

module _ {H : Type 0} where
  -- SetPersonalMarker leads to the pin that was asked for, with coordinates in range and a tidied
  -- label; it is what the user sees in that room from then on, and the pins of other users, and the
  -- user's pins in other rooms, stay as they were. When it fails, the tables are as they were.
  pub set_personal_marker-Pinned :
      (room user : ℕ) (lat lng : Float64) (label : Option Text) (w : World H)
      → Outcome
          (λ pm. OnWorld (Pinned room user lat lng label w.session.db pm))
          (OnWorld (λ t. t ≡ w.session.db))
          (Route.set_personal_marker room user lat lng label w).0
          (Route.set_personal_marker room user lat lng label w).1
  unfolding Route.set_personal_marker upsert_personal_marker
  set_personal_marker-Pinned room user lat lng label w =
      let before = w.session.db in
      let k = Leads->>= _ _ (Leads-Keeps _ (λ v h. h) (Keeps-assert_member room user)) λ _.
        Leads-guard (bad_coords lat lng) _ _ (λ v h. h)
          λ range. Leads-on_store _ (
            Leads-write {P = λ t. t ≡ before} {Q = Pinned room user lat lng label before} _
              (λ db h. h)
              (λ now id db h. upsert_rows-Pinned room user lat lng label now before db range h)) in
      k.at w (record { holds = refl })
