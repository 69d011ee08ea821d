-- ===== src/Rooms/Service/Labels.antt =====
-- `trimLabel`, `trimNotes` and the check of coordinates of internal/rooms/service.go.
use convoy_backend.Base.{ℕ, Bool, ◌||◌, ltb, length, take, Option, none, some, if◌then◌else◌}
use convoy_backend.Text.{Text, trim_space, is_empty}
use convoy_backend.Float64.{Float64, whole, negated, less}

abbrev max_marker_label_len : ℕ
max_marker_label_len = 120

abbrev max_dest_notes_len : ℕ
max_dest_notes_len = 500

-- over the cap, the first runes up to it
abbrev pub capped : ℕ → Text → Text
capped cap v = if ltb cap (length v) then take cap v else v

unfoldable pub trim_to : ℕ → Option Text → Option Text
trim_to cap none = none
trim_to cap (some label) =
    let v = trim_space label in if is_empty v then none else some (capped cap v)

unfoldable pub trim_label : Option Text → Option Text
unfolding trim_to
trim_label = trim_to max_marker_label_len

unfoldable pub trim_notes : Option Text → Option Text
unfolding trim_to
trim_notes = trim_to max_dest_notes_len

-- lat < -90 || lat > 90 || lng < -180 || lng > 180
unfoldable pub bad_coords : Float64 → Float64 → Bool
bad_coords lat lng =
    less lat (negated 90) || less (whole 90) lat || less lng (negated 180) || less (whole 180) lng
