-- ===== src/Realtime/Message.antt =====
-- internal/realtime/messages.go: the frames that the server sends, and what a client sends.
use convoy_backend.Base.{
  ℕ, String, Bool, true, false, ◌&&◌, List, [], ◌∷◌, Option, none, some, if◌then◌else◌,
}
use convoy_backend.Base.Maps.{Map}
use convoy_backend.Text.{Text}
use convoy_backend.Float64.{Float64, finite, infinite, nan}
use convoy_backend.Rooms.Types.{Member, Destination, Stop, Message}

pub record Location : Type 0 where
  pub lat : Float64
  pub lng : Float64
  pub heading : Float64
  pub speed : Float64

pub record LocationEvent : Type 0 where
  pub user_id : ℕ
  pub lat : Float64
  pub lng : Float64
  pub heading : Float64
  pub speed : Float64
  pub ts : ℕ

pub record SnapshotPayload : Type 0 where
  pub self : ℕ
  pub members : List Member
  pub locations : Map LocationEvent
  pub destination : Option Destination
  pub stops : List Stop
  pub present_user_ids : List ℕ
  pub emergency_user_ids : List ℕ

-- An envelope: the constructor is its `type`, the arguments are the fields of its payload.
pub data Frame : Type 0 where
  snapshot : SnapshotPayload → Frame
  member_joined : Member → Frame
  member_left : ℕ → Frame
  member_present : ℕ → Frame
  member_absent : ℕ → Frame
  location : LocationEvent → Frame
  muted : ℕ → Bool → ℕ → Frame
  kicked : ℕ → ℕ → Frame
  room_ended : Frame
  room_renamed : Option Text → Frame
  owner_changed : ℕ → ℕ → Frame
  destination : Option Destination → Frame
  stops : List Stop → Frame
  chat : Message → Frame
  emergency : ℕ → Bool → Frame
  error : String → Frame
  pong : Frame

-- What a client sends, after json.Unmarshal of the envelope and of the payload.
pub data ClientFrame : Type 0 where
  invalid : ClientFrame
  ping : ClientFrame
  client_location : Option Location → ClientFrame
  client_emergency : Option Bool → ClientFrame
  unknown : ClientFrame

abbrev is_finite : Float64 → Bool
is_finite (finite s n) = true
is_finite (infinite s) = false
is_finite nan = false

abbrev event_encodes : LocationEvent → Bool
event_encodes e = is_finite e.lat && is_finite e.lng && is_finite e.heading && is_finite e.speed

abbrev events_encode : Map LocationEvent → Bool
events_encode [] = true
events_encode ((k, e) ∷ m) = event_encodes e && events_encode m

abbrev stops_encode : List Stop → Bool
stops_encode [] = true
stops_encode (s ∷ ss) = is_finite s.lat && is_finite s.lng && stops_encode ss

abbrev destination_encodes : Option Destination → Bool
destination_encodes none = true
destination_encodes (some d) = is_finite d.lat && is_finite d.lng

-- json.Marshal fails on a number that JSON has no text for, and on nothing else here
unfoldable pub encodes : Frame → Bool
encodes (snapshot p) =
    events_encode p.locations && destination_encodes p.destination && stops_encode p.stops
encodes (location e) = event_encodes e
encodes (destination d) = destination_encodes d
encodes (stops ss) = stops_encode ss
encodes _ = true

-- the bytes of a frame stand as the frame
unfoldable pub pack : Frame → Option Frame
unfolding encodes
pack f = if encodes f then some f else none
