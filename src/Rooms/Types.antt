-- ===== src/Rooms/Types.antt =====
-- internal/rooms/types.go
use convoy_backend.Base.{ℕ, Bool, List, Option}
use convoy_backend.Text.{Text}
use convoy_backend.Float64.{Float64}
use convoy_backend.Schema.{Role}

pub record Room : Type 0 where
  pub id : ℕ
  pub code : Text
  pub name : Option Text
  pub owner_id : ℕ
  pub created_at : ℕ
  pub ended_at : Option ℕ

pub record Member : Type 0 where
  pub user_id : ℕ
  pub display_name : Text
  pub avatar_url : Option Text
  pub role : Role
  pub muted : Bool
  pub joined_at : ℕ

pub record Destination : Type 0 where
  pub lat : Float64
  pub lng : Float64
  pub name : Option Text
  pub notes : Option Text
  pub set_at : ℕ
  pub set_by : ℕ

pub record PersonalMarker : Type 0 where
  pub lat : Float64
  pub lng : Float64
  pub label : Option Text
  pub updated_at : ℕ

pub record Stop : Type 0 where
  pub id : ℕ
  pub room_id : ℕ
  pub lat : Float64
  pub lng : Float64
  pub label : Option Text
  pub position : ℕ
  pub created_by : ℕ
  pub created_at : ℕ

pub record Message : Type 0 where
  pub id : ℕ
  pub room_id : ℕ
  pub user_id : ℕ
  pub display_name : Text
  pub avatar_url : Option Text
  pub body : Text
  pub created_at : ℕ

pub record RoomDetail : Type 0 where
  pub room : Room
  pub members : List Member
  pub destination : Option Destination
  pub personal_marker : Option PersonalMarker
  pub stops : List Stop
  pub present_user_ids : List ℕ
  pub emergency_user_ids : List ℕ

pub record ActiveRoom : Type 0 where
  pub id : ℕ
  pub code : Text
  pub name : Option Text
  pub role : Role
  pub member_count : ℕ
  pub joined_at : ℕ
