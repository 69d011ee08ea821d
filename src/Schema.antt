-- ===== src/Schema.antt =====
-- The database: the tables of internal/db/migrations as lists of rows, and how a query runs.
-- A UUID and a time are numbers; a nullable column is an option.
use convoy_backend.Base.{ℕ, Bool, List, Option, none, some, ◌≡◌, true, ◌&&◌, ◌==◌}
use convoy_backend.Text.{Text}
use convoy_backend.Float64.{Float64}
pub mod Query
pub mod Leads

-- room_members.role
pub data Role : Type 0 where
  owner member : Role

-- users (0001, 0005); the column `entitlements`, which the code only passes on, is left out
pub record UserRow : Type 0 where
  pub id : ℕ
  pub display_name : Text
  pub avatar_url : Option Text
  pub email : Option Text
  pub created_at : ℕ
  pub deleted_at : Option ℕ

-- user_identities (0005), unique (provider, subject)
pub record IdentityRow : Type 0 where
  pub id : ℕ
  pub user_id : ℕ
  pub provider : Text
  pub subject : Text
  pub email : Option Text
  pub created_at : ℕ

-- rooms (0001, 0003, 0009)
pub record RoomRow : Type 0 where
  pub id : ℕ
  pub code : Text
  pub name : Option Text
  pub owner_id : ℕ
  pub created_at : ℕ
  pub ended_at : Option ℕ
  pub dest_lat : Option Float64
  pub dest_lng : Option Float64
  pub dest_name : Option Text
  pub dest_notes : Option Text
  pub dest_set_at : Option ℕ
  pub dest_set_by : Option ℕ

-- room_members (0001), primary key (room_id, user_id)
pub record MemberRow : Type 0 where
  pub room_id : ℕ
  pub user_id : ℕ
  pub role : Role
  pub muted : Bool
  pub kicked : Bool
  pub joined_at : ℕ
  pub left_at : Option ℕ

-- personal_markers (0007), primary key (room_id, user_id)
pub record MarkerRow : Type 0 where
  pub room_id : ℕ
  pub user_id : ℕ
  pub lat : Float64
  pub lng : Float64
  pub label : Option Text
  pub updated_at : ℕ

-- room_stops (0008)
pub record StopRow : Type 0 where
  pub id : ℕ
  pub room_id : ℕ
  pub lat : Float64
  pub lng : Float64
  pub label : Option Text
  pub position : ℕ
  pub created_by : ℕ
  pub created_at : ℕ

-- messages (0006)
pub record MessageRow : Type 0 where
  pub id : ℕ
  pub room_id : ℕ
  pub user_id : ℕ
  pub body : Text
  pub created_at : ℕ

-- feedback (0004)
pub record FeedbackRow : Type 0 where
  pub id : ℕ
  pub user_id : Option ℕ
  pub message : Text
  pub created_at : ℕ

-- push_tokens (0004), primary key token
pub record TokenRow : Type 0 where
  pub token : Text
  pub user_id : ℕ
  pub platform : Text
  pub updated_at : ℕ

-- broadcasts (0004)
pub record BroadcastRow : Type 0 where
  pub id : ℕ
  pub title : Text
  pub body : Text
  pub sent_at : ℕ
  pub recipients : ℕ
  pub delivered : ℕ
  pub failed : ℕ

-- app_config (0005), primary key key
pub record ConfigRow : Type 0 where
  pub key : Text
  pub value : Text
  pub updated_at : ℕ

pub record Db : Type 0 where
  pub users : List UserRow
  pub user_identities : List IdentityRow
  pub feedback : List FeedbackRow
  pub push_tokens : List TokenRow
  pub broadcasts : List BroadcastRow
  pub app_config : List ConfigRow
  pub rooms : List RoomRow
  pub room_members : List MemberRow
  pub personal_markers : List MarkerRow
  pub room_stops : List StopRow
  pub messages : List MessageRow
