-- ===== src/Rooms/Ownership.antt =====
-- Who owns a room: `rooms.owner_id` and the roles of `room_members` always agree.
pub mod Tables
pub mod Insert
pub mod Transfer
pub mod Store
pub mod Handover
pub mod Aside
pub mod Service
pub mod Owner
pub mod Serve
