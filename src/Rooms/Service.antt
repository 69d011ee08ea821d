-- ===== src/Rooms/Service.antt =====
-- internal/rooms/service.go, by the parts of a room that its methods are about.
pub mod Core
pub mod Labels
pub mod Membership
pub mod Route
pub mod Moderation
pub mod Chat
pub mod Detail
