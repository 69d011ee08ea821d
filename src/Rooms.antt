-- ===== src/Rooms.antt =====
-- internal/rooms: its types, the store over the tables, the service and its handlers.
pub mod Types
pub mod Store
pub mod Service
pub mod Handlers
pub mod Ownership
pub mod Outcomes
pub mod Access
pub mod Membership
pub mod Admittance
pub mod Creation
pub mod Stops
pub mod Markers
pub mod History
pub mod Posting
pub mod Clearing
pub mod Labels
