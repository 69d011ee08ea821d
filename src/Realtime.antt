-- ===== src/Realtime.antt =====
-- internal/realtime: frames, the connection of a client, the hub and the websocket handler.
pub mod Message
pub mod Client
pub mod Hub
pub mod Fanout
pub mod Handler
pub mod Presence
pub mod Transitions
pub mod Dropping
pub mod Departure
pub mod Race
pub mod Delivery
pub mod Reach
pub mod Filing
pub mod Steps
pub mod Sections
pub mod Soundness
pub mod Buffers
pub mod Shutting
pub mod Entry
pub mod Admission
pub mod Disconnect
