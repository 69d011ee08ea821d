-- ===== src/Rooms/Store.antt =====
-- internal/rooms/store.go: each method is one or a few statements, with the `WHERE` clauses as tests
-- on rows. The children hold the methods by the table that they write.
pub mod Rows
pub mod Room
pub mod Member
pub mod Destination
pub mod Marker
pub mod Stop
pub mod Chat
