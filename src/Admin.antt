-- ===== src/Admin.antt =====
-- internal/admin: the administrator's session, the pages over users, broadcasts and settings. What a
-- template makes of its data is left out.
pub mod Decimal
pub mod Session
pub mod Cookie
pub mod Users
pub mod Broadcasts
pub mod Settings
pub mod Dashboard
pub mod Versions
pub mod Published
pub mod Offline
pub mod Purge
pub mod Recording
pub mod Delivery
