-- ===== src/Push.antt =====
-- internal/push: the Expo client, the table of tokens and the registration endpoint.
pub mod Expo
pub mod Store
pub mod Handlers
pub mod Batches
pub mod Tokens
pub mod Registration
pub mod Registry
