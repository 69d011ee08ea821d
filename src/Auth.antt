-- ===== src/Auth.antt =====
-- internal/auth/auth.go: accounts, session tokens and sign-in. The JWT and UUID libraries and the
-- providers' verifiers are parameters.
pub mod Tokens
pub mod Users
pub mod Guest
pub mod Profile
pub mod Providers
pub mod OAuth
pub mod Deletion
pub mod Session
pub mod Naming
pub mod Identities
pub mod SignIn
pub mod Closing
