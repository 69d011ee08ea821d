-- ===== src/Server.antt =====
-- cmd/server/main.go: what stands in front of every route.
pub mod Cors
