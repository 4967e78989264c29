-- ===== src/Server.antt =====
-- The routes of cmd/server/main.go with their middleware. `/health` and `/metrics` answer without the
-- services, and gin's recovery and the access log change nothing here.
pub mod Startup
pub mod Routes
pub mod Chains
pub mod Guards
pub mod Placing
