-- ===== src/Gateway.antt =====
-- cmd/gateway/main.go: how the parts are put together.
pub mod Startup
pub mod Run
pub mod Outcome
pub mod Server
pub mod Lifecycle
pub mod Shutdown
pub mod Ending
pub mod Starved
pub mod Counted
pub mod Requests
pub mod Bounds
mod Tests
