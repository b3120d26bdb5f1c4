-- ===== src/Whitelist.antt =====
-- internal/whitelist/manager.go: the IP whitelist and blacklist. The Traefik configuration is a file of
-- the environment; YAML, the readings of the clock and what becomes of each write are parameters.
pub mod Types
pub mod Traefik
pub mod Operations
pub mod Listed
pub mod Invariant
pub mod Decision
pub mod Update
pub mod Reload
pub mod Contract
pub mod Expiry
pub mod Table
pub mod Abstract
pub mod Edits
pub mod Gone
pub mod Changes
pub mod Refinement
pub mod Sample
mod Tests
