-- ===== src/Docker.antt =====
-- internal/docker/manager.go: the Docker manager, over the Docker daemon.
pub mod Daemon
pub mod Containers
pub mod Lifecycle
pub mod Statistics
pub mod Views
pub mod Totals
mod Tests
