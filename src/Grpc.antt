-- ===== src/Grpc.antt =====
-- internal/grpc: the services that the gateway serves over gRPC. The context and the transport are gRPC's.
pub mod WhitelistService
pub mod DockerService
pub mod HealthService
pub mod DatabaseService
