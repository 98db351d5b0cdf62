-- ===== src/Grpc.antt =====
-- internal/grpc: the services, over the messages of api/proto/bbdb/v1.
pub mod QueryServer
pub mod IngestionServer
pub mod Server
pub mod Interceptor
mod Tests
