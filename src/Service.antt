-- ===== src/Service.antt =====
-- checkpoint_service/engine: the engine behind the HTTP service, which keeps its tables in a database
-- and mirrors revocations in Redis.
pub mod Redis
pub mod Revocation
pub mod AuditLogger
pub mod Engine
