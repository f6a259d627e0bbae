-- ===== src/ServerCore.antt =====
-- The server-core crate: the in-memory resource store, the request handlers and the pipeline.
mod Tests
pub mod Store
pub mod Accept
pub mod Http
pub mod Handlers
pub mod Middleware
pub mod Pipeline
